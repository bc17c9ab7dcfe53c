-- ===== src/Flow.antt =====
-- pkg/agent/utils/utils.go: OpenFlow rules and the comparison by which the agent orders them.
-- The matches and actions of a rule are values of the package go-openvswitch, which is not part of
-- the repository's own code: their types and text forms are the parameter `OvsText`.
mod Laws
pub use Laws.*
mod Defs
pub use Defs.{OvsText, Flow}
unfoldable pub use Defs.{
  ovs_match_string, ovs_match_strings, cmp_ovs_matches, ovs_action_string, ovs_action_strings,
  cmp_ovs_actions, compare_ovs_flow, ovs_flow_equal,
}
