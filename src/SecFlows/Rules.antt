-- ===== src/SecFlows/Rules.antt =====
-- pkg/agent/utils/flowsource.go: the flows for the rules of pkg/agent/utils/securityrules.go.
use sdnagent.Base.{◌≤◌, Bool, ◌||◌, none, some, List, [], ◌++◌, Str, codes, if◌then◌else◌, ◌≡◌}
use sdnagent.SecRules.Rules.{SecLib, SecurityRule, ovs_matches_of}
use sdnagent.SecFlows.Defs.{FlowSpec, FlowData, security_flows, load_zone_dst, default_in}
use sdnagent.SecFlows.Order.{winner, or_else}
use sdnagent.SecFlows.Falling.{match_count, verdict, actions_of}
use sdnagent.SecFlows.Tables.{table_flows}
use sdnagent.SecFlows.Verdict.{security_flows_out, security_flows_in}

module _ (lib : SecLib) where
  -- OvsActionAllow
  unfoldable pub ovs_action_allow : SecurityRule lib → Bool
  ovs_action_allow sr = sr.r.allow

  -- The result of OvsMatches; fuel that ran out would give no match.
  unfoldable pub matches_of : SecurityRule lib → List Str
  unfolding ovs_matches_of
  matches_of sr = elim (ovs_matches_of lib sr) [ none ↦ [] | some (sr', ms) ↦ ms ]

  -- SecurityRules.Flows, for the rules of the two directions.
  unfoldable pub flows :
      FlowData → List (SecurityRule lib) → List (SecurityRule lib) → List FlowSpec
  flows d in_rules out_rules = security_flows ovs_action_allow matches_of d in_rules out_rules

  module _ (d : FlowData) (in_rules out_rules : List (SecurityRule lib)) (sat : Str → Bool) where
    -- If the outgoing rules have at most 39980 matches, the flow of table 2 with the highest priority of
    -- those that a packet satisfies drops the packet or sends it on as the first outgoing rule says
    -- that has a match which, with the nic's port, the packet satisfies; there is no such flow if
    -- there is no such rule. `sat` is any reading of the texts of matches.
    pub flows_out :
        match_count ovs_action_allow matches_of out_rules ≤ 39_980
        → actions_of (winner sat (table_flows 2 (flows d in_rules out_rules)))
          ≡ verdict ovs_action_allow matches_of sat
              (codes "in_port=" ++ d.port_no)
              (codes "resubmit(,3)")
              out_rules
    unfolding flows
    flows_out room = security_flows_out ovs_action_allow matches_of d in_rules out_rules sat room

    -- If the incoming rules have at most 39970 matches, the flow of table 3 with the highest priority of
    -- those that a packet satisfies drops the packet or sends it on as the first incoming rule says
    -- that has a match which, with the nic's address, the packet satisfies; if there is no such
    -- rule, an IPv4 or IPv6 packet is committed and sent on normally.
    pub flows_in :
        match_count ovs_action_allow matches_of in_rules ≤ 39_970
        → actions_of (winner sat (table_flows 3 (flows d in_rules out_rules)))
          ≡ or_else
              (verdict ovs_action_allow matches_of sat
                (codes "dl_dst=" ++ d.mac)
                (load_zone_dst d ++ codes ",resubmit(,5)")
                in_rules)
              (if sat (codes "ip") || sat (codes "ipv6") then some default_in else none)
    unfolding flows
    flows_in room = security_flows_in ovs_action_allow matches_of d in_rules out_rules sat room
