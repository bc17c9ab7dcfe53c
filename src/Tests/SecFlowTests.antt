-- ===== src/Tests/SecFlowTests.antt =====
-- The flows of two lists of rules, and the theorems of SecFlows applied to them.
use sdnagent.Base.{
  ◌≤◌, Bool, true, false, none, some, List, [], ◌∷◌, ◌++◌, Str, codes, str_eq, if◌then◌else◌, ◌≡◌,
  refl, arith, ◌||◌,
}
use sdnagent.SecRules.Rules.{SecurityRule}
use sdnagent.SecFlows.Defs.{FlowData, default_in, load_zone_dst}
use sdnagent.SecFlows.Order.{winner, or_else}
use sdnagent.SecFlows.Falling.{match_count, verdict, actions_of}
use sdnagent.SecFlows.Tables.{table_flows}
use sdnagent.SecFlows.Rules.{ovs_action_allow, matches_of, flows, flows_out, flows_in}
use sdnagent.Tests.RuleTests.{sample_lib, deny_in, allow_out}

abbrev cached : Bool → List Str → SecurityRule sample_lib
cached allowed ms = record { r = if allowed then allow_out else deny_in; ovs_matches = some ms }

abbrev nic_data : FlowData
nic_data = record {
  mac = codes "00:22:1b:04:95:b3";
  port_no = codes "7";
  port_no_phy = codes "1";
  dl_vlan = codes "dl_vlan=5";
  ip = codes "10.0.0.2";
  ip6 = [];
  sub_ips = codes "10.0.0.3" ∷ [];
  ct_zone = 60_001;
  src_ip_check = true;
  allow_conntrack_invalid = false;
}

abbrev two_rules : List (SecurityRule sample_lib)
two_rules =
    cached true (codes "ip,nw_dst=10.0.0.9" ∷ [])
    ∷ cached false (codes "ipv6" ∷ codes "ip" ∷ [])
    ∷ []

-- An IPv4 packet from the nic to 10.0.0.8.
abbrev packet : Str → Bool
packet m = str_eq m (codes "in_port=7,ip") || str_eq m (codes "ip")

room_two : match_count (ovs_action_allow sample_lib) (matches_of sample_lib) two_rules ≤ 39_970
unfolding matches_of
room_two = omega arith

-- The second rule drops it.
dropped :
    verdict
      (ovs_action_allow sample_lib)
      (matches_of sample_lib)
      packet
      (codes "in_port=7")
      (codes "resubmit(,3)")
      two_rules
    ≡ some (codes "drop")
unfolding matches_of ovs_action_allow str_eq
dropped = refl

flows_out_example :
    actions_of (winner packet (table_flows 2 (flows sample_lib nic_data [] two_rules)))
    ≡ verdict
        (ovs_action_allow sample_lib)
        (matches_of sample_lib)
        packet
        (codes "in_port=" ++ nic_data.port_no)
        (codes "resubmit(,3)")
        two_rules
flows_out_example = flows_out sample_lib nic_data [] two_rules packet (omega (arith, room_two))

flows_in_example :
    actions_of (winner packet (table_flows 3 (flows sample_lib nic_data two_rules [])))
    ≡ or_else
        (verdict
          (ovs_action_allow sample_lib)
          (matches_of sample_lib)
          packet
          (codes "dl_dst=" ++ nic_data.mac)
          (load_zone_dst nic_data ++ codes ",resubmit(,5)")
          two_rules)
        (if packet (codes "ip") || packet (codes "ipv6") then some default_in else none)
flows_in_example = flows_in sample_lib nic_data two_rules [] packet room_two
