-- ===== src/SecFlows/Verdict.antt =====
-- pkg/agent/utils/flowsource.go: the tables of outgoing and incoming traffic, for any rules.
use sdnagent.Base.{
  ◌≤◌, Bool, ◌||◌, Option, none, some, List, [], ◌++◌, Str, codes, if◌then◌else◌, ◌≡◌, refl, sym,
  ◌∙◌, ap, arith, Bool-cases, inl, inr,
}
use sdnagent.SecFlows.Defs.{
  FlowSpec, FlowData, default_flows, default_in, load_zone_dst, security_flows,
}
use sdnagent.SecFlows.Order.{winner, better, first_match, or_else, Below, winner_first}
use sdnagent.SecFlows.Falling.{
  match_count, verdict, actions_of, rule_flows-Falls, first_match-verdict,
}
use sdnagent.SecFlows.Tables.{
  table_flows, table_flows_out, table_flows_in, out_flows, in_flows, append_nothing,
}

actions_or_else :
    (o p : Option FlowSpec) → actions_of (or_else o p) ≡ or_else (actions_of o) (actions_of p)
actions_or_else none p = refl
actions_or_else (some f) p = refl

or_else-none : (o : Option Str) → or_else o none ≡ o
or_else-none none = refl
or_else-none (some a) = refl

default_flows-Below : Below 31 default_flows
unfolding default_flows
default_flows-Below = ((30, refl, omega arith), ((30, refl, omega arith), tt))

default_action :
    (sat : Str → Bool)
    → actions_of (winner sat default_flows)
      ≡ (if sat (codes "ip") || sat (codes "ipv6") then some default_in else none)
unfolding default_flows winner better
default_action sat = elim (Bool-cases (sat (codes "ip"))) [
  | inl v4 ↦ elim (Bool-cases (sat (codes "ipv6"))) [
    | inl v6 ↦ rw (v4, v6) refl
    | inr not6 ↦ rw (v4, not6) refl
  ]
  | inr not4 ↦ elim (Bool-cases (sat (codes "ipv6"))) [
    | inl v6 ↦ rw (not4, v6) refl
    | inr not6 ↦ rw (not4, not6) refl
  ]
]

module _ {R : Type 0} (allow : R → Bool) (matches : R → List Str) (d : FlowData)
    (in_rules out_rules : List R) (sat : Str → Bool) where
  -- The table of outgoing traffic.
  pub security_flows_out :
      match_count allow matches out_rules ≤ 39_980
      → actions_of (winner sat (table_flows 2 (security_flows allow matches d in_rules out_rules)))
        ≡ verdict allow matches sat (codes "in_port=" ++ d.port_no) (codes "resubmit(,3)") out_rules
  unfolding winner
  security_flows_out room =
      let prefix = codes "in_port=" ++ d.port_no in
      let allowed = codes "resubmit(,3)" in
      let out = out_flows allow matches d in_rules out_rules in
      let (b, f) =
        rule_flows-Falls allow matches 2 20 prefix allowed 40_000 out_rules [] (omega (arith, room))
          tt in
      rw (table_flows_out allow matches d in_rules out_rules) (
        ap (λ fs. actions_of (winner sat fs)) (sym (append_nothing out))
        ∙ ap actions_of (winner_first sat out [] f)
        ∙ actions_or_else (first_match sat out) (winner sat [])
        ∙ rw
            (
              first_match-verdict allow matches 2 20 prefix allowed sat 40_000 out_rules
                  (omega (arith, room)),
              winner,
            )
            (or_else-none (verdict allow matches sat prefix allowed out_rules)))

  -- The table of incoming traffic.
  pub security_flows_in :
      match_count allow matches in_rules ≤ 39_970
      → actions_of (winner sat (table_flows 3 (security_flows allow matches d in_rules out_rules)))
        ≡ or_else
            (verdict allow matches sat
              (codes "dl_dst=" ++ d.mac)
              (load_zone_dst d ++ codes ",resubmit(,5)")
              in_rules)
            (if sat (codes "ip") || sat (codes "ipv6") then some default_in else none)
  security_flows_in room =
      let prefix = codes "dl_dst=" ++ d.mac in
      let allowed = load_zone_dst d ++ codes ",resubmit(,5)" in
      let ins = in_flows allow matches d in_rules out_rules in
      let (b, f) =
        rule_flows-Falls allow matches 3 30 prefix allowed 40_000 in_rules default_flows
          (omega (arith, room)) default_flows-Below in
      rw (table_flows_in allow matches d in_rules out_rules, winner_first sat ins default_flows f)
        (actions_or_else (first_match sat ins) (winner sat default_flows)
          ∙ rw
              (
                default_action sat,
                first_match-verdict allow matches 3 30 prefix allowed sat 40_000 in_rules
                    (omega (arith, room)),
              )
              refl)
