-- ===== src/SecFlows/Tables.antt =====
-- pkg/agent/utils/flowsource.go: what SecurityRules.Flows puts in the tables of outgoing and incoming
-- traffic.
use sdnagent.Base.{
  ℕ, Bool, true, false, List, [], ◌∷◌, ◌++◌, Str, codes, ℤ, pos, ◌==◌, if◌then◌else◌, ◌≡◌, refl,
  ◌∙◌, ap, arith, Bool-cases, inl, inr,
}
use sdnagent.SecFlows.Defs.{
  FlowSpec, FlowData, admit_flows, reject_flows, each_ip, checked_flows, is_empty, entry_flows,
  state_flows, default_flows, commit_flows, match_flows, rule_flows, security_flows, action_of,
  at_most, load_zone_dst,
}

unfoldable pub table_flows : ℕ → List FlowSpec → List FlowSpec
table_flows t [] = []
table_flows t (f ∷ fs) = let rest = table_flows t fs in if f.table == t then f ∷ rest else rest

-- All flows are of the table.
abbrev Within : ℕ → List FlowSpec → Type 0
Within t [] = Unit {0}
Within t (f ∷ fs) = (f.table ≡ t) × Within t fs

append-Within : (t : ℕ) (fs gs : List FlowSpec) → Within t fs → Within t gs → Within t (fs ++ gs)
append-Within t [] gs h k = k
append-Within t (f ∷ fs) gs (e, h) k = (e, append-Within t fs gs h k)

pub table_flows-append :
    (t : ℕ) (fs gs : List FlowSpec)
    → table_flows t (fs ++ gs) ≡ table_flows t fs ++ table_flows t gs
unfolding table_flows
table_flows-append t [] gs = refl
table_flows-append t (f ∷ fs) gs = ground (arith, table_flows-append t fs gs)

table_flows_own : (t : ℕ) (fs : List FlowSpec) → Within t fs → table_flows t fs ≡ fs
unfolding table_flows
table_flows_own t [] h = refl
table_flows_own t (f ∷ fs) (e, h) = ground (arith, e, table_flows_own t fs h)

table_flows_other :
    (t u : ℕ) (fs : List FlowSpec) → (u == t) ≡ false → Within u fs → table_flows t fs ≡ []
unfolding table_flows
table_flows_other t u [] ne h = refl
table_flows_other t u (f ∷ fs) ne (e, h) = ground (arith, ne, e, table_flows_other t u fs ne h)

match_flows-Within :
    (t : ℕ) (prefix action : Str) (p : ℤ) (ms : List Str)
    → Within t (match_flows t prefix action p ms).0
unfolding match_flows
match_flows-Within t prefix action p [] = tt
match_flows-Within t prefix action p (m ∷ ms) = (refl, match_flows-Within t prefix action _ ms)

each_ip-Within : (d : FlowData) (ips : List Str) → Within 0 (each_ip d ips)
unfolding each_ip admit_flows
each_ip-Within d [] = tt
each_ip-Within d (ip ∷ ips) = (refl, (refl, (refl, each_ip-Within d ips)))

admit_flows-Within : (d : FlowData) (dst src : Str) → Within 0 (admit_flows d dst src)
unfolding admit_flows
admit_flows-Within d dst src = (refl, (refl, (refl, tt)))

reject_flows-Within : (d : FlowData) (m : Str) → Within 0 (reject_flows d m)
unfolding reject_flows
reject_flows-Within d m = (refl, (refl, (refl, tt)))

if-Within :
    (t : ℕ) (b : Bool) (fs gs : List FlowSpec)
    → Within t fs
    → Within t gs
    → Within t (if b then fs else gs)
if-Within t true fs gs h k = h
if-Within t false fs gs h k = k

checked_flows-Within : (d : FlowData) → Within 0 (checked_flows d)
unfolding checked_flows
checked_flows-Within d =
    let ips = each_ip d (d.sub_ips ++ d.ip ∷ []) in
    let dst = codes "ipv6,ipv6_dst=" ++ d.ip6 in
    let src = codes "ipv6,ipv6_src=" ++ d.ip6 in
    append-Within 0 (if is_empty d.ip then [] else ips ++ reject_flows d (codes "ip"))
      (if is_empty d.ip6 then [] else admit_flows d dst src ++ reject_flows d (codes "ipv6"))
      (if-Within 0 (is_empty d.ip) [] (ips ++ reject_flows d (codes "ip")) tt (
        append-Within 0 ips (reject_flows d (codes "ip"))
          (each_ip-Within d (d.sub_ips ++ d.ip ∷ [])) (reject_flows-Within d (codes "ip"))))
      (if-Within 0 (is_empty d.ip6) [] (admit_flows d dst src ++ reject_flows d (codes "ipv6")) tt (
        append-Within 0 (admit_flows d dst src) (reject_flows d (codes "ipv6"))
          (admit_flows-Within d dst src) (reject_flows-Within d (codes "ipv6"))))

entry_flows-Within : (d : FlowData) → Within 0 (entry_flows d)
unfolding entry_flows
entry_flows-Within d =
    let open4 = admit_flows d (codes "ip") (codes "ip") in
    let open6 = admit_flows d (codes "ipv6") (codes "ipv6") in
    (
      refl,
      (
        refl,
        append-Within 0 (if d.src_ip_check then checked_flows d else open4 ++ open6) (_ ∷ [])
            (if-Within 0 d.src_ip_check (checked_flows d) (open4 ++ open6) (checked_flows-Within d)
              (append-Within 0 open4 open6 (admit_flows-Within d (codes "ip") (codes "ip"))
                (admit_flows-Within d (codes "ipv6") (codes "ipv6"))))
            (refl, tt),
      ),
    )

state_flows_other :
    (t : ℕ) (d : FlowData)
    → (1 == t) ≡ false
    → (4 == t) ≡ false
    → table_flows t (state_flows d) ≡ []
unfolding state_flows table_flows
state_flows_other t d h k = elim (Bool-cases d.allow_conntrack_invalid) [
  | inl e ↦ rw (e, h, k) refl
  | inr e ↦ rw (e, h, k) refl
]

pub append_nothing : (fs : List FlowSpec) → fs ++ [] ≡ fs
append_nothing [] = refl
append_nothing (f ∷ fs) = ap (λ gs. f ∷ gs) (append_nothing fs)

-- What the fixed flows at the end add to the tables of the rules.
fixed_flows :
    (table_flows 2 default_flows ≡ [])
    × (table_flows 2 commit_flows ≡ [])
    × (table_flows 3 default_flows ≡ default_flows)
    × (table_flows 3 commit_flows ≡ [])
unfolding table_flows default_flows commit_flows
fixed_flows = (refl, refl, refl, refl)

six :
    (t : ℕ) (a b c d e f : List FlowSpec)
    → table_flows t (a ++ b ++ c ++ d ++ e ++ f)
      ≡ table_flows t a
        ++ table_flows t b
        ++ table_flows t c
        ++ table_flows t d
        ++ table_flows t e
        ++ table_flows t f
six t a b c d e f =
    rw
      (
        table_flows-append t (a ++ b ++ c ++ d ++ e) f,
        table_flows-append t (a ++ b ++ c ++ d) e,
        table_flows-append t (a ++ b ++ c) d,
        table_flows-append t (a ++ b) c,
        table_flows-append t a b,
      )
      refl

module _ {R : Type 0} (allow : R → Bool) (matches : R → List Str) where
  rule_flows-Within :
      (t limit : ℕ) (prefix allowed : Str) (p : ℤ) (rs : List R)
      → Within t (rule_flows allow matches t limit prefix allowed p rs)
  unfolding rule_flows
  rule_flows-Within t limit prefix allowed p [] = tt
  rule_flows-Within t limit prefix allowed p (r ∷ rs) = elim (Bool-cases (at_most p limit)) [
    | inl stops ↦ rw stops tt
    | inr goes ↦ rw goes (
        let a = action_of allow matches allowed r in
        let q = (match_flows t prefix a p (matches r)).1 in
        append-Within t (match_flows t prefix a p (matches r)).0
          (rule_flows allow matches t limit prefix allowed q rs)
          (match_flows-Within t prefix a p (matches r))
          (rule_flows-Within t limit prefix allowed q rs))
  ]

  module _ (d : FlowData) (in_rules out_rules : List R) where
    abbrev pub out_flows : List FlowSpec
    out_flows =
        rule_flows allow matches 2 20 (codes "in_port=" ++ d.port_no) (codes "resubmit(,3)")
          (pos 40_000) out_rules

    abbrev pub in_flows : List FlowSpec
    in_flows =
        rule_flows allow matches 3 30 (codes "dl_dst=" ++ d.mac)
          (load_zone_dst d ++ codes ",resubmit(,5)") (pos 40_000) in_rules

    -- The table of outgoing traffic has the flows of the outgoing rules only.
    pub table_flows_out :
        table_flows 2 (security_flows allow matches d in_rules out_rules) ≡ out_flows
    unfolding security_flows
    table_flows_out =
        rw
          (
            six 2 (entry_flows d) (state_flows d) out_flows in_flows default_flows commit_flows,
            table_flows_other 2 0 (entry_flows d) refl (entry_flows-Within d),
            state_flows_other 2 d refl refl,
            table_flows_own 2 out_flows (
                rule_flows-Within 2 20 (codes "in_port=" ++ d.port_no) (codes "resubmit(,3)")
                  (pos 40_000) out_rules),
            table_flows_other 2 3 in_flows refl (
                rule_flows-Within 3 30 (codes "dl_dst=" ++ d.mac)
                  (load_zone_dst d ++ codes ",resubmit(,5)") (pos 40_000) in_rules),
          )
          (rw (fixed_flows.0, fixed_flows.1)
            (append_nothing (out_flows ++ [] ++ [])
              ∙ append_nothing (out_flows ++ [])
              ∙ append_nothing out_flows))

    pub table_flows_in :
        table_flows 3 (security_flows allow matches d in_rules out_rules)
        ≡ in_flows ++ default_flows
    unfolding security_flows
    table_flows_in =
        rw
          (
            six 3 (entry_flows d) (state_flows d) out_flows in_flows default_flows commit_flows,
            table_flows_other 3 0 (entry_flows d) refl (entry_flows-Within d),
            state_flows_other 3 d refl refl,
            table_flows_own 3 in_flows (
                rule_flows-Within 3 30 (codes "dl_dst=" ++ d.mac)
                  (load_zone_dst d ++ codes ",resubmit(,5)") (pos 40_000) in_rules),
            table_flows_other 3 2 out_flows refl (
                rule_flows-Within 2 20 (codes "in_port=" ++ d.port_no) (codes "resubmit(,3)")
                  (pos 40_000) out_rules),
          )
          (rw (fixed_flows.2, fixed_flows.3, append_nothing (in_flows ++ default_flows)) refl)
