-- ===== src/NicFlows/Misses.antt =====
-- pkg/agent/utils/flowsource.go: flows of table 0 that a packet does not meet.
use sdnagent.Base.{
  Bool, true, false, ◌&&◌, none, some, List, [], ◌∷◌, ◌++◌, Str, ◌==◌, if◌then◌else◌, ◌≡◌, refl, ap,
  arith, Bool-cases, inl, inr,
}
use sdnagent.SecFlows.{FlowSpec}
use sdnagent.SecFlows.Order.{winner, better}
use sdnagent.SecFlows.Tables.{table_flows}
use sdnagent.NicFlows.Nic.{for_ips}

-- No flow of table 0 is one that the packet satisfies.
pub data Misses (sat : Str → Bool) : List FlowSpec → Type 0 where
  no_flow : Misses sat []
  next :
      {f : FlowSpec} {fs : List FlowSpec}
      → (f.table == 0) && sat f.matches ≡ false
      → Misses sat fs
      → Misses sat (f ∷ fs)

module _ (sat : Str → Bool) where
  pub append-Misses :
      (fs gs : List FlowSpec) → Misses sat fs → Misses sat gs → Misses sat (fs ++ gs)
  append-Misses [] gs no_flow q = q
  append-Misses (f ∷ fs) gs (next e p) q = next e (append-Misses fs gs p q)

  pub if-Misses :
      (b : Bool) (fs gs : List FlowSpec)
      → Misses sat fs
      → Misses sat gs
      → Misses sat (if b then fs else gs)
  if-Misses true fs gs p q = p
  if-Misses false fs gs p q = q

  winner_missed : (fs : List FlowSpec) → Misses sat fs → winner sat (table_flows 0 fs) ≡ none
  unfolding winner table_flows
  winner_missed [] no_flow = refl
  winner_missed (f ∷ fs) (next e m) = elim (Bool-cases (f.table == 0)) [
    | inl here ↦
        let missed : sat f.matches ≡ false = ground (arith, e, here) in
        rw (here, table_flows) (rw (missed, winner) (winner_missed fs m))
    | inr there ↦ rw (there, table_flows) (winner_missed fs m)
  ]

  pub winner-append_missed :
      (fs gs : List FlowSpec)
      → Misses sat fs
      → winner sat (table_flows 0 (fs ++ gs)) ≡ winner sat (table_flows 0 gs)
  unfolding winner table_flows
  winner-append_missed [] gs no_flow = refl
  winner-append_missed (f ∷ fs) gs (next e m) = elim (Bool-cases (f.table == 0)) [
    | inl here ↦
        let missed : sat f.matches ≡ false = ground (arith, e, here) in
        rw (here, table_flows) (rw (missed, winner) (winner-append_missed fs gs m))
    | inr there ↦ rw (there, table_flows) (winner-append_missed fs gs m)
  ]

  pub winner-append_last :
      (fs gs : List FlowSpec)
      → Misses sat gs
      → winner sat (table_flows 0 (fs ++ gs)) ≡ winner sat (table_flows 0 fs)
  unfolding winner table_flows
  winner-append_last [] gs m = winner_missed gs m
  winner-append_last (f ∷ fs) gs m = elim (Bool-cases (f.table == 0)) [
    | inl here ↦
        rw (here, table_flows)
          (ap (λ o. if sat f.matches then some (better f o) else o) (winner-append_last fs gs m))
    | inr there ↦ rw (there, table_flows) (winner-append_last fs gs m)
  ]

  pub for_ips-Misses :
      (f : Str → List FlowSpec) (ips : List Str)
      → ((ip : Str) → Misses sat (f ip))
      → Misses sat (for_ips f ips)
  unfolding for_ips
  for_ips-Misses f [] h = no_flow
  for_ips-Misses f (ip ∷ ips) h =
      append-Misses (f ip) (for_ips f ips) (h ip) (for_ips-Misses f ips h)
