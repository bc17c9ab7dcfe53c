-- ===== src/Tests/FlowTests.antt =====
-- The flow sets and the flow manager at concrete flows.
use sdnagent.Base.{
  Ordering, lt, eq, true, not, ◌||◌, ◌&&◌, some, List, [], ◌∷◌, has, IsStrict, ◌≡◌, refl, is_eq,
  Str, IsLawful, codes,
}
use sdnagent.Flow.{Flow, compare_ovs_flow, compare_ovs_flow-IsLawful}
use sdnagent.FlowSet.{
  find_flow_index, find_flow_index-rank, rank, add, remove, diff, add-has, remove-has, has-diff,
}
use sdnagent.Tests.Sample.{text, drop_all, to_local, learned}

abbrev Cmp : Flow Str Str → Flow Str Str → Ordering
Cmp = compare_ovs_flow text

-- The higher priority comes first.
priority_first : Cmp to_local drop_all ≡ lt
unfolding compare_ovs_flow
priority_first = refl

-- A match on every address is no match.
wildcard_match :
    Cmp (record drop_all { matches = codes "nw_src=0.0.0.0/0" ∷ codes "ip" ∷ [] }) drop_all ≡ eq
unfolding compare_ovs_flow
wildcard_match = refl

two_flows : List (Flow Str Str)
two_flows = to_local ∷ drop_all ∷ []

added : add Cmp two_flows learned ≡ some (to_local ∷ drop_all ∷ learned ∷ [], true)
unfolding add compare_ovs_flow two_flows
added = refl

two_flows-IsStrict : IsStrict Cmp two_flows
unfolding compare_ovs_flow two_flows
two_flows-IsStrict = ((refl, tt), (tt, tt))

one_flow-IsStrict : IsStrict Cmp (learned ∷ [])
one_flow-IsStrict = (tt, tt)

compare_ovs_flow-IsLawful_example : IsLawful Cmp
compare_ovs_flow-IsLawful_example = compare_ovs_flow-IsLawful text

find_flow_index-rank_example :
    find_flow_index Cmp two_flows drop_all
    ≡ some (rank Cmp drop_all two_flows, has Cmp drop_all two_flows)
find_flow_index-rank_example =
    find_flow_index-rank Cmp (compare_ovs_flow-IsLawful text) drop_all two_flows two_flows-IsStrict

add-has_example :
    (l' : List (Flow Str Str)) × (add Cmp two_flows learned
      ≡ some (l', not (has Cmp learned two_flows)))
    × IsStrict Cmp l'
    × ((x : Flow Str Str) → has Cmp x l' ≡ (is_eq (Cmp x learned) || has Cmp x two_flows))
add-has_example = add-has Cmp (compare_ovs_flow-IsLawful text) two_flows learned two_flows-IsStrict

remove-has_example :
    (l' : List (Flow Str Str)) × (remove Cmp two_flows drop_all
      ≡ some (l', has Cmp drop_all two_flows))
    × IsStrict Cmp l'
    × ((x : Flow Str Str) → has Cmp x l' ≡ (not (is_eq (Cmp x drop_all)) && has Cmp x two_flows))
remove-has_example =
    remove-has Cmp (compare_ovs_flow-IsLawful text) two_flows drop_all two_flows-IsStrict

has-diff_example :
    (has Cmp learned (diff Cmp two_flows (learned ∷ [])).0
      ≡ (has Cmp learned (learned ∷ []) && not (has Cmp learned two_flows)))
    × (has Cmp learned (diff Cmp two_flows (learned ∷ [])).1
        ≡ (has Cmp learned two_flows && not (has Cmp learned (learned ∷ []))))
has-diff_example =
    has-diff Cmp (compare_ovs_flow-IsLawful text) learned two_flows (learned ∷ [])
      two_flows-IsStrict one_flow-IsStrict
