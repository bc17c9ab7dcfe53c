-- ===== src/FlowSet/Merge.antt =====
-- pkg/agent/utils/flowset.go: Merge, and the set built from a list.
use sdnagent.Base.{
  Ordering, ◌||◌, some, List, [], ◌∷◌, has, has-sort, sort-IsSorted, IsStrict, IsSorted, IsLawful,
  ◌≡◌, refl, arith,
}
use sdnagent.FlowSet.Defs.{new_flow_set_from_list, merge}
use sdnagent.FlowSet.Update.{add-has}

module _ {ℓ} {A : Type ℓ} (cmp : A → A → Ordering) (law : IsLawful cmp) where
  -- Merge of any list of flows into a strictly ordered set never panics, and gives a strictly
  -- ordered set that has exactly what one of the two has.
  pub merge-has :
      (l r : List A)
      → IsStrict cmp l
      → (l' : List A) × (merge cmp l r ≡ some l')
        × IsStrict cmp l'
        × ((x : A) → has cmp x l' ≡ (has cmp x l || has cmp x r))
  unfolding merge has
  merge-has l [] s = (l, refl, s, λ x. ground arith)
  merge-has l (f ∷ r) s =
      let (m, e, sm, hm) = add-has cmp law l f s in
      let (l', e', s', h) = merge-has m r sm in
      (l', rw (e, merge) e', s', λ x. ground (arith, h x, hm x))

  -- The set made from a list is in order, and has exactly what the list has.
  pub new_flow_set_from_list-IsSorted :
      (flows : List A)
      → IsSorted cmp (new_flow_set_from_list cmp flows)
        × ((x : A) → has cmp x (new_flow_set_from_list cmp flows) ≡ has cmp x flows)
  unfolding new_flow_set_from_list
  new_flow_set_from_list-IsSorted flows = (sort-IsSorted cmp law flows, λ x. has-sort cmp x flows)
