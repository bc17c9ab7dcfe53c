-- ===== src/FlowSet/Defs.antt =====
-- pkg/agent/utils/flowset.go: the operations on `fs.flows`. The set is the slice of its flows; the
-- comparison of two flows, CompareOVSFlow in the program, is the parameter `cmp`.
use sdnagent.Base.{
  ℕ, zero, suc, ◌+◌, ◌-◌, ◌/◌, Ordering, lt, eq, gt, Bool, true, false, Option, none, some, List,
  [], ◌∷◌, ◌++◌, length, get_elem?, set, take, drop, sort, ltb, if◌then◌else◌,
}

-- `copy(l[dst:], l[src:])`, for `dst` at least `src`: as many elements as fit.
abbrev pub copy_within {ℓ} : {A : Type ℓ} → ℕ → ℕ → List A → List A
copy_within dst src l = take dst l ++ take (length l - dst) (drop src l)

module _ {ℓ} {A : Type ℓ} (cmp : A → A → Ordering) where
  -- NewFlowSetFromList
  unfoldable pub new_flow_set_from_list : List A → List A
  unfolding sort
  new_flow_set_from_list flows = sort cmp flows

  -- The loop of findFlowIndex. `stop` is the source's `j + 1`, which is -1 + 1 where the source's
  -- `j` runs off the left end. `none` is a panic of the index expression, or fuel that ran out.
  unfoldable pub find_loop : ℕ → A → List A → ℕ → ℕ → Option (ℕ × Bool)
  find_loop zero f flows i stop = none
  find_loop (suc fuel) f flows i stop =
      let m = (i + (stop - 1)) / 2 in
      let right = find_loop fuel f flows (m + 1) stop in
      let left = find_loop fuel f flows i m in
      if ltb i stop
      then (elim (get_elem? flows m) [
        | none ↦ none
        | some x ↦ elim (cmp x f) [ lt ↦ right | gt ↦ left | eq ↦ some (m, true) ]
      ])
      else some (stop, false)

  unfoldable pub find_flow_index : List A → A → Option (ℕ × Bool)
  unfolding find_loop
  find_flow_index flows f = find_loop (length flows + 1) f flows 0 (length flows)

  -- Add: append, shift the tail, write. The Boolean is the source's result.
  unfoldable pub add : List A → A → Option (List A × Bool)
  unfolding find_flow_index
  add flows f = elim (find_flow_index flows f) [
    | none ↦ none
    | some (i, true) ↦ some (flows, false)
    | some (i, false) ↦ some (set (copy_within (i + 1) i (flows ++ f ∷ [])) i f, true)
  ]

  -- `append(flows[:i], flows[i+1:]...)`
  unfoldable pub remove : List A → A → Option (List A × Bool)
  unfolding find_flow_index
  remove flows f = elim (find_flow_index flows f) [
    | none ↦ none
    | some (i, true) ↦ some (take i flows ++ drop (i + 1) flows, true)
    | some (i, false) ↦ some (flows, false)
  ]

  unfoldable pub contains : List A → A → Option Bool
  unfolding find_flow_index
  contains flows f = elim (find_flow_index flows f) [ none ↦ none | some (i, found) ↦ some found ]

  -- Merge: the flows of the other set, one Add each.
  unfoldable pub merge : List A → List A → Option (List A)
  unfolding add
  merge flows [] = some flows
  merge flows (f ∷ rest) = elim (add flows f) [
    | none ↦ none
    | some (flows', added) ↦ merge flows' rest
  ]

  -- The loop of Diff over the two suffixes that are left: (flowsAdd, flowsDel).
  unfoldable pub diff : List A → List A → List A × List A
  diff [] fs1 = (fs1, [])
  diff (x ∷ fs0) [] = ([], x ∷ fs0)
  diff (x ∷ fs0) (y ∷ fs1) = elim (cmp x y) [
    | lt ↦ let (flows_add, flows_del) = diff fs0 (y ∷ fs1) in (flows_add, x ∷ flows_del)
    | gt ↦ let (flows_add, flows_del) = diff (x ∷ fs0) fs1 in (y ∷ flows_add, flows_del)
    | eq ↦ diff fs0 fs1
  ]
