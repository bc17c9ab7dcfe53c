-- ===== src/Tc/Parts.antt =====
-- pkg/tc/compare.go: the four parts that Split returns.
use sdnagent.Base.{Ordering, eq, List, [], ◌∷◌, Ordering-cases, inl, inr, ◌≡◌, refl, arith}
use sdnagent.FlowSet.{diff}
use sdnagent.Tc.Tree.{split_by}

module _ {ℓ} {A : Type ℓ} (cmp : A → A → Ordering) where
  -- The parts that only one list has are those of the Diff of flow sets.
  split_by-diff :
      (a b : List A)
      → ((split_by cmp a b).b_no_a ≡ (diff cmp a b).0)
        × ((split_by cmp a b).a_no_b ≡ (diff cmp a b).1)
  unfolding split_by diff
  split_by-diff [] b = (refl, refl)
  split_by-diff (x ∷ a) [] = (refl, refl)
  split_by-diff (x ∷ a) (y ∷ b) =
      let ih = split_by-diff a (y ∷ b) in
      let jh = split_by-diff (x ∷ a) b in let kh = split_by-diff a b in ground arith

  -- The objects of both lists, in step: each pair compares equal.
  unfoldable pub Matched : List A → List A → Type 0
  Matched [] [] = Unit
  Matched [] (y ∷ ys) = ⊥
  Matched (x ∷ xs) [] = ⊥
  Matched (x ∷ xs) (y ∷ ys) = (cmp x y ≡ eq) × Matched xs ys

  split_by-Matched : (a b : List A) → Matched (split_by cmp a b).a_and_b (split_by cmp a b).b_and_a
  unfolding split_by Matched
  split_by-Matched [] b = tt
  split_by-Matched (x ∷ a) [] = tt
  split_by-Matched (x ∷ a) (y ∷ b) = elim (Ordering-cases (cmp x y)) [
    | inl e ↦ rw (e, Matched, split_by) (split_by-Matched a (y ∷ b))
    | inr (inl e) ↦ rw (e, Matched, split_by) (e, split_by-Matched a b)
    | inr (inr e) ↦ rw (e, Matched, split_by) (split_by-Matched (x ∷ a) b)
  ]

  -- The list is put together from the two, each in its order.
  pub data Interleaved : List A → List A → List A → Type ℓ where
    nothing : Interleaved [] [] []
    left : (x : A) {xs ys l : List A} → Interleaved xs ys l → Interleaved (x ∷ xs) ys (x ∷ l)
    right : (y : A) {xs ys l : List A} → Interleaved xs ys l → Interleaved xs (y ∷ ys) (y ∷ l)

  all_left : (l : List A) → Interleaved l [] l
  all_left [] = nothing
  all_left (x ∷ l) = left x (all_left l)

  -- Whatever the comparison, Split loses no object and makes none: each list is put together, in its
  -- order, from the objects that it alone has and those of both; those of both are in step, and each
  -- pair of them compares equal; and what is left to one list is what Diff of flow sets leaves to it.
  pub split_by-Interleaved :
      (a b : List A)
      → Interleaved (split_by cmp a b).a_no_b (split_by cmp a b).a_and_b a
        × Interleaved (split_by cmp a b).b_no_a (split_by cmp a b).b_and_a b
        × Matched (split_by cmp a b).a_and_b (split_by cmp a b).b_and_a
        × ((split_by cmp a b).b_no_a ≡ (diff cmp a b).0)
        × ((split_by cmp a b).a_no_b ≡ (diff cmp a b).1)
  unfolding split_by
  split_by-Interleaved a b =
      let (first, second) = parts a b in
      let (same_b, same_a) = split_by-diff a b in
      (first, second, split_by-Matched a b, same_b, same_a)
    where
      parts :
          (a b : List A)
          → Interleaved (split_by cmp a b).a_no_b (split_by cmp a b).a_and_b a
            × Interleaved (split_by cmp a b).b_no_a (split_by cmp a b).b_and_a b
      parts [] b = (nothing, all_left b)
      parts (x ∷ a) [] = (all_left (x ∷ a), nothing)
      parts (x ∷ a) (y ∷ b) = elim (Ordering-cases (cmp x y)) [
        | inl e ↦ let (p, q) = parts a (y ∷ b) in rw (e, split_by) (left x p, q)
        | inr (inl e) ↦ let (p, q) = parts a b in rw (e, split_by) (right x p, right y q)
        | inr (inr e) ↦ let (p, q) = parts (x ∷ a) b in rw (e, split_by) (p, left y q)
      ]
