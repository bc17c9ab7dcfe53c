-- ===== src/FlowSet/Update.antt =====
-- pkg/agent/utils/flowset.go: Add, Remove and Contains on a strictly ordered set.
use native.Mathlib.Numerals.{add-one}
use sdnagent.Base.{
  ℕ, zero, suc, ◌-◌, ◌≤◌, Ordering, lt, eq, gt, true, false, not, ◌&&◌, ◌||◌, some, List, [], ◌∷◌,
  ◌++◌, length, length-append, set, take, drop, has, IsStrict, Below, IsLawful, not-has_of_Below,
  not-has_of_lt, Below-trans, ◌≡◌, refl, ap, arith, Bool-cases, inl, inr, is_eq,
}
use sdnagent.FlowSet.Defs.{copy_within, add, remove, contains}
use sdnagent.FlowSet.Search.{rank, rank-bounds, find_flow_index-rank}

module _ {ℓ} {A : Type ℓ} where
  take-length-append : (l r : List A) → take (length l) (l ++ r) ≡ l
  take-length-append [] r = refl
  take-length-append (x ∷ l) r = ap (◌∷◌ x) (take-length-append l r)

  -- Append, shift, write: the element is put in at the index.
  shift_in :
      (i : ℕ) (l : List A) (f : A)
      → i ≤ length l
      → set (copy_within (suc i) i (l ++ f ∷ [])) i f ≡ take i l ++ f ∷ drop i l
  shift_in zero [] f h = refl
  shift_in zero (x ∷ l) f h =
      let e : suc (length (l ++ f ∷ [])) - 1 ≡ suc (length l) =
        omega (arith, length-append l (f ∷ [])) in
      rw e (ap (λ t. f ∷ x ∷ t) (take-length-append l (f ∷ [])))
  shift_in (suc i) [] f h = absurd (omega arith)
  shift_in (suc i) (x ∷ l) f h =
      let e : suc (length (l ++ f ∷ [])) - suc (suc i) ≡ length (l ++ f ∷ []) - suc i =
        omega arith in
      rw e (ap (◌∷◌ x) (shift_in i l f (omega arith)))

module _ {ℓ} {A : Type ℓ} (cmp : A → A → Ordering) where
  -- What Add and Remove do, by recursion on the set.
  unfoldable pub insert : A → List A → List A
  insert f [] = f ∷ []
  insert f (x ∷ l) =
      let rest = insert f l in elim (cmp x f) [ lt ↦ x ∷ rest | eq ↦ x ∷ l | gt ↦ f ∷ x ∷ l ]

  unfoldable pub delete : A → List A → List A
  delete f [] = []
  delete f (x ∷ l) = let rest = delete f l in elim (cmp x f) [ lt ↦ x ∷ rest | eq ↦ l | gt ↦ x ∷ l ]

  module _ (law : IsLawful cmp) where
    insert-rank :
        (f : A) (l : List A)
        → IsStrict cmp l
        → has cmp f l ≡ false
        → take (rank cmp f l) l ++ f ∷ drop (rank cmp f l) l ≡ insert f l
    unfolding rank insert has
    insert-rank f [] s h = refl
    insert-rank f (x ∷ l) s h = ground (arith, law.flip x f, insert-rank f l s.1)

    insert_found : (f : A) (l : List A) → IsStrict cmp l → has cmp f l ≡ true → insert f l ≡ l
    unfolding insert has
    insert_found f [] s h = ground arith
    insert_found f (x ∷ l) s h =
        ground (arith, law.flip x f, insert_found f l s.1, not-has_of_lt cmp law f x l)

    delete-rank :
        (f : A) (l : List A)
        → IsStrict cmp l
        → has cmp f l ≡ true
        → take (rank cmp f l) l ++ drop (suc (rank cmp f l)) l ≡ delete f l
    unfolding rank delete has
    delete-rank f [] s h = ground arith
    delete-rank f (x ∷ l) s h =
        ground (arith, law.flip x f, delete-rank f l s.1, not-has_of_lt cmp law f x l)

    delete_absent : (f : A) (l : List A) → IsStrict cmp l → has cmp f l ≡ false → delete f l ≡ l
    unfolding delete has
    delete_absent f [] s h = refl
    delete_absent f (x ∷ l) s h = ground (arith, law.flip x f, delete_absent f l s.1)

    has-insert : (f x : A) (l : List A) → has cmp x (insert f l) ≡ (is_eq (cmp x f) || has cmp x l)
    unfolding insert has
    has-insert f x [] = refl
    has-insert f x (y ∷ l) =
        ground (arith, has-insert f x l, law.cong y f x, law.flip x y, law.flip x f)

    has-delete :
        (f x : A) (l : List A)
        → IsStrict cmp l
        → has cmp x (delete f l) ≡ (not (is_eq (cmp x f)) && has cmp x l)
    unfolding delete has
    has-delete f x [] s = ground arith
    has-delete f x (y ∷ l) s = ground (
      arith,
      has-delete f x l s.1,
      law.cong x y f,
      law.cong x f y,
      law.flip y f,
      law.flip x f,
      law.flip x y,
      law.cong f x y,
      not-has_of_Below cmp law x y l,
      not-has_of_lt cmp law x y l,
    )

    Below-insert : (f x : A) (l : List A) → cmp x f ≡ lt → Below cmp x l → Below cmp x (insert f l)
    unfolding insert
    Below-insert f x [] e b = (e, tt)
    Below-insert f x (y ∷ l) e b = ground (arith, Below-insert f x l e b.1)

    insert-IsStrict : (f : A) (l : List A) → IsStrict cmp l → IsStrict cmp (insert f l)
    unfolding insert
    insert-IsStrict f [] s = (tt, tt)
    insert-IsStrict f (x ∷ l) s = ground (
      arith,
      insert-IsStrict f l s.1,
      Below-insert f x l,
      law.flip x f,
      Below-trans cmp law f x l,
    )

    Below-delete : (f x : A) (l : List A) → Below cmp x l → Below cmp x (delete f l)
    unfolding delete
    Below-delete f x [] b = tt
    Below-delete f x (y ∷ l) b = ground (arith, Below-delete f x l b.1)

    delete-IsStrict : (f : A) (l : List A) → IsStrict cmp l → IsStrict cmp (delete f l)
    unfolding delete
    delete-IsStrict f [] s = tt
    delete-IsStrict f (x ∷ l) s = ground (arith, delete-IsStrict f l s.1, Below-delete f x l s.0)

    pub add-insert :
        (f : A) (l : List A) → IsStrict cmp l → add cmp l f ≡ some (insert f l, not (has cmp f l))
    unfolding add
    add-insert f l s = elim (Bool-cases (has cmp f l)) [
      | inl old ↦ rw (find_flow_index-rank cmp law f l s, old, add) (rw (insert_found f l s old))
      | inr new ↦
          rw (find_flow_index-rank cmp law f l s, new, add-one, add)
            (rw (shift_in (rank cmp f l) l f (rank-bounds cmp law f l s).0, insert-rank f l s new))
    ]

    pub remove-delete :
        (f : A) (l : List A) → IsStrict cmp l → remove cmp l f ≡ some (delete f l, has cmp f l)
    unfolding remove
    remove-delete f l s = elim (Bool-cases (has cmp f l)) [
      | inl old ↦
          rw (find_flow_index-rank cmp law f l s, old, add-one, remove) (rw (delete-rank f l s old))
      | inr new ↦
          rw (find_flow_index-rank cmp law f l s, new, remove) (rw (delete_absent f l s new))
    ]

    -- Add on a strictly ordered set never panics. It returns true exactly when the flow was not
    -- there; the new set is strictly ordered and has what the old one had, and the flow.
    pub add-has :
        (l : List A) (f : A)
        → IsStrict cmp l
        → (l' : List A) × (add cmp l f ≡ some (l', not (has cmp f l)))
          × IsStrict cmp l'
          × ((x : A) → has cmp x l' ≡ (is_eq (cmp x f) || has cmp x l))
    add-has l f s = (insert f l, add-insert f l s, insert-IsStrict f l s, λ x. has-insert f x l)

    -- Remove on a strictly ordered set never panics. It returns true exactly when the flow was
    -- there; the new set is strictly ordered and has what the old one had, less the flow.
    pub remove-has :
        (l : List A) (f : A)
        → IsStrict cmp l
        → (l' : List A) × (remove cmp l f ≡ some (l', has cmp f l))
          × IsStrict cmp l'
          × ((x : A) → has cmp x l' ≡ (not (is_eq (cmp x f)) && has cmp x l))
    remove-has l f s =
        (delete f l, remove-delete f l s, delete-IsStrict f l s, λ x. has-delete f x l s)

    -- Contains on a strictly ordered set never panics and answers by membership.
    contains-has : (l : List A) (f : A) → IsStrict cmp l → contains cmp l f ≡ some (has cmp f l)
    unfolding contains
    contains-has l f s = rw (find_flow_index-rank cmp law f l s, contains)
