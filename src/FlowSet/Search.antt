-- ===== src/FlowSet/Search.antt =====
-- pkg/agent/utils/flowset.go: the binary search of findFlowIndex finds the rank of the flow.
use sdnagent.Base.{
  ℕ, zero, suc, ◌+◌, ◌-◌, ◌/◌, ◌≤◌, ◌<◌, Ordering, lt, eq, gt, Bool, true, false, some, List, [],
  ◌∷◌, length, get_elem?, get_elem?_of_lt, ltb, has, IsStrict, Below, IsLawful, not-has_of_lt, ◌≡◌,
  refl, arith, Bool-cases, inl, inr, ap,
}
use sdnagent.FlowSet.Defs.{find_loop, find_flow_index}

module _ {ℓ} {A : Type ℓ} (cmp : A → A → Ordering) where
  -- How many elements at the front are less than `f`.
  unfoldable pub rank : A → List A → ℕ
  rank f [] = 0
  rank f (x ∷ l) = let rest = rank f l in elim (cmp x f) [ lt ↦ suc rest | _ ↦ 0 ]

  -- How the element at index `k` compares with a flow of the given rank.
  abbrev pub side : ℕ → ℕ → Bool → Ordering
  side zero zero true = eq
  side zero zero false = gt
  side zero (suc r) found = lt
  side (suc k) zero found = gt
  side (suc k) (suc r) found = side k r found

  module _ (law : IsLawful cmp) where
    pub rank-bounds :
        (f : A) (l : List A)
        → IsStrict cmp l
        → (rank f l ≤ length l) × (has cmp f l ≡ true → rank f l < length l)
    unfolding rank has
    rank-bounds f [] s = (omega arith, λ h. ground arith)
    rank-bounds f (x ∷ l) s = (
      ground (arith, rank-bounds f l s.1),
      λ h. ground (arith, rank-bounds f l s.1, law.flip x f, not-has_of_lt cmp law f x l),
    )

    pub side-Below :
        (f y : A) (l : List A) (k : ℕ) (x : A)
        → cmp f y ≡ eq
        → Below cmp y l
        → get_elem? l k ≡ some x
        → cmp x f ≡ gt
    side-Below f y [] k x e b h = ground arith
    side-Below f y (z ∷ l) zero x e b h = ground (arith, law.cong f y z, law.flip f z)
    side-Below f y (z ∷ l) (suc k) x e b h = side-Below f y l k x e b.1 h

    pub side-lt :
        (f y : A) (l : List A) (k : ℕ) (x : A)
        → cmp f y ≡ lt
        → Below cmp y l
        → get_elem? l k ≡ some x
        → cmp x f ≡ gt
    side-lt f y [] k x e b h = ground arith
    side-lt f y (z ∷ l) zero x e b h = ground (arith, law.trans f y z, law.flip f z)
    side-lt f y (z ∷ l) (suc k) x e b h = side-lt f y l k x e b.1 h

    pub cmp-side :
        (f : A) (l : List A) (k : ℕ) (x : A)
        → IsStrict cmp l
        → get_elem? l k ≡ some x
        → cmp x f ≡ side k (rank f l) (has cmp f l)
    unfolding rank has
    cmp-side f [] k x s e = ground arith
    cmp-side f (y ∷ l) zero x s e = ground (arith, law.flip y f, not-has_of_lt cmp law f y l)
    cmp-side f (y ∷ l) (suc k) x s e = ground (
      arith,
      law.flip y f,
      not-has_of_lt cmp law f y l,
      cmp-side f l k x s.1 e,
      side-Below f y l k x,
      side-lt f y l k x,
    )

    side-lt_iff : (k r : ℕ) (found : Bool) → side k r found ≡ lt → k < r
    side-lt_iff zero zero true h = ground arith
    side-lt_iff zero zero false h = ground arith
    side-lt_iff zero (suc r) found h = omega arith
    side-lt_iff (suc k) zero found h = ground arith
    side-lt_iff (suc k) (suc r) found h = omega (arith, side-lt_iff k r found h)

    side-eq_iff : (k r : ℕ) (found : Bool) → side k r found ≡ eq → (k ≡ r) × (found ≡ true)
    side-eq_iff zero zero true h = (refl, refl)
    side-eq_iff zero zero false h = ground arith
    side-eq_iff zero (suc r) found h = ground arith
    side-eq_iff (suc k) zero found h = ground arith
    side-eq_iff (suc k) (suc r) found h = let (p, q) = side-eq_iff k r found h in (ap suc p, q)

    side-gt_iff : (k r : ℕ) (found : Bool) → side k r found ≡ gt → (r ≤ k) × (found ≡ true → r < k)
    side-gt_iff zero zero true h = ground arith
    side-gt_iff zero zero false h = (omega arith, λ e. ground arith)
    side-gt_iff zero (suc r) found h = ground arith
    side-gt_iff (suc k) zero found h = (omega arith, λ e. omega arith)
    side-gt_iff (suc k) (suc r) found h =
        let (p, q) = side-gt_iff k r found h in (omega arith, λ e. omega (arith, q e))

    -- The loop's invariant: the rank lies in [i, stop], and below `stop` if the flow is there.
    find_loop-rank :
        (fuel : ℕ) (f : A) (l : List A) (i stop : ℕ)
        → IsStrict cmp l
        → i ≤ rank f l
        → rank f l ≤ stop
        → (has cmp f l ≡ true → rank f l < stop)
        → stop ≤ length l
        → stop - i < fuel
        → find_loop cmp fuel f l i stop ≡ some (rank f l, has cmp f l)
    unfolding find_loop
    find_loop-rank zero f l i stop s p q r n h = absurd (omega arith)
    find_loop-rank (suc fuel) f l i stop s p q r n h = elim (Bool-cases (ltb i stop)) [
      | inr done ↦ rw done (ground arith)
      | inl more ↦
          let m = (i + (stop - 1)) / 2 in
          let (x, at) = get_elem?_of_lt l m (ground arith) in
          let c = cmp-side f l m x s at in
          rw more (
            ground (
              arith,
              side-lt_iff m (rank f l) (has cmp f l),
              side-eq_iff m (rank f l) (has cmp f l),
              side-gt_iff m (rank f l) (has cmp f l),
              find_loop-rank fuel f l (m + 1) stop s,
              find_loop-rank fuel f l i m s,
            ))
    ]

    -- On a strictly ordered set findFlowIndex never panics and its loop ends: the answer is the
    -- flow's rank, with whether the set has the flow.
    pub find_flow_index-rank :
        (f : A) (l : List A)
        → IsStrict cmp l
        → find_flow_index cmp l f ≡ some (rank f l, has cmp f l)
    unfolding find_flow_index
    find_flow_index-rank f l s =
        let (p, q) = rank-bounds f l s in
        find_loop-rank (length l + 1) f l 0 (length l) s (omega arith) p q (omega arith)
          (omega arith)
