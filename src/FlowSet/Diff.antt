-- ===== src/FlowSet/Diff.antt =====
-- pkg/agent/utils/flowset.go: Diff of two strictly ordered sets.
use sdnagent.Base.{
  Ordering, not, ◌&&◌, List, [], ◌∷◌, has, IsStrict, IsLawful, not-has_of_Below, not-has_of_lt, ◌≡◌,
  refl, arith,
}
use sdnagent.FlowSet.Defs.{diff}

module _ {ℓ} {A : Type ℓ} (cmp : A → A → Ordering) (law : IsLawful cmp) where
  module _ (z : A) where
    has-diff_del :
        (fs0 fs1 : List A)
        → IsStrict cmp fs0
        → IsStrict cmp fs1
        → has cmp z (diff cmp fs0 fs1).1 ≡ (has cmp z fs0 && not (has cmp z fs1))
    unfolding diff has
    has-diff_del [] fs1 s t = refl
    has-diff_del (x ∷ fs0) [] s t = ground arith
    has-diff_del (x ∷ fs0) (y ∷ fs1) s t = ground (
      arith,
      has-diff_del fs0 (y ∷ fs1) s.1 t,
      has-diff_del (x ∷ fs0) fs1 s t.1,
      has-diff_del fs0 fs1 s.1 t.1,
      law.cong z x y,
      law.cong z y x,
      law.cong y z x,
      law.flip x y,
      law.flip z y,
      law.cong y x z,
      law.flip z x,
      not-has_of_Below cmp law z x fs0,
      not-has_of_lt cmp law z x fs0,
      not-has_of_Below cmp law z y fs1,
      not-has_of_lt cmp law z y fs1,
    )

    has-diff_add :
        (fs0 fs1 : List A)
        → IsStrict cmp fs0
        → IsStrict cmp fs1
        → has cmp z (diff cmp fs0 fs1).0 ≡ (has cmp z fs1 && not (has cmp z fs0))
    unfolding diff has
    has-diff_add [] fs1 s t = ground arith
    has-diff_add (x ∷ fs0) [] s t = refl
    has-diff_add (x ∷ fs0) (y ∷ fs1) s t = ground (
      arith,
      has-diff_add fs0 (y ∷ fs1) s.1 t,
      has-diff_add (x ∷ fs0) fs1 s t.1,
      has-diff_add fs0 fs1 s.1 t.1,
      law.cong z x y,
      law.cong z y x,
      law.cong y z x,
      law.flip x y,
      law.flip z y,
      law.cong y x z,
      law.flip z x,
      not-has_of_Below cmp law z x fs0,
      not-has_of_lt cmp law z x fs0,
      not-has_of_Below cmp law z y fs1,
      not-has_of_lt cmp law z y fs1,
    )

  -- Of two strictly ordered sets Diff returns, as flowsAdd, what the second has and the first has
  -- not, and as flowsDel what the first has and the second has not.
  pub has-diff :
      (z : A) (fs0 fs1 : List A)
      → IsStrict cmp fs0
      → IsStrict cmp fs1
      → (has cmp z (diff cmp fs0 fs1).0 ≡ (has cmp z fs1 && not (has cmp z fs0)))
        × (has cmp z (diff cmp fs0 fs1).1 ≡ (has cmp z fs0 && not (has cmp z fs1)))
  has-diff z fs0 fs1 s t = (has-diff_add z fs0 fs1 s t, has-diff_del z fs0 fs1 s t)
