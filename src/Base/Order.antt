-- ===== src/Base/Order.antt =====
-- Three-way comparisons: a Go function that returns -1, 0 or 1 is modelled as one into `Ordering`.
use Prim.Native.Nat.{compare, Ordering}
use Prim.Native.Nat.Ordering.{lt, eq, gt}
use mathlib.Core.Path.{◌≡◌, refl}
use mathlib.Core.Logic.{◌⊎◌, inl, inr}
use mathlib.Core.Bool.{Bool, true, false}
use native.Mathlib.Omega.{arith}

abbrev pub reverse : Ordering → Ordering
reverse lt = gt
reverse eq = eq
reverse gt = lt

abbrev pub is_eq : Ordering → Bool
is_eq eq = true
is_eq _ = false

abbrev pub is_lt : Ordering → Bool
is_lt lt = true
is_lt _ = false

abbrev pub is_gt : Ordering → Bool
is_gt gt = true
is_gt _ = false

-- `if c != 0 { return c }; return rest`
infixr 20 ◌then_by◌
abbrev pub ◌then_by◌ : Ordering → Ordering → Ordering
lt then_by rest = lt
eq then_by rest = rest
gt then_by rest = gt

pub Ordering-cases : (o : Ordering) → (o ≡ lt) ⊎ ((o ≡ eq) ⊎ (o ≡ gt))
Ordering-cases lt = inl refl
Ordering-cases eq = inr (inl refl)
Ordering-cases gt = inr (inr refl)

-- What makes a three-way comparison a total preorder, with `eq` its equivalence.
pub record IsLawful {ℓ} {A : Type ℓ} (cmp : A → A → Ordering) : Type ℓ where
  pub flip : (a b : A) → cmp b a ≡ reverse (cmp a b)
  pub trans : (a b c : A) → cmp a b ≡ lt → cmp b c ≡ lt → cmp a c ≡ lt
  pub cong : (a b c : A) → cmp a b ≡ eq → cmp a c ≡ cmp b c

pub compare-IsLawful : IsLawful compare
compare-IsLawful = record {
  flip = λ a b. ground arith;
  trans = λ a b c h k. ground arith;
  cong = λ a b c h. ground arith;
}

module _ {ℓ} {A : Type ℓ} {cmp : A → A → Ordering} (law : IsLawful cmp) where
  pub cmp_refl : (a : A) → cmp a a ≡ eq
  cmp_refl a = ground (arith, law.flip a a)

  pub cong_right : (a b c : A) → cmp a b ≡ eq → cmp c a ≡ cmp c b
  cong_right a b c h = ground (arith, law.flip a c, law.flip b c, law.cong a b c h)

  -- The reversed comparison, "the higher, the less".
  pub reverse-IsLawful : IsLawful (λ a b. cmp b a)
  reverse-IsLawful = record {
    flip = λ a b. law.flip b a;
    trans = λ a b c h k. law.trans c b a k h;
    cong = λ a b c h. cong_right a b c (ground (arith, law.flip a b));
  }

  -- The comparison of a key.
  pub key-IsLawful {κ} : {B : Type κ} (f : B → A) → IsLawful (λ x y. cmp (f x) (f y))
  key-IsLawful f = record {
    flip = λ a b. law.flip (f a) (f b);
    trans = λ a b c. law.trans (f a) (f b) (f c);
    cong = λ a b c. law.cong (f a) (f b) (f c);
  }

module _ {ℓ} {A : Type ℓ} {cmp next : A → A → Ordering} (law : IsLawful cmp)
    (law' : IsLawful next) where
  -- A comparison with a tie-breaker.
  pub then_by-IsLawful : IsLawful (λ a b. cmp a b then_by next a b)
  then_by-IsLawful = record {
    flip = λ a b. ground (arith, law.flip a b, law'.flip a b);
    trans = λ a b c h k.
        ground (arith, law.trans a b c, law'.trans a b c, law.cong a b c, cong_right law b c a);
    cong = λ a b c h. ground (arith, law.cong a b c, law'.cong a b c);
  }
