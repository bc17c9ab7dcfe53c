-- ===== src/Base/Int.antt =====
-- Go's `int` where a value may be negative: native naturals with a sign.
use Prim.Native.Nat.{ℕ, compare, Ordering}
use Prim.Native.Nat.Ordering.{lt, eq, gt}
use native.Mathlib.Omega.{arith}
use mathlib.Core.Path.{◌≡◌}
use sdnagent.Base.Order.{IsLawful}

-- `negsuc n` is -(n + 1).
pub data ℤ : Type 0 where
  pos : ℕ → ℤ
  negsuc : ℕ → ℤ

abbrev pub compare_int : ℤ → ℤ → Ordering
compare_int (pos a) (pos b) = compare a b
compare_int (pos a) (negsuc b) = gt
compare_int (negsuc a) (pos b) = lt
compare_int (negsuc a) (negsuc b) = compare b a

pub compare_int-IsLawful : IsLawful compare_int
compare_int-IsLawful = record {
  flip = λ a b. ground arith;
  trans = λ a b c h k. ground arith;
  cong = λ a b c h. ground arith;
}

pub eq_of_compare_int : (a b : ℤ) → compare_int a b ≡ eq → a ≡ b
eq_of_compare_int a b h = ground arith
