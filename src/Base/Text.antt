-- ===== src/Base/Text.antt =====
-- Go strings: a string is the list of its bytes. Comparison, equality and the small part of the
-- package strings that the program uses.
use Prim.Native.Nat.{ℕ, compare, Ordering}
use Prim.Native.Nat.Ordering.{lt, eq, gt}
use Prim.Native.Char.{code}
use Prim.Native.String.{String}
use mathlib.Core.Path.{◌≡◌, refl, ap}
use mathlib.Core.Bool.{Bool, true}
use mathlib.Core.List.{List, [], ◌∷◌}
use native.Mathlib.Omega.{arith}
use sdnagent.Base.Order.{reverse, ◌then_by◌, is_eq, IsLawful, compare-IsLawful, cmp_refl}

abbrev pub Str : Type 0
Str = List ℕ

-- The bytes of a literal, which is ASCII throughout the program.
abbrev pub codes : String → Str
codes String.[] = []
codes (String.◌∷◌ c s) = code c ∷ codes s

-- Lexicographic comparison by an element's comparison; a proper prefix is less.
module _ {ℓ} {A : Type ℓ} (cmp : A → A → Ordering) where
  unfoldable pub compare_list : List A → List A → Ordering
  compare_list [] [] = eq
  compare_list [] (y ∷ ys) = lt
  compare_list (x ∷ xs) [] = gt
  compare_list (x ∷ xs) (y ∷ ys) = let rest = compare_list xs ys in cmp x y then_by rest

  module _ (law : IsLawful cmp) where
    compare_list-flip : (a b : List A) → compare_list b a ≡ reverse (compare_list a b)
    unfolding compare_list
    compare_list-flip [] [] = refl
    compare_list-flip [] (y ∷ ys) = refl
    compare_list-flip (x ∷ xs) [] = refl
    compare_list-flip (x ∷ xs) (y ∷ ys) = ground (arith, law.flip x y, compare_list-flip xs ys)

    compare_list-cong :
        (a b c : List A) → compare_list a b ≡ eq → compare_list a c ≡ compare_list b c
    unfolding compare_list
    compare_list-cong [] [] c h = refl
    compare_list-cong [] (y ∷ ys) c h = ground arith
    compare_list-cong (x ∷ xs) [] c h = ground arith
    compare_list-cong (x ∷ xs) (y ∷ ys) [] h = refl
    compare_list-cong (x ∷ xs) (y ∷ ys) (z ∷ zs) h =
        ground (arith, law.cong x y z, compare_list-cong xs ys zs)

    compare_list_trans :
        (a b c : List A) → compare_list a b ≡ lt → compare_list b c ≡ lt → compare_list a c ≡ lt
    unfolding compare_list
    compare_list_trans [] [] c h k = ground arith
    compare_list_trans [] (y ∷ ys) [] h k = ground arith
    compare_list_trans [] (y ∷ ys) (z ∷ zs) h k = refl
    compare_list_trans (x ∷ xs) [] c h k = ground arith
    compare_list_trans (x ∷ xs) (y ∷ ys) [] h k = ground arith
    compare_list_trans (x ∷ xs) (y ∷ ys) (z ∷ zs) h k = ground (
      arith,
      law.trans x y z,
      law.cong x y z,
      law.cong z y x,
      law.flip x y,
      law.flip x z,
      law.flip y z,
      compare_list_trans xs ys zs,
    )

    pub compare_list-IsLawful : IsLawful compare_list
    compare_list-IsLawful = record {
      flip = compare_list-flip;
      trans = compare_list_trans;
      cong = compare_list-cong;
    }

-- `strings.Compare`
unfoldable pub compare_str : Str → Str → Ordering
unfolding compare_list
compare_str a b = compare_list compare a b

pub compare_str-IsLawful : IsLawful compare_str
unfolding compare_str
compare_str-IsLawful = compare_list-IsLawful compare compare-IsLawful

-- `==` on strings
unfoldable pub str_eq : Str → Str → Bool
unfolding compare_str
str_eq a b = is_eq (compare_str a b)

pub eq_of_compare_str : (a b : Str) → compare_str a b ≡ eq → a ≡ b
unfolding compare_str
eq_of_compare_str [] [] h = refl
eq_of_compare_str [] (y ∷ ys) h = ground arith
eq_of_compare_str (x ∷ xs) [] h = ground arith
eq_of_compare_str (x ∷ xs) (y ∷ ys) h = ground (arith, eq_of_compare_str xs ys)

pub eq_of_str_eq : (a b : Str) → str_eq a b ≡ true → a ≡ b
unfolding str_eq
eq_of_str_eq a b h = eq_of_compare_str a b (ground arith)

pub str_eq_refl : (a : Str) → str_eq a a ≡ true
unfolding str_eq
str_eq_refl a = ap is_eq (cmp_refl compare_str-IsLawful a)
