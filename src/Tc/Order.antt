-- ===== src/Tc/Order.antt =====
-- pkg/tc/class.go: the comparison of classes is the same both ways round.
use sdnagent.Base.{
  Ordering, Option, none, some, Str, str_eq, ◌then_by◌, ◌≡◌, refl, arith, reverse, compare-IsLawful,
  compare_str-IsLawful,
}
use sdnagent.Tc.Objects.{compare_class_id}
use sdnagent.Tc.Classes.{BaseClass, HtbClass, compare_parents, compare_base_class, compare_class}

reverse-then_by : (a b : Ordering) → reverse (a then_by b) ≡ (reverse a then_by reverse b)
reverse-then_by a b = ground arith

compare_class_id-flip : (a b : Str) → compare_class_id b a ≡ reverse (compare_class_id a b)
unfolding compare_class_id
compare_class_id-flip a b = ground arith

str_eq-sym : (a b : Str) → str_eq b a ≡ str_eq a b
unfolding str_eq
str_eq-sym a b = ground (arith, compare_str-IsLawful.flip a b)

compare_parents-flip : (p q : Option Str) → compare_parents q p ≡ reverse (compare_parents p q)
unfolding compare_parents
compare_parents-flip none none = refl
compare_parents-flip none (some y) = refl
compare_parents-flip (some x) none = refl
compare_parents-flip (some x) (some y) = ground (arith, str_eq-sym x y, compare_class_id-flip x y)

compare_base_class-flip :
    (a b : BaseClass) → compare_base_class b a ≡ reverse (compare_base_class a b)
unfolding compare_base_class
compare_base_class-flip a b = ground (
  arith,
  str_eq-sym a.class_id b.class_id,
  compare_class_id-flip a.class_id b.class_id,
  str_eq-sym a.class_kind b.class_kind,
  compare_str-IsLawful.flip a.class_kind b.class_kind,
  compare_parents-flip a.class_parent b.class_parent,
)

-- Compare of two htb classes, taken the other way round, is the opposite.
compare_class-flip : (a b : HtbClass) → compare_class b a ≡ reverse (compare_class a b)
unfolding compare_class
compare_class-flip a b = ground (
  arith,
  compare_base_class-flip a.class_base b.class_base,
  compare-IsLawful.flip a.class_rate b.class_rate,
  compare-IsLawful.flip a.class_ceil b.class_ceil,
)
