-- ===== src/Tc/Classes.antt =====
-- pkg/tc/class.go: the comparison of htb classes and the commands for them. Of a class's parent only
-- its identifier is used: no parent is nil.
use sdnagent.Base.{
  ℕ, Ordering, lt, eq, gt, Bool, true, false, not, Option, none, some, List, [], ◌∷◌, ◌++◌, Str,
  codes, str_eq, compare_str, compare, if◌then◌else◌, ◌then_by◌,
}
use sdnagent.Tc.Units.{print_rate}
use sdnagent.Tc.Objects.{compare_class_id}

-- SBaseTcClass
pub record BaseClass : Type 0 where
  pub class_kind : Str
  pub class_id : Str
  pub class_parent : Option Str

-- The parents: a nil one first, then by identifier.
unfoldable pub compare_parents : Option Str → Option Str → Ordering
compare_parents none none = eq
compare_parents none (some p2) = lt
compare_parents (some p) none = gt
compare_parents (some p) (some p2) = if str_eq p p2 then eq else compare_class_id p p2

-- Whether one parent is nil and the other is not, or their identifiers differ as texts.
unfoldable pub parents_differ : Option Str → Option Str → Bool
parents_differ none none = false
parents_differ none (some p2) = true
parents_differ (some p) none = true
parents_differ (some p) (some p2) = not (str_eq p p2)

unfoldable pub compare_base_class : BaseClass → BaseClass → Ordering
compare_base_class q q2 =
    if not (str_eq q.class_id q2.class_id)
    then compare_class_id q.class_id q2.class_id
    else if not (str_eq q.class_kind q2.class_kind)
    then compare_str q.class_kind q2.class_kind
    else compare_parents q.class_parent q2.class_parent

-- SHtbClass
pub record HtbClass : Type 0 where
  pub class_base : BaseClass
  pub class_rate : ℕ
  pub class_ceil : ℕ

unfoldable pub compare_class : HtbClass → HtbClass → Ordering
compare_class q q2 =
    compare_base_class q.class_base q2.class_base
    then_by compare q.class_rate q2.class_rate
    then_by compare q.class_ceil q2.class_ceil

unfoldable pub class_line_elements : BaseClass → Str → Str → List Str
class_line_elements f action ifname =
    codes "class"
    ∷ action
    ∷ codes "dev"
    ∷ ifname
    ∷ codes "parent"
    ∷ (elim f.class_parent [ none ↦ codes "1:" | some id ↦ id ])
    ∷ codes "classid"
    ∷ f.class_id
    ∷ f.class_kind
    ∷ []

-- The commands, whose actions are "add", "replace" and "delete".
unfoldable pub htb_line_elements : HtbClass → Str → Str → List Str
unfolding class_line_elements print_rate
htb_line_elements cls action ifname =
    class_line_elements cls.class_base action ifname
    ++ codes "rate" ∷ print_rate cls.class_rate ∷ codes "ceil" ∷ print_rate cls.class_ceil ∷ []
