-- ===== src/Tc/Filters.antt =====
-- pkg/tc/filter.go: the comparison of fw and u32 filters and the commands for them. Of a filter's
-- parent only its handle is used.
use sdnagent.Base.{
  ℕ, Ordering, eq, Bool, true, false, Option, none, some, List, [], ◌∷◌, ◌++◌, Str, codes, str_eq,
  compare_str, compare, if◌then◌else◌, ◌then_by◌, print_dec, print_hex,
}
use sdnagent.Tc.Classes.{compare_parents, parents_differ}

-- SBaseTcFilter
pub record BaseFilter : Type 0 where
  pub filter_parent : Option Str
  pub filter_kind : Str
  pub protocol : Str
  pub prio : ℕ

-- SFwFilter, with its class and handle, and SU32Filter, with its device and handle.
pub data Filter : Type 0 where
  fw : BaseFilter → Str → ℕ → Filter
  u32 : BaseFilter → Str → Str → Filter

unfoldable pub filter_base : Filter → BaseFilter
filter_base (fw base class_id handle) = base
filter_base (u32 base redirect_dev handle) = base

unfoldable pub compare_base_filter : BaseFilter → BaseFilter → Ordering
compare_base_filter f f2 =
    if parents_differ f.filter_parent f2.filter_parent
    then compare_parents f.filter_parent f2.filter_parent
    else compare f.prio f2.prio
      then_by compare_str f.protocol f2.protocol
      then_by compare_str f.filter_kind f2.filter_kind

-- What Compare does once the bases are equal: `none` is the panic of the type assertion.
unfoldable pub compare_targets : Filter → Filter → Option Ordering
compare_targets (fw base class_id handle) (fw base2 class_id2 handle2) =
    some (compare_str class_id class_id2 then_by compare handle handle2)
compare_targets (u32 base redirect_dev handle) (u32 base2 redirect_dev2 handle2) =
    some (compare_str redirect_dev redirect_dev2)
compare_targets (fw base class_id handle) (u32 base2 redirect_dev2 handle2) = none
compare_targets (u32 base redirect_dev handle) (fw base2 class_id2 handle2) = none

unfoldable pub compare_filter : Filter → Filter → Option Ordering
compare_filter f f2 = elim (compare_base_filter (filter_base f) (filter_base f2)) [
  | eq ↦ compare_targets f f2
  | other ↦ some other
]

unfoldable pub filter_line_elements : BaseFilter → Str → Str → Bool → List Str
filter_line_elements f action ifname is_root =
    codes "filter"
    ∷ action
    ∷ codes "dev"
    ∷ ifname
    ∷ ((if is_root then codes "root" ∷ [] else [])
        ++ (elim f.filter_parent [ none ↦ [] | some id ↦ codes "parent" ∷ id ∷ [] ])
        ++ (if str_eq f.protocol [] then [] else codes "protocol" ∷ f.protocol ∷ [])
        ++ codes "prio" ∷ print_dec f.prio ∷ [])

-- basicLineElements of the two kinds.
unfoldable pub filter_line : Filter → Str → Str → List Str
unfolding filter_line_elements
filter_line (fw base class_id handle) action ifname =
    filter_line_elements base action ifname false
    ++ codes "handle"
      ∷ (codes "0x" ++ print_hex handle)
      ∷ codes "fw"
      ∷ codes "classid"
      ∷ class_id
      ∷ []
filter_line (u32 base redirect_dev handle) action ifname =
    filter_line_elements base action ifname false
    ++ (if str_eq redirect_dev []
        then []
        else codes "u32"
          ∷ codes "match"
          ∷ codes "u32"
          ∷ codes "0"
          ∷ codes "0"
          ∷ codes "action"
          ∷ codes "mirred"
          ∷ codes "egress"
          ∷ codes "redirect"
          ∷ codes "dev"
          ∷ redirect_dev
          ∷ [])

unfoldable pub filter_delete_line : Filter → Str → List Str
unfolding filter_line filter_line_elements
filter_delete_line (fw base class_id handle) ifname =
    filter_line (fw base class_id handle) (codes "delete") ifname
filter_delete_line (u32 base redirect_dev handle) ifname =
    filter_line_elements base (codes "delete") ifname true
    ++ (if str_eq handle [] then [] else codes "handle" ∷ handle ∷ [])
    ++ codes "u32" ∷ []
