-- ===== src/Tc/Total.antt =====
-- pkg/tc: the comparisons of objects whose kinds are those of their types do not panic.
use sdnagent.Base.{
  Ordering, lt, eq, gt, false, Option, some, Str, codes, compare_str, eq_of_compare_str, ◌≡◌, ◌≢◌,
  refl, ◌∙◌, sym, arith, Ordering-cases, inl, inr,
}
use sdnagent.Tc.Classes.{compare_parents, parents_differ}
use sdnagent.Tc.Filters.{
  BaseFilter, Filter, fw, u32, filter_base, compare_base_filter, compare_targets, compare_filter,
}

fw_u32 : codes "fw" ≢ codes "u32"
fw_u32 e = ground arith

-- The kind is that of the type.
unfoldable pub Parsed : Filter → Type 0
Parsed (fw base class_id handle) = base.filter_kind ≡ codes "fw"
Parsed (u32 base redirect_dev handle) = base.filter_kind ≡ codes "u32"

-- Identifiers that compare as equal are equal as texts, as "1:" and "01:" are not.
abbrev pub Canonical : Option Str → Option Str → Type 0
Canonical p p2 = compare_parents p p2 ≡ eq → parents_differ p p2 ≡ false

same_kind :
    (f f2 : BaseFilter)
    → Canonical f.filter_parent f2.filter_parent
    → compare_base_filter f f2 ≡ eq
    → compare_str f.filter_kind f2.filter_kind ≡ eq
unfolding compare_base_filter
same_kind f f2 c h = ground arith

kinds_lem :
    (f f2 : Filter)
    → Parsed f
    → Parsed f2
    → (filter_base f).filter_kind ≡ (filter_base f2).filter_kind
    → (o : Ordering) × (compare_targets f f2 ≡ some o)
unfolding Parsed filter_base compare_targets
kinds_lem (fw base class_id handle) (fw base2 class_id2 handle2) p q e = (_, refl)
kinds_lem (fw base class_id handle) (u32 base2 redirect_dev2 handle2) p q e =
    absurd (fw_u32 (sym p ∙ (e ∙ q)))
kinds_lem (u32 base redirect_dev handle) (fw base2 class_id2 handle2) p q e =
    absurd (fw_u32 (sym q ∙ (sym e ∙ p)))
kinds_lem (u32 base redirect_dev handle) (u32 base2 redirect_dev2 handle2) p q e = (_, refl)

-- Compare of two parsed filters whose parents' handles are canonical returns: its type assertion
-- does not panic.
pub compare_filter_total :
    (f f2 : Filter)
    → Parsed f
    → Parsed f2
    → Canonical (filter_base f).filter_parent (filter_base f2).filter_parent
    → (o : Ordering) × (compare_filter f f2 ≡ some o)
unfolding compare_filter
compare_filter_total f f2 p q c =
    elim (Ordering-cases (compare_base_filter (filter_base f) (filter_base f2))) [
      | inl e ↦ (lt, rw (compare_filter, e) refl)
      | inr (inl e) ↦
          let same = eq_of_compare_str _ _ (same_kind (filter_base f) (filter_base f2) c e) in
          let (o, runs) = kinds_lem f f2 p q same in (o, rw (compare_filter, e) runs)
      | inr (inr e) ↦ (gt, rw (compare_filter, e) refl)
    ]
