-- ===== src/Tests/SwitchSample.antt =====
-- A switch that keeps what the daemon documents: its state is a strictly ordered set of flows.
use sdnagent.Base.{
  Ordering, Bool, true, not, ◌&&◌, ◌||◌, some, List, [], ◌∷◌, Str, has, IsStrict, NoDup, ◌≡◌, refl,
  is_eq, arith, not-has_of_Below, cmp_refl, eq,
}
use sdnagent.Flow.{Flow, compare_ovs_flow, compare_ovs_flow-IsLawful, compare_ovs_flow-table}
use sdnagent.FlowSet.{add-has, remove-has}
use sdnagent.FlowMan.{Switch, IsSwitch, overlaps}
use sdnagent.Tests.Sample.{text}

abbrev pub Cmp : Flow Str Str → Flow Str Str → Ordering
Cmp = compare_ovs_flow text

abbrev pub FlowTable : Type 0
FlowTable = (l : List (Flow Str Str)) × IsStrict Cmp l

put : FlowTable → Flow Str Str → FlowTable
put s f = let r = add-has Cmp (compare_ovs_flow-IsLawful text) s.0 f s.1 in (r.0, r.2)

drop_flow : FlowTable → Flow Str Str → FlowTable
drop_flow s f = let r = remove-has Cmp (compare_ovs_flow-IsLawful text) s.0 f s.1 in (r.0, r.2)

put_all : FlowTable → List (Flow Str Str) → FlowTable
put_all s [] = s
put_all s (f ∷ fs) = put_all (put s f) fs

drop_all_flows : FlowTable → List (Flow Str Str) → FlowTable
drop_all_flows s [] = s
drop_all_flows s (f ∷ fs) = drop_all_flows (drop_flow s f) fs

has-put_all :
    (x : Flow Str Str) (s : FlowTable) (fs : List (Flow Str Str))
    → has Cmp x (put_all s fs).0 ≡ (has Cmp x fs || has Cmp x s.0)
unfolding put_all put has
has-put_all x s [] = refl
has-put_all x s (f ∷ fs) = ground (
  arith,
  has-put_all x (put s f) fs,
  (add-has Cmp (compare_ovs_flow-IsLawful text) s.0 f s.1).3 x,
)

has-drop_all_flows :
    (x : Flow Str Str) (s : FlowTable) (fs : List (Flow Str Str))
    → has Cmp x (drop_all_flows s fs).0 ≡ (not (has Cmp x fs) && has Cmp x s.0)
unfolding drop_all_flows drop_flow has
has-drop_all_flows x s [] = refl
has-drop_all_flows x s (f ∷ fs) = ground (
  arith,
  has-drop_all_flows x (drop_flow s f) fs,
  (remove-has Cmp (compare_ovs_flow-IsLawful text) s.0 f s.1).3 x,
)

pub same : Flow Str Str → Flow Str Str → Bool
same x y = is_eq (Cmp x y)

overlaps-has : (x : Flow Str Str) (l : List (Flow Str Str)) → overlaps same x l ≡ has Cmp x l
unfolding overlaps has same
overlaps-has x [] = refl
overlaps-has x (y ∷ l) = ground (arith, overlaps-has x l)

pub NoDup-of_IsStrict : (l : List (Flow Str Str)) → IsStrict Cmp l → NoDup Cmp l
NoDup-of_IsStrict [] s = tt
NoDup-of_IsStrict (x ∷ l) s = (
  not-has_of_Below Cmp (compare_ovs_flow-IsLawful text) x x l
      (cmp_refl (compare_ovs_flow-IsLawful text) x) s.0,
  NoDup-of_IsStrict l s.1,
)

pub bundle : FlowTable → List (Flow Str Str) → List (Flow Str Str) → FlowTable
bundle s adds dels = put_all (drop_all_flows s dels) adds

pub has-bundle :
    (x : Flow Str Str) (s : FlowTable) (adds dels : List (Flow Str Str))
    → has Cmp x (bundle s adds dels).0 ≡ (
        has Cmp x adds
        || (has Cmp x s.0 && (not (overlaps same x dels) && not (overlaps same x adds))))
unfolding bundle
has-bundle x s adds dels = ground (
  arith,
  has-put_all x (drop_all_flows s dels) adds,
  has-drop_all_flows x s dels,
  overlaps-has x adds,
  overlaps-has x dels,
)

abbrev pub switch : Switch (Flow Str Str)
switch = record {
  State = FlowTable;
  has_sock = λ s. true;
  dump = λ s. some s.0;
  bundle = λ s adds dels. some (bundle s adds dels);
}

pub eq_of_same : (x y : Flow Str Str) → same x y ≡ true → Cmp x y ≡ eq
unfolding same
eq_of_same x y h = ground arith

pub same_of_eq : (x y : Flow Str Str) → Cmp x y ≡ eq → same x y ≡ true
unfolding same
same_of_eq x y h = ground arith

pub dumped : (s : FlowTable) (l : List (Flow Str Str)) → switch.dump s ≡ some l → l ≡ s.0
dumped s l e = ground arith

pub committed :
    (s s' : FlowTable) (adds dels : List (Flow Str Str))
    → switch.bundle s adds dels ≡ some s'
    → (x : Flow Str Str)
    → has Cmp x s'.0 ≡ (
        has Cmp x adds
        || (has Cmp x s.0 && (not (overlaps same x dels) && not (overlaps same x adds))))
committed s s' adds dels e x = ground (arith, e, has-bundle x s adds dels)

abbrev pub switch-IsSwitch : IsSwitch text switch
switch-IsSwitch = record {
  flows = λ s. s.0;
  same_entry = same;
  entry_table = λ x y h. compare_ovs_flow-table text x y (eq_of_same x y h);
  entry_eq = same_of_eq;
  distinct = λ s. NoDup-of_IsStrict s.0 s.1;
  keyed = λ s x y p q h. eq_of_same x y h;
  dump_lem = dumped;
  bundle_lem = λ s s' adds dels e agree x. committed s s' adds dels e x;
}
