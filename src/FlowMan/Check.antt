-- ===== src/FlowMan/Check.antt =====
-- pkg/agent/server/flowman.go: doCheck makes the bridge hold the flows that the agent wants.
use sdnagent.Base.{
  Bool, true, false, not, ◌||◌, ◌&&◌, some, List, [], ◌∷◌, Ordering, eq, has, NoDup, IsStrict,
  sort-IsStrict, ◌≡◌, refl, inl, inr, arith, Bool-cases, ◌==◌, is_eq, cmp_refl, has-cong, ◌∙◌, ap,
}
use sdnagent.Flow.{OvsText, compare_ovs_flow, compare_ovs_flow-IsLawful, compare_ovs_flow-table}
use sdnagent.FlowSet.{new_flow_set_from_list, new_flow_set_from_list-IsSorted, diff, has-diff}
use sdnagent.FlowMan.Defs.{
  Switch, System, OvsFlow, int_in_array, exclude_ovs_tables, filter_tables, merge_flows,
  do_dump_flows, do_commit_change, do_check,
}
use sdnagent.FlowMan.Loop.{any_has, merge_flows-has}

-- Some flow of the list has the entry of the flow.
unfoldable pub overlaps {ℓ} : {F : Type ℓ} → (F → F → Bool) → F → List F → Bool
overlaps same x [] = false
overlaps same x (y ∷ l) = same x y || overlaps same x l

module _ (t : OvsText) where
  abbrev Cmp : OvsFlow t → OvsFlow t → Ordering
  Cmp = compare_ovs_flow t

  -- What the daemon documents. A flow table has at most one flow for a table number, a priority
  -- and a match; dump-flows lists the flows; a bundle that commits has first removed the flows
  -- with the entries to delete, and then put in the flows to add, each in place of a flow with the
  -- same entry.
  pub record IsSwitch (sw : Switch (OvsFlow t)) : Type 0 where
    pub flows : sw.State → List (OvsFlow t)
    pub same_entry : OvsFlow t → OvsFlow t → Bool
    pub entry_table : (x y : OvsFlow t) → same_entry x y ≡ true → x.table ≡ y.table
    pub entry_eq : (x y : OvsFlow t) → Cmp x y ≡ eq → same_entry x y ≡ true
    pub distinct : (s : sw.State) → NoDup Cmp (flows s)
    pub keyed :
        (s : sw.State) (x y : OvsFlow t)
        → has Cmp x (flows s) ≡ true
        → has Cmp y (flows s) ≡ true
        → same_entry x y ≡ true
        → Cmp x y ≡ eq
    pub dump_lem : (s : sw.State) (l : List (OvsFlow t)) → sw.dump s ≡ some l → l ≡ flows s
    pub bundle_lem :
        (s s' : sw.State) (adds dels : List (OvsFlow t))
        → sw.bundle s adds dels ≡ some s'
        → ((x y : OvsFlow t)
            → has Cmp x adds ≡ true
            → has Cmp y adds ≡ true
            → same_entry x y ≡ true
            → Cmp x y ≡ eq)
        → (x : OvsFlow t)
        → has Cmp x (flows s') ≡ (
            has Cmp x adds
            || (has Cmp x (flows s)
                && (not (overlaps same_entry x dels) && not (overlaps same_entry x adds))))

  -- The table of the flow is one of the dynamic ones.
  abbrev pub excluded : OvsFlow t → Bool
  excluded x = int_in_array x.table exclude_ovs_tables

  has-filter_tables :
      (x : OvsFlow t) (l : List (OvsFlow t))
      → has Cmp x (filter_tables t l) ≡ (not (excluded x) && has Cmp x l)
  unfolding has filter_tables
  has-filter_tables x [] = ground arith
  has-filter_tables x (y ∷ l) = elim (Bool-cases (is_eq (Cmp x y))) [
    | inl same ↦
        let e : x.table ≡ y.table = compare_ovs_flow-table t x y (ground (arith, same)) in
        ground (arith, e, same, has-filter_tables x l)
    | inr other ↦ ground (arith, other, has-filter_tables x l)
  ]

  NoDup-filter_tables : (l : List (OvsFlow t)) → NoDup Cmp l → NoDup Cmp (filter_tables t l)
  unfolding filter_tables
  NoDup-filter_tables [] n = tt
  NoDup-filter_tables (x ∷ l) n = ground (arith, has-filter_tables x l, NoDup-filter_tables l n.1)

  has-of_overlaps :
      (same : OvsFlow t → OvsFlow t → Bool) (x : OvsFlow t) (l : List (OvsFlow t))
      → overlaps same x l ≡ true
      → (y : OvsFlow t) × (has Cmp y l ≡ true) × (same x y ≡ true)
  unfolding overlaps has
  has-of_overlaps same x [] h = ground arith
  has-of_overlaps same x (y ∷ l) h = elim (Bool-cases (same x y)) [
    | inl s ↦ (y, ground (arith, cmp_refl (compare_ovs_flow-IsLawful t) y), s)
    | inr n ↦
        let (z, p, q) = has-of_overlaps same x l (ground (arith, n)) in (z, ground (arith, p), q)
  ]

  overlaps_self :
      (same : OvsFlow t → OvsFlow t → Bool)
      → ((a b : OvsFlow t) → Cmp a b ≡ eq → same a b ≡ true)
      → (x : OvsFlow t) (l : List (OvsFlow t)) → has Cmp x l ≡ true
      → overlaps same x l ≡ true
  unfolding overlaps has
  overlaps_self same e x [] h = ground arith
  overlaps_self same e x (y ∷ l) h = ground (arith, e x y, overlaps_self same e x l)

  module _ {sw : Switch (OvsFlow t)} (doc : IsSwitch sw) (s : System (OvsFlow t) sw.State) where
    open doc use {flows, same_entry}

    -- Of the flows that the sets ask for, no two different ones have the same entry.
    abbrev pub Agree : Type 0
    Agree =
        (x y : OvsFlow t)
        → any_has t x s.flow_sets ≡ true
        → any_has t y s.flow_sets ≡ true
        → same_entry x y ≡ true
        → Cmp x y ≡ eq

    module _ (agree : Agree) (merged fs0 : List (OvsFlow t))
        (in_merged : (y : OvsFlow t) → has Cmp y merged ≡ any_has t y s.flow_sets)
        (in_fs0 : (y : OvsFlow t)
          → has Cmp y fs0 ≡ (not (excluded y) && has Cmp y (flows s.switch)))
        (adds dels : List (OvsFlow t))
        (in_adds : (y : OvsFlow t) → has Cmp y adds ≡ (has Cmp y merged && not (has Cmp y fs0)))
        (in_dels : (y : OvsFlow t)
          → has Cmp y dels ≡ (has Cmp y fs0 && not (has Cmp y merged))) where
      wanted : (y : OvsFlow t) → has Cmp y adds ≡ true → any_has t y s.flow_sets ≡ true
      wanted y a = ground (arith, in_adds y, in_merged y)

      no_add :
          (x : OvsFlow t)
          → has Cmp x merged ≡ true
          → has Cmp x fs0 ≡ true
          → overlaps same_entry x adds ≡ false
      no_add x p q = elim (Bool-cases (overlaps same_entry x adds)) [
        | inr n ↦ n
        | inl h ↦
            let (y, a, e) = has-of_overlaps same_entry x adds h in
            let c = agree x y (ground (arith, in_merged x)) (wanted y a) e in
            ground (arith, in_adds y, has-cong Cmp (compare_ovs_flow-IsLawful t) x y fs0 c)
      ]

      no_del :
          (x : OvsFlow t)
          → has Cmp x merged ≡ true
          → has Cmp x fs0 ≡ true
          → overlaps same_entry x dels ≡ false
      no_del x p q = elim (Bool-cases (overlaps same_entry x dels)) [
        | inr n ↦ n
        | inl h ↦
            let (y, a, e) = has-of_overlaps same_entry x dels h in
            let there : has Cmp y (flows s.switch) ≡ true = ground (arith, in_dels y, in_fs0 y) in
            let here : has Cmp x (flows s.switch) ≡ true = ground (arith, in_fs0 x) in
            let c = doc.keyed s.switch x y here there e in
            ground (arith, in_dels y, has-cong Cmp (compare_ovs_flow-IsLawful t) x y merged c)
      ]

      settled :
          (s' : sw.State)
          → sw.bundle s.switch adds dels ≡ some s'
          → (x : OvsFlow t) → excluded x ≡ false
          → has Cmp x (flows s') ≡ any_has t x s.flow_sets
      settled s' done x kept =
          let law =
            doc.bundle_lem s.switch s' adds dels done
              (λ a b p q. agree a b (wanted a p) (wanted b q)) x in
          ground (
            arith,
            law,
            in_merged x,
            in_fs0 x,
            in_adds x,
            no_add x,
            no_del x,
            in_dels x,
            overlaps_self same_entry doc.entry_eq x dels,
          )

    dumps :
        (l : List (OvsFlow t))
        → sw.has_sock s.switch ≡ true
        → sw.dump s.switch ≡ some l
        → do_dump_flows t sw s.switch ≡ some (some (new_flow_set_from_list Cmp (filter_tables t l)))
    unfolding do_dump_flows
    dumps l sock dumped = rw (sock, dumped) refl

    commits_to :
        (adds dels : List (OvsFlow t)) (s' : sw.State)
        → sw.bundle s.switch adds dels ≡ some s'
        → do_commit_change t sw s.switch adds dels ≡ s'
    unfolding do_commit_change
    commits_to adds dels s' done = rw (done, do_commit_change)

    runs :
        (l merged : List (OvsFlow t)) (s' : sw.State)
        → s.wait_count ≡ 0
        → sw.has_sock s.switch ≡ true
        → sw.dump s.switch ≡ some l
        → merge_flows t s.flow_sets ≡ some merged
        → sw.bundle s.switch
            (diff Cmp (new_flow_set_from_list Cmp (filter_tables t l)) merged).0
            (diff Cmp (new_flow_set_from_list Cmp (filter_tables t l)) merged).1
          ≡ some s'
        → do_check t sw s ≡ some (record s { switch = s' })
    unfolding do_check
    runs l merged s' quiet sock dumped e done =
        let zero_wait : (s.wait_count == 0) ≡ true = ground (arith, quiet) in
        rw (zero_wait, do_check)
          (rw (dumps l sock dumped) (rw e (rw (commits_to _ _ s' done) refl)))

    IsStrict-dump :
        (l : List (OvsFlow t))
        → sw.dump s.switch ≡ some l
        → IsStrict Cmp (new_flow_set_from_list Cmp (filter_tables t l))
    unfolding new_flow_set_from_list
    IsStrict-dump l dumped =
        sort-IsStrict Cmp (compare_ovs_flow-IsLawful t) (filter_tables t l)
          (NoDup-filter_tables l (rw (doc.dump_lem s.switch l dumped) (doc.distinct s.switch)))

    has_dump :
        (l : List (OvsFlow t)) (y : OvsFlow t)
        → sw.dump s.switch ≡ some l
        → has Cmp y (new_flow_set_from_list Cmp (filter_tables t l))
          ≡ (not (excluded y) && has Cmp y (flows s.switch))
    has_dump l y dumped =
        (new_flow_set_from_list-IsSorted Cmp (compare_ovs_flow-IsLawful t) (filter_tables t l)).1 y
        ∙ has-filter_tables y l
        ∙ ap (λ m. not (excluded y) && has Cmp y m) (doc.dump_lem s.switch l dumped)

    -- When no component is in the middle of its updates, the database's socket is there, the dump succeeds and the bundle commits,
    -- and the sets ask for no two different flows with one entry, doCheck leaves in the tables
    -- other than the dynamic ones exactly the flows that some set asks for.
    pub do_check-has :
        (l : List (OvsFlow t))
        → Agree
        → s.wait_count ≡ 0
        → sw.has_sock s.switch ≡ true
        → sw.dump s.switch ≡ some l
        → ((adds dels : List (OvsFlow t))
            → (s' : sw.State) × (sw.bundle s.switch adds dels ≡ some s'))
        → (s' : System (OvsFlow t) sw.State) × (do_check t sw s ≡ some s')
          × ((x : OvsFlow t)
              → excluded x ≡ false
              → has Cmp x (flows s'.switch) ≡ any_has t x s.flow_sets)
    do_check-has l agree quiet sock dumped commits =
        let (merged, e, strict, in_merged) = merge_flows-has t s.flow_sets in
        let fs0 = new_flow_set_from_list Cmp (filter_tables t l) in
        let d = diff Cmp fs0 merged in
        let (switch', done) = commits d.0 d.1 in
        let differ = λ (y : OvsFlow t).
          has-diff Cmp (compare_ovs_flow-IsLawful t) y fs0 merged (IsStrict-dump l dumped) strict in
        (
          record s { switch = switch' },
          runs l merged switch' quiet sock dumped e done,
          settled agree merged fs0 in_merged (λ y. has_dump l y dumped) d.0 d.1 (λ y. (differ y).0)
              (λ y. (differ y).1) switch' done,
        )
