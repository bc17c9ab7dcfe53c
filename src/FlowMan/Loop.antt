-- ===== src/FlowMan/Loop.antt =====
-- pkg/agent/server/flowman.go: the loop of Start neither panics nor blocks, whatever it meets.
use sdnagent.Base.{
  Bool, true, false, ◌||◌, none, some, List, [], ◌∷◌, Str, str_eq, str_eq_instance, lookup, insert,
  lookup-insert_ne, ◌∙◌, has, IsStrict, ◌≡◌, ◌≢◌, refl, inl, inr, arith, Bool-cases, Option-cases,
  ◌==◌, lookup-insert_self, beq_comm_false,
}
use sdnagent.Flow.{OvsText, compare_ovs_flow, compare_ovs_flow-IsLawful}
use sdnagent.FlowSet.{new_flow_set_from_list, diff, merge-has, add-has, remove-has}
use sdnagent.FlowMan.Defs.{
  Switch, theman, Cmd, add_flow, del_flow, sync_flows, update_flows, Timer, armed, fired, received,
  System, OvsFlow, merge_into, merge_flows, filter_tables, do_dump_flows, do_commit_change,
  do_check, check_and_schedule, schedule_idle_check, do_cmd, Event, expire, command, closed, idle,
  ctx_done, wait_add, wait_decr, round, start_loop, init,
}

module _ (t : OvsText) where
  -- Some set of the manager has the flow.
  unfoldable pub any_has : OvsFlow t → List (Str × List (OvsFlow t)) → Bool
  any_has x [] = false
  any_has x ((who, fs) ∷ rest) = has (compare_ovs_flow t) x fs || any_has x rest

  merge_into-has :
      (l : List (OvsFlow t)) (sets : List (Str × List (OvsFlow t)))
      → IsStrict (compare_ovs_flow t) l
      → (l' : List (OvsFlow t)) × (merge_into t l sets ≡ some l')
        × IsStrict (compare_ovs_flow t) l'
        × ((x : OvsFlow t)
            → has (compare_ovs_flow t) x l' ≡ (has (compare_ovs_flow t) x l || any_has x sets))
  unfolding merge_into any_has
  merge_into-has l [] s = (l, refl, s, λ x. ground arith)
  merge_into-has l ((who, fs) ∷ rest) s =
      let (m, e, sm, hm) = merge-has (compare_ovs_flow t) (compare_ovs_flow-IsLawful t) l fs s in
      let (l', e', s', h) = merge_into-has m rest sm in
      (l', rw (e, merge_into) e', s', λ x. ground (arith, h x, hm x))

  -- mergeFlows never panics; the merged set is strictly ordered and has exactly the flows that one
  -- of the sets has, in whatever order the sets are visited.
  pub merge_flows-has :
      (sets : List (Str × List (OvsFlow t)))
      → (merged : List (OvsFlow t)) × (merge_flows t sets ≡ some merged)
        × IsStrict (compare_ovs_flow t) merged
        × ((x : OvsFlow t) → has (compare_ovs_flow t) x merged ≡ any_has x sets)
  unfolding merge_flows has
  merge_flows-has sets = merge_into-has [] sets tt

  module _ (sw : Switch (OvsFlow t)) where
    open sw use {State}

    -- The manager's own set is there, strictly ordered, and the timer's value was not received.
    pub record IsValid (s : System (OvsFlow t) State) : Type 0 where
      pub own : List (OvsFlow t)
      pub own_at : lookup theman s.flow_sets ≡ some own
      pub strict : IsStrict (compare_ovs_flow t) own
      pub timed : s.timer ≢ received

    -- Other components do not send their flows under the manager's own name.
    abbrev pub IsForeign : Event t sw → Type 0
    IsForeign (command (update_flows who flows)) = str_eq theman who ≡ false
    IsForeign other = Unit {0}

    abbrev pub AllForeign : List (Event t sw) → Type 0
    AllForeign [] = Unit {0}
    AllForeign (e ∷ es) = IsForeign e × AllForeign es

    -- The database's socket is there, whatever the switch's state.
    abbrev pub Present : Type 0
    Present = (x : State) → sw.has_sock x ≡ true

    no_dump : (x : State) → Present → sw.dump x ≡ none → do_dump_flows t sw x ≡ some none
    unfolding do_dump_flows
    no_dump x sock failed = rw (sock x, failed) refl

    some_dump :
        (x : State) (l : List (OvsFlow t))
        → Present
        → sw.dump x ≡ some l
        → do_dump_flows t sw x
          ≡ some (some (new_flow_set_from_list (compare_ovs_flow t) (filter_tables t l)))
    unfolding do_dump_flows
    some_dump x l sock dumped = rw (sock x, dumped) refl

    -- doCheck changes nothing but the switch.
    pub do_check-switch :
        Present
        → (s : System (OvsFlow t) State)
        → (switch' : State) × (do_check t sw s ≡ some (record s { switch = switch' }))
    unfolding do_check
    do_check-switch sock s = elim (Bool-cases (s.wait_count == 0)) [
      | inr waits ↦ (s.switch, rw (waits, do_check))
      | inl idles ↦ elim (Option-cases (sw.dump s.switch)) [
        | inl failed ↦ (s.switch, rw (idles, do_check) (rw (no_dump s.switch sock failed)))
        | inr (l, listed) ↦
            let (merged, e, strict, h) = merge_flows-has s.flow_sets in
            let fs0 = new_flow_set_from_list (compare_ovs_flow t) (filter_tables t l) in
            let dumped = some_dump s.switch l sock listed in
            let d = diff (compare_ovs_flow t) fs0 merged in
            (do_commit_change t sw s.switch d.0 d.1, rw (idles, do_check) (rw dumped (rw e)))
      ]
    ]

    check_and_schedule-IsValid :
        Present
        → (drain : Bool) (s : System (OvsFlow t) State) (own : List (OvsFlow t))
        → lookup theman s.flow_sets ≡ some own
        → IsStrict (compare_ovs_flow t) own
        → schedule_idle_check drain s.timer ≡ some armed
        → (s' : System (OvsFlow t) State) × (check_and_schedule t sw drain s ≡ some s') × IsValid s'
    unfolding check_and_schedule
    check_and_schedule-IsValid sock drain s own at strict timed =
        let (switch', e) = do_check-switch sock s in
        (
          record s { switch = switch'; timer = armed },
          rw (e, check_and_schedule) (rw timed),
          record { own = own; own_at = at; strict = strict; timed = λ h. cc },
        )

    pub drained : (timer : Timer) → timer ≢ received → schedule_idle_check true timer ≡ some armed
    unfolding schedule_idle_check
    drained armed h = refl
    drained fired h = refl
    drained received h = absurd (h refl)

    do_cmd-IsValid :
        Present
        → (c : Cmd (OvsFlow t)) {s : System (OvsFlow t) State} → IsValid s
        → IsForeign (command c)
        → (s' : System (OvsFlow t) State) × (do_cmd t sw c s ≡ some s') × IsValid s'
    unfolding do_cmd
    do_cmd-IsValid sock (add_flow f) {s} v ok =
        let (own', e, strict', h) =
          add-has (compare_ovs_flow t) (compare_ovs_flow-IsLawful t) v.own f v.strict in
        (
          record s { flow_sets = insert theman own' s.flow_sets },
          rw (v.own_at, do_cmd) (rw e),
          record {
            own = own';
            own_at = lookup-insert_self theman own' s.flow_sets;
            strict = strict';
            timed = v.timed;
          },
        )
    do_cmd-IsValid sock (del_flow f) {s} v ok =
        let (own', e, strict', h) =
          remove-has (compare_ovs_flow t) (compare_ovs_flow-IsLawful t) v.own f v.strict in
        (
          record s { flow_sets = insert theman own' s.flow_sets },
          rw (v.own_at, do_cmd) (rw e),
          record {
            own = own';
            own_at = lookup-insert_self theman own' s.flow_sets;
            strict = strict';
            timed = v.timed;
          },
        )
    do_cmd-IsValid sock sync_flows {s} v ok =
        check_and_schedule-IsValid sock true s v.own v.own_at v.strict (drained s.timer v.timed)
    do_cmd-IsValid sock (update_flows who flows) {s} v ok =
        check_and_schedule-IsValid sock true _ v.own
          (lookup-insert_ne who theman _ s.flow_sets (beq_comm_false theman who ok) ∙ v.own_at)
          v.strict (drained s.timer v.timed)

    undrained : schedule_idle_check false received ≡ some armed
    unfolding schedule_idle_check
    undrained = refl

    idle-IsValid :
        Present
        → (s : System (OvsFlow t) State) (timer : Timer) → s.timer ≡ timer
        → IsValid s
        → (s' : System (OvsFlow t) State) × (round t sw idle s ≡ some s') × IsValid s'
    unfolding round
    idle-IsValid sock s armed e v = (s, ground (arith, e), v)
    idle-IsValid sock s fired e v =
        let (s', run, v') =
          check_and_schedule-IsValid sock false (record s { timer = received }) v.own v.own_at
            v.strict undrained in
        (s', ground (arith, e, run), v')
    idle-IsValid sock s received e v = absurd (v.timed e)

    round-IsValid :
        Present
        → (e : Event t sw) {s : System (OvsFlow t) State} → IsValid s
        → IsForeign e
        → (s' : System (OvsFlow t) State) × (round t sw e s ≡ some s') × IsValid s'
    unfolding round
    round-IsValid sock expire {s} v ok = (
      _,
      refl,
      record { own = v.own; own_at = v.own_at; strict = v.strict; timed = ground (arith, v.timed) },
    )
    round-IsValid sock (command c) v ok = do_cmd-IsValid sock c v ok
    round-IsValid sock closed {s} v ok =
        (_, refl, record { own = v.own; own_at = v.own_at; strict = v.strict; timed = v.timed })
    round-IsValid sock idle {s} v ok = idle-IsValid sock s s.timer refl v
    round-IsValid sock ctx_done {s} v ok =
        let (switch', e) = do_check-switch sock s in
        (
          record s { switch = switch'; running = false },
          rw (e, round),
          record { own = v.own; own_at = v.own_at; strict = v.strict; timed = v.timed },
        )
    round-IsValid sock wait_add {s} v ok =
        (_, refl, record { own = v.own; own_at = v.own_at; strict = v.strict; timed = v.timed })
    round-IsValid sock (wait_decr n) {s} v ok =
        (_, refl, record { own = v.own; own_at = v.own_at; strict = v.strict; timed = v.timed })

    -- From a valid state, whatever sequence of commands, expirations of the timer, changes of the
    -- wait counter and ends of the context it meets, the loop neither panics, nor ends the process,
    -- nor blocks for ever on the drained timer, if no command updates the manager's own set and the
    -- database's socket is always there; the state stays valid.
    pub start_loop-IsValid :
        Present
        → (es : List (Event t sw)) {s : System (OvsFlow t) State} → IsValid s
        → AllForeign es
        → (s' : System (OvsFlow t) State) × (start_loop t sw es s ≡ some s') × IsValid s'
    unfolding start_loop
    start_loop-IsValid sock [] {s} v ok = (s, refl, v)
    start_loop-IsValid sock (e ∷ es) {s} v ok = elim (Bool-cases s.running) [
      | inr stopped ↦ (s, ground (arith, stopped), v)
      | inl runs ↦
          let (s1, run, v1) = round-IsValid sock e v ok.0 in
          let (s', rest, v') = start_loop-IsValid sock es v1 ok.1 in
          (s', ground (arith, runs, run) ∙ rest, v')
    ]

    -- What NewFlowMan and the head of Start leave is valid.
    pub init-IsValid : (normal : OvsFlow t) (switch : State) → IsValid (init t sw normal switch)
    unfolding init lookup insert str_eq
    init-IsValid normal switch = record { own = []; own_at = refl; strict = tt; timed = λ h. cc }
