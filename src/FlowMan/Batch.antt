-- ===== src/FlowMan/Batch.antt =====
-- pkg/agent/server/flowman.go and watch.go: a manager's loop meets the updates made under withWait.
use sdnagent.Base.{
  ℕ, suc, ◌+◌, ◌%◌, ◌<◌, true, false, some, List, [], ◌∷◌, ◌++◌, Str, str_eq, str_eq_instance,
  lookup, insert, lookup-insert_ne, beq_comm_false, length, ◌≡◌, ◌≢◌, refl, sym, ap, ◌∙◌, arith,
  has, ◌==◌,
}
use sdnagent.Flow.{OvsText, compare_ovs_flow}
use sdnagent.FlowSet.{new_flow_set_from_list}
use sdnagent.FlowMan.Defs.{
  Switch, theman, sync_flows, update_flows, Timer, armed, received, System, OvsFlow, do_check,
  check_and_schedule, do_cmd, Event, command, wait_add, wait_decr, round, start_loop,
}
use sdnagent.FlowMan.Loop.{IsValid, Present, any_has, drained, do_check-switch}
use sdnagent.FlowMan.Check.{IsSwitch, excluded, do_check-has, Agree}
use sdnagent.FlowMan.Wait.{
  Update, updates_of, waited, batch, events_of, with_wait, events_of-with_wait,
}

module _ (t : OvsText) where
  abbrev Ups : Type 0
  Ups = List (Str × List (OvsFlow t))

  -- The sets after the updates.
  unfoldable pub put_sets : Ups → List (Str × List (OvsFlow t)) → List (Str × List (OvsFlow t))
  put_sets [] sets = sets
  put_sets ((who, flows) ∷ us) sets =
      put_sets us (insert who (new_flow_set_from_list (compare_ovs_flow t) flows) sets)

  -- No update is under the manager's own name.
  abbrev pub AllOthers : Ups → Type 0
  AllOthers [] = Unit {0}
  AllOthers ((who, flows) ∷ us) = (str_eq theman who ≡ false) × AllOthers us

  lookup-put_sets :
      (us : Ups) (sets : List (Str × List (OvsFlow t)))
      → AllOthers us
      → lookup theman (put_sets us sets) ≡ lookup theman sets
  unfolding put_sets
  lookup-put_sets [] sets o = refl
  lookup-put_sets ((who, flows) ∷ us) sets o =
      lookup-put_sets us _ o.1 ∙ lookup-insert_ne who theman _ sets (beq_comm_false theman who o.0)

  module _ (sw : Switch (OvsFlow t)) where
    open sw use {State}

    abbrev Sys : Type 0
    Sys = System (OvsFlow t) State

    waiting : (s : Sys) → (s.wait_count == 0) ≡ false → do_check t sw s ≡ some s
    unfolding do_check
    waiting s h = rw (h, do_check) refl

    step :
        (e : Event t sw) (es : List (Event t sw)) (s s' : Sys)
        → s.running ≡ true
        → round t sw e s ≡ some s'
        → start_loop t sw (e ∷ es) s ≡ start_loop t sw es s'
    unfolding start_loop
    step e es s s' runs h = ground (arith, runs, h)

    check_schedule :
        (s s' : Sys)
        → do_check t sw s ≡ some s'
        → s'.timer ≢ received
        → check_and_schedule t sw true s ≡ some (record s' { timer = armed })
    unfolding check_and_schedule
    check_schedule s s' h timed = rw (h, check_and_schedule) (rw (drained t sw s'.timer timed) refl)

    round-wait_add :
        (s : Sys)
        → s.wait_count + 1 < 0x1_0000_0000
        → round t sw wait_add s ≡ some (record s { wait_count = s.wait_count + 1 })
    unfolding round
    round-wait_add s bound = ap (λ n. some (record s { wait_count = n })) (omega arith)

    round-wait_decr :
        (s : Sys)
        → s.wait_count < 0x1_0000_0000
        → round t sw (wait_decr s.wait_count) s ≡ some (record s { wait_count = 0 })
    unfolding round
    round-wait_decr s bound = ap (λ n. some (record s { wait_count = n })) (omega arith)

    -- The state after an update that the manager waits with.
    updated : Str → List (OvsFlow t) → Sys → Sys
    updated who flows s = record s {
      flow_sets = insert who (new_flow_set_from_list (compare_ovs_flow t) flows) s.flow_sets;
      timer = armed;
    }

    round_update :
        (who : Str) (flows : List (OvsFlow t)) (s : Sys)
        → (s.wait_count == 0) ≡ false
        → s.timer ≢ received
        → round t sw (command (update_flows who flows)) s ≡ some (updated who flows s)
    unfolding round do_cmd updated
    round_update who flows s busy timed = check_schedule _ _ (waiting _ busy) timed

    -- An update while the manager waits.
    update_waiting :
        (who : Str) (flows : List (OvsFlow t)) (es : List (Event t sw)) (s : Sys)
        → s.timer ≢ received
        → s.wait_count + 1 < 0x1_0000_0000
        → s.running ≡ true
        → start_loop t sw (wait_add ∷ command (update_flows who flows) ∷ es) s
          ≡ start_loop t sw es (updated who flows (record s { wait_count = s.wait_count + 1 }))
    update_waiting who flows es s timed bound runs =
        step wait_add _ s _ runs (round-wait_add s bound)
        ∙ step _ es _ _ runs (round_update who flows _ (ground arith) timed)

    -- The state once the updates are in the sets.
    after : Ups → ℕ → Timer → Sys → Sys
    after us count timer s = record s {
      flow_sets = put_sets us s.flow_sets;
      wait_count = count;
      timer = timer;
    }

    waited_runs :
        (us : Ups) (es : List (Event t sw)) (s : Sys)
        → s.timer ≢ received
        → s.running ≡ true
        → s.wait_count + length us < 0x1_0000_0000
        → (timer : Timer) × (timer ≢ received)
          × (start_loop t sw (waited t sw us ++ es) s
              ≡ start_loop t sw es (after us (s.wait_count + length us) timer s))
    unfolding waited put_sets updated after
    waited_runs [] es s timed runs bound =
        (s.timer, timed, ap (λ n. start_loop t sw es (after [] n s.timer s)) (omega arith))
    waited_runs ((who, flows) ∷ us) es s timed runs bound =
        let next = updated who flows (record s { wait_count = s.wait_count + 1 }) in
        let (timer, timed', run) = waited_runs us es next (λ h. cc) runs (omega arith) in
        (
          timer,
          timed',
          update_waiting who flows (waited t sw us ++ es) s timed (omega arith) runs
              ∙ run
              ∙ ap (λ n. start_loop t sw es (after us n timer next)) (omega arith),
        )

    start_loop_nil : (s : Sys) → start_loop t sw [] s ≡ some s
    unfolding start_loop
    start_loop_nil s = refl

    round_sync :
        (s s' : Sys)
        → do_check t sw s ≡ some s'
        → s'.timer ≢ received
        → round t sw (command sync_flows) s ≡ some (record s' { timer = armed })
    unfolding round do_cmd
    round_sync s s' h timed = check_schedule s s' h timed

    round-release :
        (s : Sys) (n : ℕ)
        → s.wait_count ≡ n
        → n < 0x1_0000_0000
        → round t sw (wait_decr (n % 0x1_0000_0000)) s ≡ some (record s { wait_count = 0 })
    unfolding round
    round-release s n e bound = ap (λ k. some (record s { wait_count = k })) (omega (arith, e))

    release_runs :
        (s : Sys) (n : ℕ)
        → s.running ≡ true
        → s.wait_count ≡ n
        → n < 0x1_0000_0000
        → (s' : Sys) → do_check t sw (record s { wait_count = 0 }) ≡ some s'
        → s'.timer ≢ received
        → start_loop t sw (wait_decr (n % 0x1_0000_0000) ∷ command sync_flows ∷ []) s
          ≡ some (record s' { timer = armed })
    release_runs s n runs count bound s' checked timed =
        step _ _ s _ runs (round-release s n count bound)
        ∙ step _ [] _ _ runs (round_sync _ s' checked timed)
        ∙ start_loop_nil _

    -- What a manager's state has after the updates: no component is in the middle of its own, the
    -- state is valid, and the tables other than the dynamic ones have the flows of the sets.
    pub record Settled (doc : IsSwitch t sw) (sets : List (Str × List (OvsFlow t))) (s : Sys)
        : Type 0 where
      pub released : s.wait_count ≡ 0
      pub valid : IsValid t sw s
      pub held :
          (x : OvsFlow t)
          → excluded t x ≡ false
          → has (compare_ovs_flow t) x (doc.flows s.switch) ≡ any_has t x sets

    settle :
        Present t sw
        → (doc : IsSwitch t sw) (s s' : Sys) → IsValid t sw s
        → s.wait_count ≡ 0
        → do_check t sw s ≡ some s'
        → ((x : OvsFlow t)
            → excluded t x ≡ false
            → has (compare_ovs_flow t) x (doc.flows s'.switch) ≡ any_has t x s.flow_sets)
        → Settled doc s.flow_sets (record s' { timer = armed })
    settle sock doc s s' v zero_wait checked held =
        let (switch, same) = do_check-switch t sw sock s in
        let as_before : s' ≡ record s { switch = switch } = cc in
        record {
          released = ap (λ (z : Sys). z.wait_count) as_before ∙ zero_wait;
          valid = record {
            own = v.own;
            own_at = ap (λ (z : Sys). lookup theman z.flow_sets) as_before ∙ v.own_at;
            strict = v.strict;
            timed = λ h. cc;
          };
          held = held;
        }

    checked_timer :
        Present t sw
        → (s s' : Sys) → s.timer ≢ received
        → do_check t sw s ≡ some s'
        → s'.timer ≢ received
    checked_timer sock s s' timed checked h =
        let (switch, same) = do_check-switch t sw sock s in
        let as_before : s' ≡ record s { switch = switch } = cc in
        timed (sym (ap (λ (z : Sys). z.timer) as_before) ∙ h)

    start_loop-batch :
        (u : Str × List (OvsFlow t)) (rest : Ups) (s : Sys)
        → start_loop t sw (batch t sw (u ∷ rest)) s
          ≡ start_loop t sw
              (waited t sw (u ∷ rest)
                ++ (wait_decr (suc (length rest) % 0x1_0000_0000) ∷ command sync_flows ∷ []))
              s
    unfolding batch
    start_loop-batch u rest s = refl

    -- Under withWait, whatever other bridges the function updates in between: a manager whose loop runs,
    -- in a valid state with a wait counter of zero, with at least one update of its own and fewer than
    -- 2^32, none of them under the manager's own name, is never left waiting. If the database's
    -- socket is always there, the dump succeeds, bundles commit and the sets that result ask for no
    -- two different flows with one entry, then the loop, having met all that withWait sends it,
    -- has a wait counter of zero again, a valid state, and a bridge that has, in the tables other
    -- than the dynamic ones, exactly the flows of the sets that result from all the updates.
    pub start_loop-with_wait :
        (doc : IsSwitch t sw) (b : Str) (us : List (Update (OvsFlow t)))
        (u : Str × List (OvsFlow t)) (rest : Ups)
        → updates_of t sw b us ≡ u ∷ rest
        → (s : Sys) → IsValid t sw s
        → s.running ≡ true
        → s.wait_count ≡ 0
        → AllOthers (u ∷ rest)
        → length (u ∷ rest) < 0x1_0000_0000
        → Agree t doc (record s { flow_sets = put_sets (u ∷ rest) s.flow_sets })
        → Present t sw
        → (l : List (OvsFlow t)) → sw.dump s.switch ≡ some l
        → ((adds dels : List (OvsFlow t))
            → (switch' : State) × (sw.bundle s.switch adds dels ≡ some switch'))
        → (s' : Sys) × (start_loop t sw (events_of t sw b (with_wait t sw us)) s ≡ some s')
          × Settled doc (put_sets (u ∷ rest) s.flow_sets) s'
    unfolding after
    start_loop-with_wait doc b us u rest mine s v runs idle others bound agree sock l dumped
          commits =
        let ups = u ∷ rest in
        let n = suc (length rest) in
        let (timer, timed, run) =
          waited_runs ups (wait_decr (n % 0x1_0000_0000) ∷ command sync_flows ∷ []) s v.timed runs
            (omega (arith, idle)) in
        let last = after ups 0 timer s in
        let (s', checked, held) =
          do_check-has t doc last l agree refl (sock s.switch) dumped commits in
        (
          record s' { timer = armed },
          ap (λ es. start_loop t sw es s) (events_of-with_wait t sw b us ∙ ap (batch t sw) mine)
              ∙ start_loop-batch u rest s
              ∙ run
              ∙ release_runs (after ups (s.wait_count + n) timer s) n runs (omega (arith, idle))
                  (omega arith) s' checked (checked_timer sock last s' timed checked),
          settle sock doc last s'
              (record {
                own = v.own;
                own_at = lookup-put_sets ups s.flow_sets others ∙ v.own_at;
                strict = v.strict;
                timed = timed;
              })
              refl checked held,
        )
