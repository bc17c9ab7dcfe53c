-- ===== src/FlowMan/Defs.antt =====
-- pkg/agent/server/flowman.go: FlowMan, its commands and its loop. The Open vSwitch daemon that it
-- talks to through go-openvswitch is the parameter `Switch`.
use sdnagent.Base.{
  ℕ, ◌+◌, ◌-◌, ◌%◌, Bool, true, false, ◌||◌, Option, none, some, List, [], ◌∷◌, Str, codes, ℤ, pos,
  compare_int, is_eq, str_eq_instance, lookup, insert, if◌then◌else◌, ◌==◌,
}
use sdnagent.Flow.{OvsText, Flow, compare_ovs_flow}
use sdnagent.FlowSet.{new_flow_set_from_list, add, remove, merge, diff}

-- The daemon: its state, whether the socket /var/run/openvswitch/db.sock is there, and `DumpFlows` and
-- `AddFlowBundle` for the manager's bridge. The bundle is given the flows to add and those to delete
-- strictly; `none` is an error, and then nothing is changed.
pub record Switch (F : Type 0) : Type 1 where
  pub State : Type 0
  pub has_sock : State → Bool
  pub dump : State → Option (List F)
  pub bundle : State → List F → List F → Option State

abbrev pub theman : Str
theman = codes "THEman"

abbrev pub failsafe : Str
failsafe = codes "failSAFE"

-- flowManCmd, with the argument that its type calls for.
pub data Cmd (F : Type 0) : Type 0 where
  add_flow : F → Cmd F
  del_flow : F → Cmd F
  sync_flows : Cmd F
  update_flows : Str → List F → Cmd F

-- idleTimer: running, expired with its value still in the channel, or expired and received.
pub data Timer : Type 0 where
  armed : Timer
  fired : Timer
  received : Timer

-- FlowMan beside the switch. `wait_count` is the bit pattern of an int32. `running` is false once
-- the loop of Start has been left.
pub record System (F S : Type 0) : Type 0 where
  pub flow_sets : List (Str × List F)
  pub wait_count : ℕ
  pub timer : Timer
  pub running : Bool
  pub switch : S

-- Timer.Stop as of Go 1.23: it drops a value that was not received, and answers true.
unfoldable pub stop_timer : Timer → Bool
stop_timer armed = true
stop_timer fired = true
stop_timer received = false

-- scheduleIdleCheck: `none` is a receive from the channel that blocks for ever.
unfoldable pub schedule_idle_check : Bool → Timer → Option Timer
unfolding stop_timer
schedule_idle_check drain timer =
    if stop_timer timer then some armed else if drain then none else some armed

-- excludeOvsTables
abbrev pub exclude_ovs_tables : List ℤ
exclude_ovs_tables = pos 10 ∷ pos 12 ∷ []

unfoldable pub int_in_array : ℤ → List ℤ → Bool
int_in_array n [] = false
int_in_array n (m ∷ ms) = is_eq (compare_int n m) || int_in_array n ms

module _ (t : OvsText) where
  open t use {Match, Action}

  abbrev pub OvsFlow : Type 0
  OvsFlow = Flow Match Action

  -- The loop that filters out the dynamic flow tables.
  unfoldable pub filter_tables : List OvsFlow → List OvsFlow
  unfolding int_in_array
  filter_tables [] = []
  filter_tables (f ∷ fs) =
      let rest = filter_tables fs in
      if int_in_array f.table exclude_ovs_tables then rest else f ∷ rest

  -- mergeFlows: every set in turn is merged into one that begins empty.
  unfoldable pub merge_into : List OvsFlow → List (Str × List OvsFlow) → Option (List OvsFlow)
  unfolding merge
  merge_into merged [] = some merged
  merge_into merged ((who, fs) ∷ rest) = elim (merge (compare_ovs_flow t) merged fs) [
    | none ↦ none
    | some merged' ↦ merge_into merged' rest
  ]

  unfoldable pub merge_flows : List (Str × List OvsFlow) → Option (List OvsFlow)
  unfolding merge_into
  merge_flows sets = merge_into [] sets

  module _ (sw : Switch OvsFlow) where
    open sw use {State, has_sock, dump, bundle}

    -- doDumpFlows: `none` is the end of the process, by log.Fatalf, where there is no socket, and
    -- `some none` the error.
    unfoldable pub do_dump_flows : State → Option (Option (List OvsFlow))
    unfolding filter_tables new_flow_set_from_list
    do_dump_flows s =
        if has_sock s
        then elim (dump s) [
          | none ↦ some none
          | some flows ↦
              some (some (new_flow_set_from_list (compare_ovs_flow t) (filter_tables flows)))
        ]
        else none

    -- doCommitChange, whose error doCheck ignores.
    unfoldable pub do_commit_change : State → List OvsFlow → List OvsFlow → State
    do_commit_change s flows_add flows_del = elim (bundle s flows_add flows_del) [
      | none ↦ s
      | some s' ↦ s'
    ]

    -- doCheck: `none` is a panic, or the end of the process.
    unfoldable pub do_check : System OvsFlow State → Option (System OvsFlow State)
    unfolding do_dump_flows merge_flows diff do_commit_change
    do_check s =
        if s.wait_count == 0
        then (elim (do_dump_flows s.switch) [
          | none ↦ none
          | some result ↦ elim result [
            | none ↦ some s
            | some fs0 ↦ elim (merge_flows s.flow_sets) [
              | none ↦ none
              | some merged ↦
                  let (flows_add, flows_del) = diff (compare_ovs_flow t) fs0 merged in
                  some (record s { switch = do_commit_change s.switch flows_add flows_del })
            ]
          ]
        ])
        else some s

    -- `fm.doCheck(); fm.scheduleIdleCheck(drain)`
    unfoldable pub check_and_schedule : Bool → System OvsFlow State → Option (System OvsFlow State)
    unfolding do_check schedule_idle_check
    check_and_schedule drain s = elim (do_check s) [
      | none ↦ none
      | some s' ↦ elim (schedule_idle_check drain s'.timer) [
        | none ↦ none
        | some timer' ↦ some (record s' { timer = timer' })
      ]
    ]

    -- doCmd: a set that is not there is a nil pointer, and its use a panic.
    unfoldable pub do_cmd : Cmd OvsFlow → System OvsFlow State → Option (System OvsFlow State)
    unfolding lookup insert add remove check_and_schedule new_flow_set_from_list
    do_cmd (add_flow f) s = elim (lookup theman s.flow_sets) [
      | none ↦ none
      | some flows ↦ elim (add (compare_ovs_flow t) flows f) [
        | none ↦ none
        | some (flows', new_add) ↦ some (record s { flow_sets = insert theman flows' s.flow_sets })
      ]
    ]
    do_cmd (del_flow f) s = elim (lookup theman s.flow_sets) [
      | none ↦ none
      | some flows ↦ elim (remove (compare_ovs_flow t) flows f) [
        | none ↦ none
        | some (flows', new_del) ↦ some (record s { flow_sets = insert theman flows' s.flow_sets })
      ]
    ]
    do_cmd sync_flows s = check_and_schedule true s
    do_cmd (update_flows who flows) s = check_and_schedule true (record s {
      flow_sets = insert who (new_flow_set_from_list (compare_ovs_flow t) flows) s.flow_sets;
    })

    -- What the loop of Start meets: the timer expires; a command, the closing of the channel, the
    -- expired timer or the end of the context is selected; and other goroutines add to `waitCount`
    -- (updateFlows) or subtract from it (waitDecr).
    pub data Event : Type 0 where
      expire : Event
      command : Cmd OvsFlow → Event
      closed : Event
      idle : Event
      ctx_done : Event
      wait_add : Event
      wait_decr : ℕ → Event

    -- One round of Start, while it runs. The idle case is selected only if the timer has expired.
    unfoldable pub round : Event → System OvsFlow State → Option (System OvsFlow State)
    unfolding do_cmd check_and_schedule do_check
    round expire s = some (record s { timer = elim s.timer [ armed ↦ fired | other ↦ other ] })
    round (command c) s = do_cmd c s
    round closed s = some (record s { running = false })
    round idle s = elim s.timer [
      | fired ↦ check_and_schedule false (record s { timer = received })
      | _ ↦ some s
    ]
    round ctx_done s = elim (do_check s) [
      | none ↦ none
      | some s' ↦ some (record s' { running = false })
    ]
    round wait_add s = some (record s { wait_count = (s.wait_count + 1) % 0x1_0000_0000 })
    round (wait_decr n) s = some (record s {
      wait_count = (s.wait_count + 0x1_0000_0000 - n % 0x1_0000_0000) % 0x1_0000_0000;
    })

    unfoldable pub start_loop : List Event → System OvsFlow State → Option (System OvsFlow State)
    unfolding round
    start_loop [] s = some s
    start_loop (e ∷ es) s =
        if s.running
        then (elim (round e s) [ none ↦ none | some s' ↦ start_loop es s' ])
        else some s

    -- The state that NewFlowMan and the head of Start leave: the timer runs, and failsafeInit has
    -- put the one flow `normal` into the failsafe set.
    unfoldable pub init : OvsFlow → State → System OvsFlow State
    unfolding insert new_flow_set_from_list
    init normal switch = record {
      flow_sets =
          insert failsafe (new_flow_set_from_list (compare_ovs_flow t) (normal ∷ []))
            ((theman, []) ∷ (failsafe, []) ∷ []);
      wait_count = 0;
      timer = armed;
      running = true;
      switch = switch;
    }
