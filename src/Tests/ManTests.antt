-- ===== src/Tests/ManTests.antt =====
-- The flow manager of a bridge at concrete flows.
use sdnagent.Base.{
  true, false, some, List, [], ◌∷◌, Str, codes, has, IsStrict, eq, ◌≡◌, refl, str_eq,
}
use sdnagent.Flow.{Flow, compare_ovs_flow}
use sdnagent.FlowMan.{
  System, add_flow, update_flows, sync_flows, Event, command, expire, idle, ctx_done, wait_add,
  wait_decr, do_check, start_loop, start_loop-IsValid, init, init-IsValid, IsValid, any_has,
  excluded, do_check-has, AllForeign,
}
use sdnagent.Tests.Sample.{text, drop_all, to_local, learned}
use sdnagent.Tests.SwitchSample.{FlowTable, switch, switch-IsSwitch, Cmp, same, eq_of_same}

pub old-IsStrict : IsStrict Cmp (drop_all ∷ learned ∷ [])
unfolding compare_ovs_flow
old-IsStrict = ((refl, tt), (tt, tt))

-- A bridge that holds a flow of the agent's that no set asks for any more, and a learned one.
abbrev pub old_flows : FlowTable
old_flows = (drop_all ∷ learned ∷ [], old-IsStrict)

abbrev quiet : System (Flow Str Str) FlowTable
quiet = init text switch to_local old_flows

abbrev events : List (Event text switch)
events =
    wait_add
    ∷ command (update_flows (codes "guest") (drop_all ∷ []))
    ∷ wait_decr 1
    ∷ command sync_flows
    ∷ expire
    ∷ command (add_flow drop_all)
    ∷ idle
    ∷ ctx_done
    ∷ []

foreign : AllForeign text switch events
unfolding str_eq
foreign = (tt, (refl, (tt, (tt, (tt, (tt, (tt, (tt, tt))))))))

start_loop-IsValid_example :
    (s' : System (Flow Str Str) FlowTable) × (start_loop text switch events quiet ≡ some s')
    × IsValid text switch s'
start_loop-IsValid_example =
    start_loop-IsValid text switch (λ x. refl) events (init-IsValid text switch to_local old_flows)
      foreign

-- The sets ask for one flow alone.
agree :
    (x y : Flow Str Str)
    → any_has text x quiet.flow_sets ≡ true
    → any_has text y quiet.flow_sets ≡ true
    → same x y ≡ true
    → Cmp x y ≡ eq
agree x y p q h = eq_of_same x y h

do_check-has_example :
    (s' : System (Flow Str Str) FlowTable) × (do_check text switch quiet ≡ some s')
    × ((x : Flow Str Str)
        → excluded text x ≡ false
        → has Cmp x s'.switch.0 ≡ any_has text x quiet.flow_sets)
unfolding init
do_check-has_example =
    do_check-has text switch-IsSwitch quiet (drop_all ∷ learned ∷ []) agree refl refl refl
      (λ adds dels. (_, refl))
