-- ===== src/Tests/WaitTests.antt =====
-- The updates of two bridges under withWait at concrete flows.
use sdnagent.Base.{arith, some, List, [], ◌∷◌, Str, codes, ◌≡◌, refl, str_eq}
use sdnagent.Flow.{Flow}
use sdnagent.FlowMan.{
  System, init, init-IsValid, Update, with_wait, updates_of, events_of, start_loop, put_sets,
  Settled, start_loop-with_wait, AllOthers,
}
use sdnagent.Tests.Sample.{text, drop_all, to_local, learned}
use sdnagent.Tests.SwitchSample.{switch, switch-IsSwitch, FlowTable, eq_of_same}
use sdnagent.Tests.ManTests.{old_flows}

abbrev calls : List (Update (Flow Str Str))
calls =
    record { bridge = codes "br0"; who = codes "guest"; flows = drop_all ∷ [] }
    ∷ record { bridge = codes "br1"; who = codes "guest"; flows = to_local ∷ [] }
    ∷ record { bridge = codes "br0"; who = codes "vpc"; flows = [] }
    ∷ []

abbrev own : List (Str × List (Flow Str Str))
own = (codes "guest", drop_all ∷ []) ∷ (codes "vpc", []) ∷ []

own_of : updates_of text switch (codes "br0") calls ≡ own
unfolding updates_of str_eq
own_of = refl

others : AllOthers text own
unfolding str_eq
others = (refl, (refl, tt))

abbrev idle_man : System (Flow Str Str) FlowTable
idle_man = init text switch to_local old_flows

start_loop-with_wait_example :
    (s' : System (Flow Str Str) FlowTable) × (start_loop text switch
        (events_of text switch (codes "br0") (with_wait text switch calls))
        idle_man
      ≡ some s')
    × Settled text switch switch-IsSwitch (put_sets text own idle_man.flow_sets) s'
unfolding init
start_loop-with_wait_example =
    start_loop-with_wait text switch switch-IsSwitch (codes "br0") calls
      (codes "guest", drop_all ∷ []) ((codes "vpc", []) ∷ []) own_of idle_man
      (init-IsValid text switch to_local old_flows) refl refl others (ground arith)
      (λ x y p q h. eq_of_same x y h) (λ x. refl) (drop_all ∷ learned ∷ []) refl
      (λ adds dels. (_, refl))
