-- ===== src/FlowMan/Wait.antt =====
-- pkg/agent/server/flowman.go and watch.go: the updates of many managers under withWait, and what
-- the manager of each bridge meets of them.
use sdnagent.Base.{
  ℕ, suc, ◌+◌, ◌%◌, false, Option, none, some, List, [], ◌∷◌, ◌++◌, Str, str_eq, str_eq_instance,
  eq_of_str_eq, str_eq_refl, lookup, insert, lookup-insert, IsMap, insert-IsMap, length, ◌≡◌, refl,
  ap, ◌∙◌, arith, Bool-cases, Option-cases, inl, inr, if◌then◌else◌,
}
use sdnagent.Flow.{OvsText}
use sdnagent.FlowMan.Defs.{
  Switch, sync_flows, update_flows, OvsFlow, Event, command, wait_add, wait_decr,
}

-- A call of updateFlows on the manager of a bridge.
pub record Update (F : Type 0) : Type 0 where
  pub bridge : Str
  pub who : Str
  pub flows : List F

-- The field Count of the bridge's FlowManWaitData, an int32's bit pattern.
unfoldable pub count_wait : Str → List (Str × ℕ) → List (Str × ℕ)
count_wait bridge wdm = elim (lookup bridge wdm) [
  | none ↦ insert bridge 1 wdm
  | some count ↦ insert bridge ((count + 1) % 0x1_0000_0000) wdm
]

count_wait-IsMap : (b : Str) (wdm : List (Str × ℕ)) → IsMap wdm → IsMap (count_wait b wdm)
unfolding count_wait
count_wait-IsMap b wdm m = elim (Option-cases (lookup b wdm)) [
  | inl absent ↦ rw (absent, count_wait) (insert-IsMap b 1 wdm m)
  | inr (n, found) ↦ rw (found, count_wait) (insert-IsMap b _ wdm m)
]

abbrev or_zero : Option ℕ → ℕ
or_zero none = 0
or_zero (some n) = n

-- How often the bridge has been counted.
abbrev counted : Str → List (Str × ℕ) → ℕ
counted b wdm = or_zero (lookup b wdm)

lookup-count_wait_self :
    (b : Str) (wdm : List (Str × ℕ))
    → lookup b (count_wait b wdm) ≡ some ((counted b wdm + 1) % 0x1_0000_0000)
unfolding count_wait
lookup-count_wait_self b wdm = elim (Option-cases (lookup b wdm)) [
  | inl absent ↦ ground (arith, absent, lookup-insert b b 1 wdm, str_eq_refl b)
  | inr (n, found) ↦
      ground (arith, found, lookup-insert b b ((n + 1) % 0x1_0000_0000) wdm, str_eq_refl b)
]

lookup-count_wait_ne :
    (a b : Str) (wdm : List (Str × ℕ))
    → str_eq a b ≡ false
    → lookup b (count_wait a wdm) ≡ lookup b wdm
unfolding count_wait
lookup-count_wait_ne a b wdm h = elim (Option-cases (lookup a wdm)) [
  | inl absent ↦ ground (arith, absent, lookup-insert a b 1 wdm)
  | inr (n, found) ↦ ground (arith, found, lookup-insert a b ((n + 1) % 0x1_0000_0000) wdm)
]

module _ (t : OvsText) (sw : Switch (OvsFlow t)) where
  -- updateFlows under a context with wait data, call after call: the wait data that results, and
  -- what the managers meet, each event with its bridge.
  unfoldable pub run_updates :
      List (Update (OvsFlow t)) → List (Str × ℕ) → List (Str × ℕ) × List (Str × Event t sw)
  run_updates [] wdm = (wdm, [])
  run_updates (u ∷ us) wdm =
      let (wdm', events) = run_updates us (count_wait u.bridge wdm) in
      (wdm', (u.bridge, wait_add) ∷ (u.bridge, command (update_flows u.who u.flows)) ∷ events)

  -- The loop over the wait data: waitDecr and SyncFlows of every manager in it.
  unfoldable pub release : List (Str × ℕ) → List (Str × Event t sw)
  release [] = []
  release ((bridge, count) ∷ wdm) =
      (bridge, wait_decr count) ∷ (bridge, command sync_flows) ∷ release wdm

  -- withWait of a function that makes the updates, under a context that is not done.
  unfoldable pub with_wait : List (Update (OvsFlow t)) → List (Str × Event t sw)
  with_wait us = let (wdm, events) = run_updates us [] in events ++ release wdm

  -- What the manager of the bridge meets.
  unfoldable pub events_of : Str → List (Str × Event t sw) → List (Event t sw)
  unfolding str_eq
  events_of b [] = []
  events_of b ((a, e) ∷ es) = let rest = events_of b es in if str_eq a b then e ∷ rest else rest

  -- The updates of the bridge.
  unfoldable pub updates_of : Str → List (Update (OvsFlow t)) → List (Str × List (OvsFlow t))
  unfolding str_eq
  updates_of b [] = []
  updates_of b (u ∷ us) =
      let rest = updates_of b us in if str_eq u.bridge b then (u.who, u.flows) ∷ rest else rest

  unfoldable pub waited : List (Str × List (OvsFlow t)) → List (Event t sw)
  waited [] = []
  waited ((who, flows) ∷ us) = wait_add ∷ command (update_flows who flows) ∷ waited us

  events_of_append :
      (b : Str) (es fs : List (Str × Event t sw))
      → events_of b (es ++ fs) ≡ events_of b es ++ events_of b fs
  unfolding events_of
  events_of_append b [] fs = refl
  events_of_append b ((a, e) ∷ es) fs = ground (arith, events_of_append b es fs)

  events_of-run_updates :
      (b : Str) (us : List (Update (OvsFlow t))) (wdm : List (Str × ℕ))
      → events_of b (run_updates us wdm).1 ≡ waited (updates_of b us)
  unfolding events_of run_updates waited updates_of
  events_of-run_updates b [] wdm = refl
  events_of-run_updates b (u ∷ us) wdm =
      let ih = events_of-run_updates b us (count_wait u.bridge wdm) in
      elim (Bool-cases (str_eq u.bridge b)) [
        | inl same ↦ rw (same, ih) refl
        | inr other ↦ rw (other, ih) refl
      ]

  run_updates-IsMap :
      (us : List (Update (OvsFlow t))) (wdm : List (Str × ℕ))
      → IsMap wdm
      → IsMap (run_updates us wdm).0
  unfolding run_updates
  run_updates-IsMap [] wdm m = m
  run_updates-IsMap (u ∷ us) wdm m =
      run_updates-IsMap us (count_wait u.bridge wdm) (count_wait-IsMap u.bridge wdm m)

  events_of-release-none :
      (b : Str) (wdm : List (Str × ℕ)) → lookup b wdm ≡ none → events_of b (release wdm) ≡ []
  unfolding events_of release lookup
  events_of-release-none b [] h = refl
  events_of-release-none b ((a, n) ∷ wdm) h = ground (arith, events_of-release-none b wdm)

  events_of-release :
      (b : Str) (wdm : List (Str × ℕ)) (n : ℕ)
      → IsMap wdm
      → lookup b wdm ≡ some n
      → events_of b (release wdm) ≡ wait_decr n ∷ command sync_flows ∷ []
  unfolding events_of release lookup
  events_of-release b [] n m h = ground arith
  events_of-release b ((a, k) ∷ wdm) n m h =
      ground
        (arith, eq_of_str_eq a b, m.0, events_of-release-none b wdm, events_of-release b wdm n m.1)

  -- The count that the bridge's wait data has in the end.
  abbrev final_count : Str → List (Str × List (OvsFlow t)) → List (Str × ℕ) → Option ℕ
  final_count b [] wdm = lookup b wdm
  final_count b (x ∷ us) wdm = some ((counted b wdm + suc (length us)) % 0x1_0000_0000)

  final_count_self :
      (b : Str) (us : List (Str × List (OvsFlow t))) (wdm : List (Str × ℕ))
      → final_count b us (count_wait b wdm)
        ≡ some ((counted b wdm + suc (length us)) % 0x1_0000_0000)
  final_count_self b [] wdm = lookup-count_wait_self b wdm
  final_count_self b (x ∷ us) wdm =
      ap (λ o. some ((or_zero o + suc (length us)) % 0x1_0000_0000)) (lookup-count_wait_self b wdm)
      ∙ ap some (omega arith)

  final_count_ne :
      (a b : Str) (us : List (Str × List (OvsFlow t))) (wdm : List (Str × ℕ))
      → str_eq a b ≡ false
      → final_count b us (count_wait a wdm) ≡ final_count b us wdm
  final_count_ne a b [] wdm h = lookup-count_wait_ne a b wdm h
  final_count_ne a b (x ∷ us) wdm h =
      ap (λ o. some ((or_zero o + suc (length us)) % 0x1_0000_0000))
        (lookup-count_wait_ne a b wdm h)

  lookup-run_updates :
      (b : Str) (us : List (Update (OvsFlow t))) (wdm : List (Str × ℕ))
      → lookup b (run_updates us wdm).0 ≡ final_count b (updates_of b us) wdm
  unfolding run_updates updates_of
  lookup-run_updates b [] wdm = refl
  lookup-run_updates b (u ∷ us) wdm = elim (Bool-cases (str_eq u.bridge b)) [
    | inl same ↦
        rw (same, updates_of)
          (lookup-run_updates b us (count_wait u.bridge wdm)
            ∙ ap (λ a. final_count b (updates_of b us) (count_wait a wdm)) (eq_of_str_eq _ _ same)
            ∙ final_count_self b (updates_of b us) wdm)
    | inr other ↦
        rw (other, updates_of)
          (lookup-run_updates b us (count_wait u.bridge wdm)
            ∙ final_count_ne u.bridge b (updates_of b us) wdm other)
  ]

  -- All that the manager meets whose updates are these.
  unfoldable pub batch : List (Str × List (OvsFlow t)) → List (Event t sw)
  batch [] = []
  batch (u ∷ us) =
      waited (u ∷ us) ++ (wait_decr (suc (length us) % 0x1_0000_0000) ∷ command sync_flows ∷ [])

  waited-release :
      (b : Str) (us : List (Str × List (OvsFlow t))) (wdm : List (Str × ℕ))
      → IsMap wdm
      → lookup b wdm ≡ final_count b us []
      → waited us ++ events_of b (release wdm) ≡ batch us
  unfolding batch lookup waited
  waited-release b [] wdm m e = events_of-release-none b wdm e
  waited-release b (u ∷ us) wdm m e =
      ap (λ l. waited (u ∷ us) ++ l) (events_of-release b wdm _ m (e ∙ ap some (omega arith)))

  -- Whatever updates of whatever bridges the function makes, in any order, the manager of a bridge
  -- that is updated meets its own updates in their order, each after one increment of its wait
  -- counter, then the counter's decrease by their number and a command to synchronize; the manager
  -- of another bridge meets nothing.
  pub events_of-with_wait :
      (b : Str) (us : List (Update (OvsFlow t)))
      → events_of b (with_wait us) ≡ batch (updates_of b us)
  unfolding with_wait
  events_of-with_wait b us =
      events_of_append b (run_updates us []).1 (release (run_updates us []).0)
      ∙ ap (λ l. l ++ events_of b (release (run_updates us []).0)) (events_of-run_updates b us [])
      ∙ waited-release b (updates_of b us) (run_updates us []).0 (run_updates-IsMap us [] tt)
          (lookup-run_updates b us [])
