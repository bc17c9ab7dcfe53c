-- ===== src/NicFlows/Merge.antt =====
-- pkg/agent/utils/flowsource.go: FlowsMap puts the flows of a guest's nics together.
use sdnagent.Base.{
  Bool, true, false, ◌&&◌, Option, none, some, List, [], ◌∷◌, ◌++◌, Str, str_eq, str_eq_instance,
  lookup, lookup-insert, eq_of_str_eq, IsMap, if◌then◌else◌, ◌≡◌, sym, ap, ◌∙◌, arith, Bool-cases,
  Option-cases, inl, inr,
}
use mathlib.Core.List.{append_assoc, append-nil}
use sdnagent.SecFlows.{FlowSpec}
use sdnagent.NicFlows.Defs.{Outcome, panicked, failed, done, FlowsByBridge}
use sdnagent.NicFlows.Guest.{add_at, add_all, flows_map_loop, flows_map}

abbrev or_nil : Option (List FlowSpec) → List FlowSpec
or_nil none = []
or_nil (some fs) = fs

-- The flows of a bridge.
abbrev pub flows_at : Str → FlowsByBridge → List FlowSpec
flows_at b fm = or_nil (lookup b fm)

flows_at-add_at :
    (a b : Str) (fs : List FlowSpec) (fm : FlowsByBridge)
    → flows_at b (add_at a fs fm) ≡ flows_at b fm ++ (if str_eq a b then fs else [])
unfolding add_at
flows_at-add_at a b fs fm = elim (Option-cases (lookup a fm)) [
  | inl absent ↦
      ground (
        arith,
        absent,
        lookup-insert a b fs fm,
        eq_of_str_eq a b,
        append-nil (or_nil (lookup b fm)),
      )
  | inr (old, found) ↦ ground (
    arith,
    found,
    lookup-insert a b (old ++ fs) fm,
    eq_of_str_eq a b,
    append-nil (or_nil (lookup b fm)),
  )
]

flows_at-add_all :
    (b : Str) (r fm : FlowsByBridge)
    → IsMap fm
    → flows_at b (add_all r fm) ≡ flows_at b r ++ flows_at b fm
unfolding add_all lookup
flows_at-add_all b r [] m = sym (append-nil (flows_at b r))
flows_at-add_all b r ((a, fs) ∷ fm) (fresh, m) =
    flows_at-add_all b (add_at a fs r) fm m
    ∙ ap (λ l. l ++ flows_at b fm) (flows_at-add_at a b fs r)
    ∙ append_assoc (flows_at b r) (if str_eq a b then fs else []) (flows_at b fm)
    ∙ ap (λ l. flows_at b r ++ l)
        (elim (Bool-cases (str_eq a b)) [
          | inl same ↦ ground (arith, same, fresh, eq_of_str_eq a b, append-nil fs)
          | inr other ↦ ground (arith, other)
        ])

-- The flows that the nics have for a bridge, in the order of the nics, and whether all are good.
unfoldable pub collected : Str → List (Outcome FlowsByBridge) → List FlowSpec
collected b [] = []
collected b (done fm ∷ nics) = flows_at b fm ++ collected b nics
collected b (_ ∷ nics) = collected b nics

unfoldable pub all_good : List (Outcome FlowsByBridge) → Bool
all_good [] = true
all_good (done fm ∷ nics) = all_good nics
all_good (_ ∷ nics) = false

-- No nic panics, and no map has a bridge twice.
abbrev pub NonePanicked : List (Outcome FlowsByBridge) → Type 0
NonePanicked [] = Unit {0}
NonePanicked (panicked ∷ nics) = false ≡ true
NonePanicked (failed ∷ nics) = NonePanicked nics
NonePanicked (done fm ∷ nics) = IsMap fm × NonePanicked nics

flows_map_loop-collected :
    (r : FlowsByBridge) (good : Bool) (nics : List (Outcome FlowsByBridge))
    → NonePanicked nics
    → (r' : FlowsByBridge) × (flows_map_loop r good nics ≡ some (r', good && all_good nics))
      × ((b : Str) → flows_at b r' ≡ flows_at b r ++ collected b nics)
unfolding flows_map_loop collected all_good
flows_map_loop-collected r good [] n = (r, ground arith, λ b. sym (append-nil (flows_at b r)))
flows_map_loop-collected r good (panicked ∷ nics) n = absurd (ground arith)
flows_map_loop-collected r good (failed ∷ nics) n =
    let (r', e, h) = flows_map_loop-collected r false nics n in (r', e ∙ ground arith, h)
flows_map_loop-collected r good (done fm ∷ nics) (m, n) =
    let (r', e, h) = flows_map_loop-collected (add_all r fm) good nics n in
    (
      r',
      e,
      λ b.
          h b
          ∙ ap (λ l. l ++ collected b nics) (flows_at-add_all b r fm m)
          ∙ append_assoc (flows_at b r) (flows_at b fm) (collected b nics),
    )

-- FlowsMap, where no nic panics, gives every bridge exactly the flows that the nics have for it, in
-- the order of the nics, those of the nics that fail left out, whatever the order in which the maps of
-- the nics are visited, and it reports an error exactly if some nic fails.
pub flows_map-collected :
    (nics : List (Outcome FlowsByBridge))
    → NonePanicked nics
    → (r : FlowsByBridge) × (flows_map nics ≡ some (r, all_good nics))
      × ((b : Str) → flows_at b r ≡ collected b nics)
unfolding flows_map lookup
flows_map-collected nics n = flows_map_loop-collected [] true nics n
