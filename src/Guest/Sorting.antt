-- ===== src/Guest/Sorting.antt =====
-- pkg/agent/utils/guest.go: how LoadDesc sorts the nics of a description into the two lists.
use sdnagent.Base.{
  Bool, true, false, Option, none, some, List, [], ◌∷◌, ◌++◌, Str, str_eq, if◌then◌else◌, ◌≡◌, refl,
  arith, Bool-cases, inl, inr,
}
use sdnagent.Guest.Desc.{Nic, Loaded, with_rules, load_nics}

module _ {Rules : Type 0} where
  -- The nic is not one of a VPC.
  abbrev is_classic : Nic Rules → Bool
  is_classic nic = str_eq nic.vpc_provider []

  abbrev classic : List (Nic Rules) → List (Nic Rules)
  classic [] = []
  classic (nic ∷ nics) = if is_classic nic then nic ∷ classic nics else classic nics

  -- The nics of VPCs, from the last to the first.
  abbrev reversed_vpc : List (Nic Rules) → List (Nic Rules)
  reversed_vpc [] = []
  reversed_vpc (nic ∷ nics) =
      if is_classic nic then reversed_vpc nics else reversed_vpc nics ++ nic ∷ []

  abbrev both : Option (Nic Rules) → Option (List (Nic Rules)) → Option (List (Nic Rules))
  both none r = none
  both (some nic) none = none
  both (some nic) (some nics) = some (nic ∷ nics)

  -- Every nic gets its rules, or one of them has an error.
  abbrev pub all_with_rules :
      (Str → Option Rules) → List (Str × Str) → List (Nic Rules) → Option (List (Nic Rules))
  all_with_rules new_rules groups [] = some []
  all_with_rules new_rules groups (nic ∷ nics) =
      both (with_rules new_rules groups nic) (all_with_rules new_rules groups nics)

  abbrev pub SortedAs : Option (List (Nic Rules)) → Loaded Rules → Type 0
  SortedAs none l = l.complete ≡ false
  SortedAs (some nics) l =
      (l.complete ≡ true) × (l.kept_nics ≡ classic nics) × (l.moved_nics ≡ reversed_vpc nics)

  -- One turn of the loop.
  abbrev place : Nic Rules → Option (Nic Rules) → Loaded Rules → Loaded Rules
  place nic o l =
      let left = record l { complete = false; kept_nics = nic ∷ l.kept_nics } in
      if l.complete
      then (elim o [
        | none ↦ left
        | some nic' ↦
            if str_eq nic'.vpc_provider []
            then record l { kept_nics = nic' ∷ l.kept_nics }
            else record l { moved_nics = l.moved_nics ++ nic' ∷ [] }
      ])
      else left

  place_sorts :
      (nic : Nic Rules) (o : Option (Nic Rules)) (r : Option (List (Nic Rules))) (l : Loaded Rules)
      → SortedAs r l
      → SortedAs (both o r) (place nic o l)
  place_sorts nic none none l h = rw h refl
  place_sorts nic (some nic') none l h = rw h refl
  place_sorts nic none (some nics) l (done, k, v) = rw done refl
  place_sorts nic (some nic') (some nics) l (done, k, v) = elim (Bool-cases (is_classic nic')) [
    | inl here ↦ (
      ground (arith, done, here),
      ground (arith, done, here, k, v),
      ground (arith, done, here, k, v),
    )
    | inr moved ↦ (
      ground (arith, done, moved),
      ground (arith, done, moved, k, v),
      ground (arith, done, moved, k, v),
    )
  ]

  load_nil :
      (new_rules : Str → Option Rules) (groups : List (Str × Str))
      → load_nics new_rules groups [] ≡ record { complete = true; kept_nics = []; moved_nics = [] }
  unfolding load_nics
  load_nil new_rules groups = refl

  load_step :
      (new_rules : Str → Option Rules) (groups : List (Str × Str)) (nic : Nic Rules)
      (nics : List (Nic Rules))
      → load_nics new_rules groups (nic ∷ nics)
        ≡ place nic (with_rules new_rules groups nic) (load_nics new_rules groups nics)
  unfolding load_nics
  load_step new_rules groups nic nics = refl

  -- The loop of LoadDesc comes to its end exactly if the rules of every nic can be read. The nics
  -- that it keeps are then those of no VPC, with their rules, in their order, and those that it moves
  -- are the nics of VPCs, with their rules, from the last to the first.
  load_nics_sorts :
      (new_rules : Str → Option Rules) (groups : List (Str × Str)) (nics : List (Nic Rules))
      → SortedAs (all_with_rules new_rules groups nics) (load_nics new_rules groups nics)
  load_nics_sorts new_rules groups [] = rw (load_nil new_rules groups) (refl, refl, refl)
  load_nics_sorts new_rules groups (nic ∷ nics) = rw (load_step new_rules groups nic nics) (
      place_sorts nic (with_rules new_rules groups nic) (all_with_rules new_rules groups nics)
        (load_nics new_rules groups nics) (load_nics_sorts new_rules groups nics))
