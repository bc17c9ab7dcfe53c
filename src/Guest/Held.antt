-- ===== src/Guest/Held.antt =====
-- pkg/agent/server/guest.go: the loop of reloadDesc that gives the nics their zone ids.
use sdnagent.Base.{
  ℕ, ◌+◌, ◌<◌, true, none, some, List, [], ◌∷◌, Str, str_eq_instance, str_eq_refl, lookup, delete,
  lookup-delete, ◌≡◌, refl, sym, ◌∙◌, ap, arith, Option-cases, inl, inr,
}
use sdnagent.ZoneMan.{
  ZoneMan, Outcome, allocated, depleted, never_returns, division_by_zero, diverges,
  allocate_zone_id, IsValid, allocate_zone_id-IsValid, allocate_zone_id-base, allocated_known,
  allocate_zone_id_kept,
}
use sdnagent.Guest.Desc.{Nic}
use sdnagent.Guest.Zones.{Assigned, assign}

-- The allocator is consistent, and has a base above 0.
abbrev pub Sound : ZoneMan → Type 0
Sound z = IsValid z × (0 < z.base)

-- The allocator holds the id for the address.
abbrev pub Held : ZoneMan → Str → ℕ → Type 0
Held z mac k = (i : ℕ) × (lookup mac z.zm ≡ some i) × (k ≡ z.base + i)

-- What the address holds is left as it is.
abbrev pub Keeps : ZoneMan → ZoneMan → Type 0
Keeps z z' =
    (z'.base ≡ z.base)
    × ((mac : Str) (i : ℕ) → lookup mac z.zm ≡ some i → lookup mac z'.zm ≡ some i)

Held-Keeps : (z z' : ZoneMan) (mac : Str) (k : ℕ) → Keeps z z' → Held z mac k → Held z' mac k
Held-Keeps z z' mac k (b, keeps) (i, at, e) = (i, keeps mac i at, e ∙ ap (λ t. t + i) (sym b))

Keeps-trans : (a b c : ZoneMan) → Keeps a b → Keeps b c → Keeps a c
Keeps-trans a b c (p, k) (q, l) = (q ∙ p, λ mac i at. l mac i (k mac i at))

allocate-Keeps : (z : ZoneMan) (mac : Str) → Sound z → Keeps z (allocate_zone_id z mac).0
allocate-Keeps z mac (v, b) =
    (allocate_zone_id-base v mac b, λ mac' i at. allocate_zone_id_kept v b mac mac' i at)

granted_Held :
    (z : ZoneMan) (mac : Str) (k : ℕ)
    → Sound z
    → (allocate_zone_id z mac).1 ≡ allocated k
    → Held (allocate_zone_id z mac).0 mac k
granted_Held z mac k (v, b) e =
    let (i, f, low, at) = allocated_known v mac k b e in
    (i, at, f ∙ ap (λ t. t + i) (sym (allocate_zone_id-base v mac b)))

allocate-Sound : (z : ZoneMan) (mac : Str) → Sound z → Sound (allocate_zone_id z mac).0
allocate-Sound z mac (v, b) =
    (allocate_zone_id-IsValid v mac b, omega (arith, allocate_zone_id-base v mac b))

abbrev pub OldHeld : ZoneMan → List (Str × ℕ) → Type 0
OldHeld z old = (mac : Str) (k : ℕ) → lookup mac old ≡ some k → Held z mac k

delete-OldHeld :
    (z : ZoneMan) (mac : Str) (old : List (Str × ℕ)) → OldHeld z old → OldHeld z (delete mac old)
delete-OldHeld z mac old o mac' k at = o mac' k (ground (arith, at, lookup-delete mac mac' old))

OldHeld-Keeps :
    (z z' : ZoneMan) (old : List (Str × ℕ)) → Keeps z z' → OldHeld z old → OldHeld z' old
OldHeld-Keeps z z' old k o mac i at = Held-Keeps z z' mac i k (o mac i at)

module _ {Rules : Type 0} where
  abbrev pub AllHeld : ZoneMan → List (Nic Rules) → Type 0
  AllHeld z [] = Unit {0}
  AllHeld z (nic ∷ nics) = Held z nic.mac nic.ct_zone_id × AllHeld z nics

  -- No nic's address is among the ids that are left over.
  abbrev pub Gone : List (Str × ℕ) → List (Nic Rules) → Type 0
  Gone old [] = Unit {0}
  Gone old (nic ∷ nics) = (lookup nic.mac old ≡ none) × Gone old nics

  AllHeld-Keeps :
      (z z' : ZoneMan) (nics : List (Nic Rules)) → Keeps z z' → AllHeld z nics → AllHeld z' nics
  AllHeld-Keeps z z' [] k h = tt
  AllHeld-Keeps z z' (nic ∷ nics) k (p, h) =
      (Held-Keeps z z' nic.mac nic.ct_zone_id k p, AllHeld-Keeps z z' nics k h)

  -- What the loop of reloadDesc ensures.
  pub record Ensures (z : ZoneMan) (old : List (Str × ℕ)) (a : Assigned Rules) : Type 0 where
    pub sound : Sound a.zones
    pub keeps : Keeps z a.zones
    pub held : AllHeld a.zones a.assigned
    pub gone : Gone a.old_ids a.assigned
    fewer : (mac : Str) → lookup mac old ≡ none → lookup mac a.old_ids ≡ none
    still : OldHeld a.zones a.old_ids

  abbrev carried : Nic Rules → ℕ → Assigned Rules → Assigned Rules
  carried nic k a = record a { assigned = record nic { ct_zone_id = k } ∷ a.assigned }

  abbrev granted : Nic Rules → ℕ → Assigned Rules → Assigned Rules
  granted nic k a = record a {
    assigned = record nic { ct_zone_id = k; ct_zone_id_set = true } ∷ a.assigned;
  }

  pub assign_nil :
      (z : ZoneMan) (old : List (Str × ℕ))
      → assign {Rules = Rules} z old []
        ≡ record { assigned = []; zones = z; old_ids = old; stopped = none }
  unfolding assign
  assign_nil z old = refl

  pub assign_carry :
      (z : ZoneMan) (old : List (Str × ℕ)) (nic : Nic Rules) (nics : List (Nic Rules)) (k : ℕ)
      → lookup nic.mac old ≡ some k
      → assign z old (nic ∷ nics) ≡ carried nic k (assign z (delete nic.mac old) nics)
  unfolding assign
  assign_carry z old nic nics k known = ground (arith, known)

  -- A nic with no old id gets one, or the loop stops.
  assign_new :
      (z : ZoneMan) (old : List (Str × ℕ)) (nic : Nic Rules) (nics : List (Nic Rules)) (o : Outcome)
      → lookup nic.mac old ≡ none
      → (allocate_zone_id z nic.mac).1 ≡ o
      → (assign z old (nic ∷ nics)).stopped ≡ none
      → (k : ℕ) × (o ≡ allocated k)
        × (assign z old (nic ∷ nics)
            ≡ granted nic k (assign (allocate_zone_id z nic.mac).0 old nics))
  unfolding assign
  assign_new z old nic nics (allocated k) fresh e h = (k, refl, ground (arith, fresh, e))
  assign_new z old nic nics depleted fresh e h = absurd (ground (arith, fresh, e, h))
  assign_new z old nic nics never_returns fresh e h = absurd (ground (arith, fresh, e, h))
  assign_new z old nic nics division_by_zero fresh e h = absurd (ground (arith, fresh, e, h))
  assign_new z old nic nics diverges fresh e h = absurd (ground (arith, fresh, e, h))

  carry-Ensures :
      (z : ZoneMan) (old : List (Str × ℕ)) (nic : Nic Rules) (k : ℕ) (a : Assigned Rules)
      → OldHeld z old
      → lookup nic.mac old ≡ some k
      → Ensures z (delete nic.mac old) a
      → Ensures z old (carried nic k a)
  carry-Ensures z old nic k a o known n = record {
    sound = n.sound;
    keeps = n.keeps;
    held = (Held-Keeps z a.zones nic.mac k n.keeps (o nic.mac k known), n.held);
    gone = (
      n.fewer nic.mac (ground (arith, lookup-delete nic.mac nic.mac old, str_eq_refl nic.mac)),
      n.gone,
    );
    fewer = λ mac h. n.fewer mac (ground (arith, lookup-delete nic.mac mac old));
    still = n.still;
  }

  grant-Ensures :
      (z : ZoneMan) (old : List (Str × ℕ)) (nic : Nic Rules) (k : ℕ) (a : Assigned Rules)
      → Sound z
      → lookup nic.mac old ≡ none
      → (allocate_zone_id z nic.mac).1 ≡ allocated k
      → Ensures (allocate_zone_id z nic.mac).0 old a
      → Ensures z old (granted nic k a)
  grant-Ensures z old nic k a s fresh e n = record {
    sound = n.sound;
    keeps =
        Keeps-trans z (allocate_zone_id z nic.mac).0 a.zones (allocate-Keeps z nic.mac s) n.keeps;
    held = (
      Held-Keeps (allocate_zone_id z nic.mac).0 a.zones nic.mac k n.keeps
          (granted_Held z nic.mac k s e),
      n.held,
    );
    gone = (n.fewer nic.mac fresh, n.gone);
    fewer = n.fewer;
    still = n.still;
  }

  -- A loop that comes to its end ensures all of this.
  pub assign-Ensures :
      (z : ZoneMan) (old : List (Str × ℕ)) (nics : List (Nic Rules))
      → Sound z
      → OldHeld z old
      → (assign z old nics).stopped ≡ none
      → Ensures z old (assign z old nics)
  assign-Ensures z old [] s o h = rw (assign_nil z old) (record {
    sound = s;
    keeps = (refl, λ mac i at. at);
    held = tt;
    gone = tt;
    fewer = λ mac e. e;
    still = o;
  })
  assign-Ensures z old (nic ∷ nics) s o h = elim (Option-cases (lookup nic.mac old)) [
    | inl fresh ↦
        let (k, e, step) = assign_new z old nic nics (allocate_zone_id z nic.mac).1 fresh refl h in
        let z' = (allocate_zone_id z nic.mac).0 in
        let o' = OldHeld-Keeps z z' old (allocate-Keeps z nic.mac s) o in
        rw step (
          grant-Ensures z old nic k (assign z' old nics) s fresh e (
            assign-Ensures z' old nics (allocate-Sound z nic.mac s) o'
              (sym (ap (λ (a : Assigned Rules). a.stopped) step) ∙ h)))
    | inr (k, known) ↦
        let step = assign_carry z old nic nics k known in
        let old' = delete nic.mac old in
        rw step (
          carry-Ensures z old nic k (assign z old' nics) o known (
            assign-Ensures z old' nics s (delete-OldHeld z nic.mac old o)
              (sym (ap (λ (a : Assigned Rules). a.stopped) step) ∙ h)))
  ]
