-- ===== src/Guest/Reload.antt =====
-- pkg/agent/server/guest.go: reloadDesc, and the ids that it frees.
use sdnagent.Base.{
  insert, some, if◌then◌else◌, eq_of_str_eq, lookup-insert, ℕ, ◌+◌, true, false, Option, none, List,
  [], ◌∷◌, Str, str_eq, str_eq_instance, lookup, ◌≡◌, refl, sym, ◌∙◌, ap, arith, Bool-cases,
  Option-cases, inl, inr,
}
use sdnagent.ZoneMan.{ZoneMan, free_zone_id, free_zone_id-IsValid, free_zone_id-base}
use sdnagent.Guest.Desc.{Nic, Guest, GuestDesc, load_desc}
use sdnagent.Guest.Zones.{Assigned, old_zone_ids, assign, free_ids, reload_desc}
use sdnagent.Guest.Held.{Sound, Held, OldHeld, AllHeld, Gone, assign-Ensures}

pub free-Sound : (z : ZoneMan) (mac : Str) → Sound z → Sound (free_zone_id z mac).0
free-Sound z mac (v, b) = ((free_zone_id-IsValid v mac).0, omega (arith, free_zone_id-base z mac))

apart :
    (mac mac' : Str) (i : ℕ) (old : List (Str × ℕ))
    → lookup mac' ((mac, i) ∷ old) ≡ none
    → (str_eq mac mac' ≡ false) × (lookup mac' old ≡ none)
unfolding lookup
apart mac mac' i old e = elim (Bool-cases (str_eq mac mac')) [
  | inl same ↦ absurd (ground (arith, same, e))
  | inr other ↦ (other, ground (arith, other, e))
]

-- Freeing ids leaves an address that is not among them with what it holds.
free_ids_other :
    (z : ZoneMan) (old : List (Str × ℕ))
    → Sound z
    → Sound (free_ids z old)
      × ((free_ids z old).base ≡ z.base)
      × ((mac : Str) → lookup mac old ≡ none → lookup mac (free_ids z old).zm ≡ lookup mac z.zm)
unfolding free_ids
free_ids_other z [] s = (s, refl, λ mac e. refl)
free_ids_other z ((mac, i) ∷ old) s =
    let z1 = (free_zone_id z mac).0 in
    let (s', b, same) = free_ids_other z1 old (free-Sound z mac s) in
    (
      s',
      b ∙ free_zone_id-base z mac,
      λ mac' e.
          let (p, q) = apart mac mac' i old e in
          same mac' q ∙ (free_zone_id-IsValid s.0 mac).2 mac' ∙ ground (arith, p),
    )

nothing : (mac : Str) (k : ℕ) → ¬ lookup mac [] ≡ some k
unfolding lookup
nothing mac k at = ground (arith, at)

inserted :
    (z : ZoneMan) (m : List (Str × ℕ)) (mac mac' : Str) (k k' : ℕ)
    → str_eq mac mac' ≡ true
    → lookup mac' (insert mac k m) ≡ some k'
    → k' ≡ k
inserted z m mac mac' k k' same at = ground (arith, lookup-insert mac mac' k m, at, same)

insert-OldHeld :
    (z : ZoneMan) (m : List (Str × ℕ)) (mac : Str) (k : ℕ)
    → OldHeld z m
    → Held z mac k
    → OldHeld z (insert mac k m)
insert-OldHeld z m mac k o h mac' k' at = elim (Bool-cases (str_eq mac mac')) [
  | inl same ↦ rw (sym (eq_of_str_eq mac mac' same), inserted z m mac mac' k k' same at) h
  | inr other ↦ o mac' k' (ground (arith, lookup-insert mac mac' k m, at, other))
]

module _ {Rules : Type 0} where
  free_ids-AllHeld :
      (z : ZoneMan) (old : List (Str × ℕ)) (nics : List (Nic Rules))
      → Sound z
      → Gone old nics
      → AllHeld z nics
      → AllHeld (free_ids z old) nics
  free_ids-AllHeld z old [] s g h = tt
  free_ids-AllHeld z old (nic ∷ nics) s (fresh, g) ((i, at, e), h) =
      let (s', b, same) = free_ids_other z old s in
      ((i, same nic.mac fresh ∙ at, e ∙ ap (λ t. t + i) (sym b)), free_ids-AllHeld z old nics s g h)

  module _ (new_rules : Str → Option Rules) (d : Option (GuestDesc Rules)) (g : Guest Rules)
      (z : ZoneMan) where
    -- What the loop of reloadDesc makes of the nics of the new description.
    abbrev pub loop : Assigned Rules
    loop = assign z (old_zone_ids [] g.nics) (load_desc new_rules d g).0.nics

    -- A reloadDesc with no error read the description and came to the end of the loop.
    pub reload_desc_done :
        (reload_desc new_rules d g z).2 ≡ true
        → (loop.stopped ≡ none)
          × ((reload_desc new_rules d g z).1 ≡ free_ids loop.zones loop.old_ids)
          × ((reload_desc new_rules d g z).0.nics ≡ loop.assigned)
    unfolding reload_desc
    reload_desc_done h = elim (Bool-cases (load_desc new_rules d g).1) [
      | inl read ↦ elim (Option-cases loop.stopped) [
        | inl end ↦ (end, rw (read, end) refl, rw (read, end) refl)
        | inr (o, e) ↦ absurd (ground (arith, read, e, h))
      ]
      | inr unread ↦ absurd (ground (arith, unread, h))
    ]

    -- Where the allocator is consistent, with a base above 0, and holds every id that the nics of the
    -- guest have set, a reloadDesc with no error leaves it consistent, and it then holds, for each
    -- nic of the new description, the id that this nic has.
    pub reload_desc-Held :
        Sound z
        → OldHeld z (old_zone_ids [] g.nics)
        → (reload_desc new_rules d g z).2 ≡ true
        → Sound (reload_desc new_rules d g z).1
          × AllHeld (reload_desc new_rules d g z).1 (reload_desc new_rules d g z).0.nics
    reload_desc-Held s o h =
        let (end, zones, nics) = reload_desc_done h in
        let n =
          assign-Ensures z (old_zone_ids [] g.nics) (load_desc new_rules d g).0.nics s o end in
        rw (zones, nics)
          (
            (free_ids_other loop.zones loop.old_ids n.sound).0,
            free_ids-AllHeld loop.zones loop.old_ids loop.assigned n.sound n.gone n.held,
          )

  old_zone_ids-OldHeld :
      (z : ZoneMan) (m : List (Str × ℕ)) (nics : List (Nic Rules))
      → OldHeld z m
      → AllHeld z nics
      → OldHeld z (old_zone_ids m nics)
  unfolding old_zone_ids
  old_zone_ids-OldHeld z m [] o h = o
  old_zone_ids-OldHeld z m (nic ∷ nics) o (held, h) =
      old_zone_ids-OldHeld z (if nic.ct_zone_id_set then insert nic.mac nic.ct_zone_id m else m)
        nics
        (elim (Bool-cases nic.ct_zone_id_set) [
          | inl set ↦ rw set (insert-OldHeld z m nic.mac nic.ct_zone_id o held)
          | inr unset ↦ rw unset o
        ])
        h

  -- If the allocator holds the id of every nic, it holds every id that is set.
  pub AllHeld-OldHeld :
      (z : ZoneMan) (nics : List (Nic Rules)) → AllHeld z nics → OldHeld z (old_zone_ids [] nics)
  AllHeld-OldHeld z nics h =
      old_zone_ids-OldHeld z [] nics (λ mac k at. absurd (nothing mac k at)) h
