-- ===== src/Guest/Steps.antt =====
-- pkg/agent/server/guest.go: the calls of the allocator of zone ids.
use sdnagent.Base.{
  ◌⊎◌, ℕ, Bool, Option, none, List, [], ◌∷◌, ◌++◌, Str, str_eq_instance, lookup, delete, ◌≡◌, refl,
  sym, ◌∙◌, ap, arith, Bool-cases, Option-cases, inl, inr,
}
use sdnagent.ZoneMan.{
  ZoneMan, Outcome, allocated, depleted, never_returns, division_by_zero, diverges,
  allocate_zone_id, free_zone_id, Op, allocate, free, run,
}
use sdnagent.Guest.Desc.{Nic, Guest, GuestDesc, load_desc}
use sdnagent.Guest.Zones.{old_zone_ids, assign, free_ids, free_nics, reload_desc}
use sdnagent.Guest.Held.{assign_carry, assign_nil}
use sdnagent.Guest.Settings.{
  ServerGuest, Managers, Found, Refreshed, ready, failed, volatile_host, not_running,
  port_not_ready, clear_settings, settle, refresh, update_settings,
}
use sdnagent.Guest.Pending.{reloaded, refresh_reloaded, refresh_failed}

-- The second state comes of the first by calls of the allocator.
abbrev pub Steps : ZoneMan → ZoneMan → Type 0
Steps z z' = (ops : List Op) × (z' ≡ run ops z)

run-append : (ops ops' : List Op) (z : ZoneMan) → run (ops ++ ops') z ≡ run ops' (run ops z)
unfolding run
run-append [] ops' z = refl
run-append (allocate mac ∷ ops) ops' z = run-append ops ops' (allocate_zone_id z mac).0
run-append (free mac ∷ ops) ops' z = run-append ops ops' (free_zone_id z mac).0

pub Steps-refl : (z : ZoneMan) → Steps z z
unfolding run
Steps-refl z = ([], refl)

pub Steps-trans : (a b c : ZoneMan) → Steps a b → Steps b c → Steps a c
Steps-trans a b c (ops, p) (ops', q) =
    (ops ++ ops', q ∙ ap (run ops') p ∙ sym (run-append ops ops' a))

allocate-Steps : (z : ZoneMan) (mac : Str) → Steps z (allocate_zone_id z mac).0
unfolding run
allocate-Steps z mac = (allocate mac ∷ [], refl)

free-Steps : (z : ZoneMan) (mac : Str) → Steps z (free_zone_id z mac).0
unfolding run
free-Steps z mac = (free mac ∷ [], refl)

free_ids-Steps : (z : ZoneMan) (old : List (Str × ℕ)) → Steps z (free_ids z old)
unfolding free_ids
free_ids-Steps z [] = Steps-refl z
free_ids-Steps z ((mac, i) ∷ old) =
    let z1 = (free_zone_id z mac).0 in
    Steps-trans z z1 (free_ids z1 old) (free-Steps z mac) (free_ids-Steps z1 old)

module _ {Rules : Type 0} where
  free_nics-Steps : (z : ZoneMan) (nics : List (Nic Rules)) → Steps z (free_nics z nics)
  unfolding free_nics
  free_nics-Steps z [] = Steps-refl z
  free_nics-Steps z (nic ∷ nics) =
      let z1 = (free_zone_id z nic.mac).0 in
      Steps-trans z z1 (free_nics z1 nics) (free-Steps z nic.mac) (free_nics-Steps z1 nics)

  -- A nic with no old id: the zones are those after the call, or what the rest of the loop makes of them.
  assign_fresh :
      (z : ZoneMan) (old : List (Str × ℕ)) (nic : Nic Rules) (nics : List (Nic Rules)) (o : Outcome)
      → lookup nic.mac old ≡ none
      → (allocate_zone_id z nic.mac).1 ≡ o
      → ((assign z old (nic ∷ nics)).zones ≡ (assign (allocate_zone_id z nic.mac).0 old nics).zones)
        ⊎ ((assign z old (nic ∷ nics)).zones ≡ (allocate_zone_id z nic.mac).0)
  unfolding assign
  assign_fresh z old nic nics (allocated k) fresh e = inl (ground (arith, fresh, e))
  assign_fresh z old nic nics depleted fresh e = inr (ground (arith, fresh, e))
  assign_fresh z old nic nics never_returns fresh e = inr (ground (arith, fresh, e))
  assign_fresh z old nic nics division_by_zero fresh e = inr (ground (arith, fresh, e))
  assign_fresh z old nic nics diverges fresh e = inr (ground (arith, fresh, e))

  assign-Steps :
      (z : ZoneMan) (old : List (Str × ℕ)) (nics : List (Nic Rules))
      → Steps z (assign z old nics).zones
  assign-Steps z old [] = rw (assign_nil z old) (Steps-refl z)
  assign-Steps z old (nic ∷ nics) = elim (Option-cases (lookup nic.mac old)) [
    | inl fresh ↦
        let z1 = (allocate_zone_id z nic.mac).0 in
        elim (assign_fresh z old nic nics (allocate_zone_id z nic.mac).1 fresh refl) [
          | inl goes ↦ rw goes (
              Steps-trans z z1 (assign z1 old nics).zones (allocate-Steps z nic.mac)
                (assign-Steps z1 old nics))
          | inr stops ↦ rw stops (allocate-Steps z nic.mac)
        ]
    | inr (k, known) ↦
        rw (assign_carry z old nic nics k known) (assign-Steps z (delete nic.mac old) nics)
  ]

  reload_desc-Steps :
      (new_rules : Str → Option Rules) (d : Option (GuestDesc Rules)) (g : Guest Rules)
      (z : ZoneMan)
      → Steps z (reload_desc new_rules d g z).1
  unfolding reload_desc
  reload_desc-Steps new_rules d g z =
      let old = old_zone_ids [] g.nics in
      let a = assign z old (load_desc new_rules d g).0.nics in
      elim (Bool-cases (load_desc new_rules d g).1) [
        | inl read ↦ elim (Option-cases a.stopped) [
          | inl end ↦
              rw (read, end)
                (Steps-trans z a.zones (free_ids a.zones a.old_ids)
                  (assign-Steps z old (load_desc new_rules d g).0.nics)
                  (free_ids-Steps a.zones a.old_ids))
          | inr (o, stops) ↦ rw (read, stops) (assign-Steps z old (load_desc new_rules d g).0.nics)
        ]
        | inr unread ↦ rw unread (Steps-refl z)
      ]

pub clear_settings-Steps :
    {Rules : Type 0} (Flow : Type 0) (m : Managers) (s : ServerGuest Rules) (z : ZoneMan)
    → Steps z (clear_settings {Flow = Flow} m s z).zone_man
unfolding clear_settings
clear_settings-Steps Flow m s z = free_nics-Steps z s.guest.nics

module _ {Rules Flow : Type 0} (m : Managers) where
  module _ (new_rules : Str → Option Rules) (flows_map : Guest Rules → List (Str × List Flow)) where
    settle-Steps :
        (sync : Bool) (s : ServerGuest Rules) (z : ZoneMan) (r : Refreshed)
        → Steps z (settle m new_rules flows_map sync s z r).zone_man
    unfolding settle
    settle-Steps sync s z ready = Steps-refl z
    settle-Steps sync s z failed = Steps-refl z
    settle-Steps sync s z volatile_host = clear_settings-Steps Flow m s z
    settle-Steps sync s z not_running = clear_settings-Steps Flow m s z
    settle-Steps sync s z port_not_ready = clear_settings-Steps Flow m s z

    refresh_zones :
        (f : Found Rules) (s : ServerGuest Rules) (z : ZoneMan)
        → (refresh new_rules f s z).1 ≡ (reload_desc new_rules f.desc s.guest z).1
    refresh_zones f s z = elim (Bool-cases (reloaded new_rules f s z).2) [
      | inl done ↦ rw (refresh_reloaded new_rules f s z done) refl
      | inr undone ↦ rw (refresh_failed new_rules f s z undone) refl
    ]

    pub update_settings-Steps :
        (f : Found Rules) (sync : Bool) (s : ServerGuest Rules) (z : ZoneMan)
        → Steps z (update_settings m new_rules flows_map f sync s z).zone_man
    unfolding update_settings
    update_settings-Steps f sync s z =
        let (s', z', r) = refresh new_rules f s z in
        Steps-trans z z' (settle m new_rules flows_map sync s' z' r).zone_man
          (rw (refresh_zones f s z) (reload_desc-Steps new_rules f.desc s.guest z))
          (settle-Steps sync s' z' r)
