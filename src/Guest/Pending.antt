-- ===== src/Guest/Pending.antt =====
-- pkg/agent/server/guest.go: the mark of a pending guest over UpdateSettings.
use sdnagent.Base.{
  ℕ, Bool, true, false, Option, none, some, List, [], ◌∷◌, Str, str_eq, str_eq_instance,
  str_eq_refl, lookup, if◌then◌else◌, ◌≡◌, refl, ◌∙◌, arith, Bool-cases, inl, inr,
}
use sdnagent.ZoneMan.{ZoneMan, free_zone_id, free_zone_id-IsValid}
use sdnagent.Guest.Desc.{Nic, Guest}
use sdnagent.Guest.Zones.{free_nics, reload_desc}
use sdnagent.Guest.Held.{Sound}
use sdnagent.Guest.Reload.{free-Sound}
use sdnagent.Guest.Settings.{
  ServerGuest, Managers, Found, Refreshed, ready, failed, volatile_host, not_running,
  port_not_ready, set_pending, refresh, refresh_loaded, mark_pending, settle, clear_settings,
  update_settings,
}

free_nics_gone :
    {Rules : Type 0} (z : ZoneMan) (nics : List (Nic Rules)) (mac : Str)
    → Sound z
    → lookup mac z.zm ≡ none
    → lookup mac (free_nics z nics).zm ≡ none
unfolding free_nics
free_nics_gone z [] mac s e = e
free_nics_gone z (nic ∷ nics) mac s e =
    free_nics_gone (free_zone_id z nic.mac).0 nics mac (free-Sound z nic.mac s)
      (ground (arith, (free_zone_id-IsValid s.0 nic.mac).2 mac, e))

-- The address is that of none of the nics.
abbrev pub NotOf : {Rules : Type 0} → Str → List (Nic Rules) → Type 0
NotOf mac [] = Unit {0}
NotOf mac (nic ∷ nics) = (str_eq nic.mac mac ≡ false) × NotOf mac nics

pub free_nics_other :
    {Rules : Type 0} (z : ZoneMan) (nics : List (Nic Rules)) (mac : Str)
    → Sound z
    → NotOf mac nics
    → lookup mac (free_nics z nics).zm ≡ lookup mac z.zm
unfolding free_nics
free_nics_other z [] mac s other = refl
free_nics_other z (nic ∷ nics) mac s (other, others) =
    free_nics_other (free_zone_id z nic.mac).0 nics mac (free-Sound z nic.mac s) others
    ∙ ground (arith, (free_zone_id-IsValid s.0 nic.mac).2 mac, other)

-- The allocator holds nothing for the address of any nic.
abbrev pub NoneHeld : {Rules : Type 0} → ZoneMan → List (Nic Rules) → Type 0
NoneHeld z [] = Unit {0}
NoneHeld z (nic ∷ nics) = (lookup nic.mac z.zm ≡ none) × NoneHeld z nics

pub free_nics-NoneHeld :
    {Rules : Type 0} (z : ZoneMan) (nics : List (Nic Rules))
    → Sound z
    → NoneHeld (free_nics z nics) nics
unfolding free_nics
free_nics-NoneHeld z [] s = tt
free_nics-NoneHeld z (nic ∷ nics) s =
    let z1 = (free_zone_id z nic.mac).0 in
    let s1 = free-Sound z nic.mac s in
    (
      free_nics_gone z1 nics nic.mac s1
          (ground (arith, (free_zone_id-IsValid s.0 nic.mac).2 nic.mac, str_eq_refl nic.mac)),
      free_nics-NoneHeld z1 nics s1,
    )

pub refresh_loaded_ran :
    {Rules : Type 0} (f : Found Rules) (g : Guest Rules) → ¬ (refresh_loaded f g).1 ≡ failed
unfolding refresh_loaded
refresh_loaded_ran f g = λ h. ground (arith, h)

stays_pending :
    {Rules : Type 0} (now : ℕ) (s : ServerGuest Rules)
    → (mark_pending now failed s).last_seen_pending
      ≡ (elim s.last_seen_pending [ none ↦ some now | some t ↦ some t ])
unfolding mark_pending set_pending
stays_pending now s = ground (arith, s.last_seen_pending)

module _ {Rules : Type 0} (new_rules : Str → Option Rules) (f : Found Rules) (s : ServerGuest Rules)
    (z : ZoneMan) where
  -- What reloadDesc makes of the guest.
  abbrev pub reloaded : Guest Rules × ZoneMan × Bool
  reloaded = reload_desc new_rules f.desc s.guest z

  pub refresh_failed :
      reloaded.2 ≡ false
      → refresh new_rules f s z
        ≡ (mark_pending f.now failed (record s { guest = reloaded.0 }), reloaded.1, failed)
  unfolding refresh
  refresh_failed h = rw h refl

  pub refresh_reloaded :
      reloaded.2 ≡ true
      → refresh new_rules f s z ≡ (
        mark_pending f.now
            (refresh_loaded f reloaded.0).1
            (record s { guest = (refresh_loaded f reloaded.0).0 }),
        reloaded.1,
        (refresh_loaded f reloaded.0).1,
      )
  unfolding refresh
  refresh_reloaded h = rw h refl

module _ {Rules Flow : Type 0} (m : Managers) (new_rules : Str → Option Rules)
    (flows_map : Guest Rules → List (Str × List Flow)) where
  settle_pending :
      (sync : Bool) (s : ServerGuest Rules) (z : ZoneMan) (now : ℕ) (r : Refreshed)
      → (¬ r ≡ failed)
      → (settle m new_rules flows_map sync
          (mark_pending now r s)
          z
          r).server_guest.last_seen_pending
        ≡ none
  unfolding settle mark_pending clear_settings
  settle_pending sync s z now ready h = refl
  settle_pending sync s z now failed h = absurd (h refl)
  settle_pending sync s z now volatile_host h = refl
  settle_pending sync s z now not_running h = refl
  settle_pending sync s z now port_not_ready h = refl

  -- UpdateSettings leaves a guest pending exactly if reloadDesc fails: the time is the one that the
  -- guest had, or the present one if it had none. A guest with no port that is ready, which refresh
  -- sets pending, is not pending when UpdateSettings returns, since ClearSettings clears it.
  pub update_settings_pending :
      (f : Found Rules) (sync : Bool) (s : ServerGuest Rules) (z : ZoneMan)
      → (update_settings m new_rules flows_map f sync s z).server_guest.last_seen_pending ≡ (
          if (reloaded new_rules f s z).2
          then none
          else (elim s.last_seen_pending [ none ↦ some f.now | some t ↦ some t ]))
  unfolding update_settings
  update_settings_pending f sync s z = elim (Bool-cases (reloaded new_rules f s z).2) [
    | inl done ↦
        let g = (reloaded new_rules f s z).0 in
        rw (refresh_reloaded new_rules f s z done, done)
          (settle_pending sync (record s { guest = (refresh_loaded f g).0 })
            (reloaded new_rules f s z).1 f.now (refresh_loaded f g).1 (refresh_loaded_ran f g))
    | inr undone ↦
        rw (refresh_failed new_rules f s z undone, undone)
          (stays_pending f.now (record s { guest = (reloaded new_rules f s z).0 }))
  ]
