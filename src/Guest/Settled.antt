-- ===== src/Guest/Settled.antt =====
-- pkg/agent/server/guest.go: the zone ids that UpdateSettings leaves, and what it sends when it clears.
use sdnagent.Base.{
  ℕ, ℤ, Bool, true, ◌&&◌, Option, List, [], ◌∷◌, ◌++◌, Str, ◌≡◌, refl, Bool-cases, Option-cases,
  inl, inr,
}
use sdnagent.ZoneMan.{ZoneMan}
use sdnagent.Guest.Desc.{Nic, Guest, needs_sync, is_volatile_host, load_desc}
use sdnagent.Guest.Zones.{old_zone_ids}
use sdnagent.Guest.Held.{Sound, OldHeld, AllHeld}
use sdnagent.Guest.Reload.{reload_desc-Held}
use sdnagent.Guest.Settings.{
  ServerGuest, Managers, Found, Refreshed, ready, failed, volatile_host, not_running,
  port_not_ready, Effect, update_flows, add_ifaces, clear_ifaces, ovn_set_host_id,
  ovn_set_guest_nics, md_set_guest_nics, agent_host_id, perform_sync, send_flows, no_flows,
  bridges_of, clear_tc, clear_ovn, refresh, refresh_loaded, mark_pending, settle, clear_settings,
  update_settings, refresh_nic_port_no, sync_requests,
}
use sdnagent.Guest.Pending.{
  NoneHeld, free_nics-NoneHeld, reloaded, refresh_reloaded, refresh_loaded_ran,
}

-- Nothing of the guest is set up by the effect.
abbrev pub Clears : {Rules Flow : Type 0} → Effect Rules Flow → Type 0
Clears (update_flows bridge flows) = flows ≡ []
Clears (add_ifaces td sync) = ⊥
Clears clear_ifaces = Unit {0}
Clears (ovn_set_host_id host_id) = ⊥
Clears (ovn_set_guest_nics nics) = nics ≡ []
Clears (md_set_guest_nics nics) = nics ≡ []
Clears (agent_host_id host_id) = ⊥
Clears perform_sync = Unit {0}

abbrev pub AllClear : {Rules Flow : Type 0} → List (Effect Rules Flow) → Type 0
AllClear [] = Unit {0}
AllClear (e ∷ es) = Clears e × AllClear es

module _ {Rules Flow : Type 0} where
  append-AllClear :
      (es fs : List (Effect Rules Flow)) → AllClear es → AllClear fs → AllClear (es ++ fs)
  append-AllClear [] fs c d = d
  append-AllClear (e ∷ es) fs (h, c) d = (h, append-AllClear es fs c d)

module _ (Rules Flow : Type 0) where
  send_flows-AllClear :
      (m : Managers) (bridges : List Str)
      → AllClear {Rules = Rules} {Flow = Flow} (send_flows m (no_flows bridges))
  unfolding send_flows no_flows
  send_flows-AllClear m [] = tt
  send_flows-AllClear m (b ∷ bs) = elim (Bool-cases (m.has_flow_man b)) [
    | inl managed ↦ rw managed (refl, send_flows-AllClear m bs)
    | inr other ↦ rw other (send_flows-AllClear m bs)
  ]

  clear_tc-AllClear : (m : Managers) → AllClear {Rules = Rules} {Flow = Flow} (clear_tc m)
  unfolding clear_tc
  clear_tc-AllClear m = elim (Bool-cases m.has_tc_man) [ inl e ↦ rw e (tt, tt) | inr e ↦ rw e tt ]

  clear_ovn-AllClear : (m : Managers) → AllClear {Rules = Rules} {Flow = Flow} (clear_ovn m)
  unfolding clear_ovn
  clear_ovn-AllClear m = elim (Bool-cases m.disable_local_vpc) [
    | inl e ↦ rw e tt
    | inr e ↦ rw e (refl, (refl, tt))
  ]

  pub clear_settings-AllClear :
      (m : Managers) (s : ServerGuest Rules) (z : ZoneMan)
      → AllClear {Flow = Flow} (clear_settings m s z).effects
  unfolding clear_settings
  clear_settings-AllClear m s z =
      let sent = send_flows m (no_flows (bridges_of s.guest.nics)) in
      append-AllClear (sent ++ clear_tc m) (clear_ovn m)
        (append-AllClear sent (clear_tc m) (send_flows-AllClear m (bridges_of s.guest.nics))
          (clear_tc-AllClear m))
        (clear_ovn-AllClear m)

  sync_requests-AllClear :
      (m : Managers) (new_rules : Str → Option Rules)
      (flows_map : Guest Rules → List (Str × List Flow)) (f : Found Rules) (g : Guest Rules)
      → AllClear {Flow = Flow} (sync_requests m new_rules flows_map f g)
  unfolding sync_requests
  sync_requests-AllClear m new_rules flows_map f g =
      elim (Bool-cases
        ((load_desc new_rules f.desc g).1 && needs_sync (load_desc new_rules f.desc g).0)) [
          | inl asks ↦ rw asks (tt, tt)
          | inr silent ↦ rw silent tt
        ]

module _ {Rules : Type 0} where
  refresh_nic_port_no-AllHeld :
      (p : Str → Str → Option ℤ) (z : ZoneMan) (nics : List (Nic Rules))
      → AllHeld z nics
      → AllHeld z (refresh_nic_port_no p nics).0
  unfolding refresh_nic_port_no
  refresh_nic_port_no-AllHeld p z [] h = tt
  refresh_nic_port_no-AllHeld p z (nic ∷ nics) (h, hs) =
      elim (Option-cases (p nic.bridge nic.ifname_host)) [
        | inl e ↦ rw (refresh_nic_port_no, e, AllHeld) (h, refresh_nic_port_no-AllHeld p z nics hs)
        | inr (n, e) ↦
            rw (refresh_nic_port_no, e, AllHeld) (h, refresh_nic_port_no-AllHeld p z nics hs)
      ]

  refresh_loaded-AllHeld :
      (f : Found Rules) (z : ZoneMan) (g : Guest Rules)
      → AllHeld z g.nics
      → AllHeld z (refresh_loaded f g).0.nics
  unfolding refresh_loaded
  refresh_loaded-AllHeld f z g h = elim (Bool-cases (is_volatile_host g)) [
    | inl e ↦ rw e h
    | inr e ↦ rw e (refresh_nic_port_no-AllHeld f.port_of z g.nics h)
  ]

module _ {Rules Flow : Type 0} (m : Managers) (new_rules : Str → Option Rules)
    (flows_map : Guest Rules → List (Str × List Flow)) where
  -- What is left once refresh has gone through, by its error.
  abbrev pub Leaves : Refreshed → ServerGuest Rules → ZoneMan → List (Effect Rules Flow) → Type 0
  Leaves ready s z es = AllHeld z s.guest.nics
  Leaves failed s z es = ⊥
  Leaves volatile_host s z es = NoneHeld z s.guest.nics × AllClear es
  Leaves not_running s z es = NoneHeld z s.guest.nics × AllClear es
  Leaves port_not_ready s z es = NoneHeld z s.guest.nics × AllClear es

  -- ClearSettings leaves no id, and sets up nothing.
  cleared :
      (es : List (Effect Rules Flow)) (s : ServerGuest Rules) (z : ZoneMan)
      → Sound z
      → AllClear es
      → NoneHeld (clear_settings {Flow = Flow} m s z).zone_man s.guest.nics
        × AllClear (es ++ (clear_settings {Flow = Flow} m s z).effects)
  unfolding clear_settings
  cleared es s z sound c = (
    free_nics-NoneHeld z s.guest.nics sound,
    append-AllClear es (clear_settings m s z).effects c (clear_settings-AllClear Rules Flow m s z),
  )

  settle-Leaves :
      (es : List (Effect Rules Flow)) (sync : Bool) (s : ServerGuest Rules) (z : ZoneMan) (now : ℕ)
      (r : Refreshed)
      → Sound z
      → AllHeld z s.guest.nics
      → AllClear es
      → ¬ r ≡ failed
      → Leaves r
          (settle m new_rules flows_map sync (mark_pending now r s) z r).server_guest
          (settle m new_rules flows_map sync (mark_pending now r s) z r).zone_man
          (es ++ (settle m new_rules flows_map sync (mark_pending now r s) z r).effects)
  unfolding settle mark_pending clear_settings
  settle-Leaves es sync s z now ready sound h c ran = h
  settle-Leaves es sync s z now failed sound h c ran = absurd (ran refl)
  settle-Leaves es sync s z now volatile_host sound h c ran =
      cleared es (mark_pending now volatile_host s) z sound c
  settle-Leaves es sync s z now not_running sound h c ran =
      cleared es (mark_pending now not_running s) z sound c
  settle-Leaves es sync s z now port_not_ready sound h c ran =
      cleared es (mark_pending now port_not_ready s) z sound c

  -- Where the allocator is consistent, with a base above 0, and holds every id that the nics of the
  -- guest have set, and reloadDesc has no error (the description loads and each id is allocated):
  -- if refresh has no error either, the allocator holds for every nic of the guest, after
  -- UpdateSettings, the id that this nic has. If the host is volatile, the guest is not running or
  -- no port is ready, the allocator holds nothing for the address of any nic of the guest, and
  -- nothing of the guest is set up: the managers are sent no flow, no interface and no nic.
  pub update_settings-Leaves :
      (f : Found Rules) (sync : Bool) (s : ServerGuest Rules) (z : ZoneMan)
      → Sound z
      → OldHeld z (old_zone_ids [] s.guest.nics)
      → (reloaded new_rules f s z).2 ≡ true
      → Leaves
          (refresh new_rules f s z).2
          (update_settings m new_rules flows_map f sync s z).server_guest
          (update_settings m new_rules flows_map f sync s z).zone_man
          (update_settings m new_rules flows_map f sync s z).effects
  unfolding update_settings
  update_settings-Leaves f sync s z sound old done =
      let (sound', held) = reload_desc-Held new_rules f.desc s.guest z sound old done in
      let g = (reloaded new_rules f s z).0 in
      rw (refresh_reloaded new_rules f s z done) (
        settle-Leaves (sync_requests m new_rules flows_map f s.guest) sync
          (record s { guest = (refresh_loaded f g).0 }) (reloaded new_rules f s z).1 f.now
          (refresh_loaded f g).1 sound'
          (refresh_loaded-AllHeld f (reloaded new_rules f s z).1 g held)
          (sync_requests-AllClear Rules Flow m new_rules flows_map f s.guest)
          (refresh_loaded_ran f g))
