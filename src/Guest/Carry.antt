-- ===== src/Guest/Carry.antt =====
-- pkg/agent/server/guest.go: what reloadDesc carries over for a guest with one nic, after ClearSettings,
-- and when the nic is removed later.
use sdnagent.Base.{
  ℕ, Bool, true, false, Option, none, [], ◌∷◌, Str, str_eq_instance, str_eq_refl, lookup, insert,
  delete, ◌≡◌, refl, ◌∙◌, ap,
}
use sdnagent.ZoneMan.{ZoneMan}
use sdnagent.Guest.Desc.{Nic, Guest, GuestDesc, load_desc}
use sdnagent.Guest.Zones.{Assigned, old_zone_ids, assign, free_ids, reload_desc}
use sdnagent.Guest.Held.{Sound, assign_carry, assign_nil}
use sdnagent.Guest.Settings.{ServerGuest, Managers, clear_settings}
use sdnagent.Guest.Pending.{free_nics-NoneHeld}

module _ {Rules : Type 0} where
  reload_from :
      (new_rules : Str → Option Rules) (d : Option (GuestDesc Rules)) (g g' : Guest Rules)
      (z : ZoneMan) (a : Assigned Rules)
      → load_desc new_rules d g ≡ (g', true)
      → assign z (old_zone_ids [] g.nics) g'.nics ≡ a
      → a.stopped ≡ none
      → reload_desc new_rules d g z
        ≡ (record g' { nics = a.assigned }, free_ids a.zones a.old_ids, true)
  unfolding reload_desc
  reload_from new_rules d g g' z a read looped end =
      rw (read, looped, end)
        (ap
            (λ (p : Guest Rules × Bool).
              let b = assign z (old_zone_ids [] g.nics) p.0.nics in
              (record p.0 { nics = b.assigned }, free_ids b.zones b.old_ids, true))
            read
          ∙ ap
              (λ (b : Assigned Rules).
                (record g' { nics = b.assigned }, free_ids b.zones b.old_ids, true))
              looped)

  old_one :
      (n : Nic Rules)
      → n.ct_zone_id_set ≡ true
      → old_zone_ids [] (n ∷ []) ≡ (n.mac, n.ct_zone_id) ∷ []
  unfolding old_zone_ids insert
  old_one n set = rw set refl

  old_unset : (n : Nic Rules) → n.ct_zone_id_set ≡ false → old_zone_ids [] (n ∷ []) ≡ []
  unfolding old_zone_ids
  old_unset n unset = rw unset refl

  -- The nic of the new description.
  abbrev pub carried_nic : Nic Rules → Nic Rules → Nic Rules
  carried_nic n n' = record n' { ct_zone_id = n.ct_zone_id }

  assign_one :
      (n n' : Nic Rules) (z : ZoneMan)
      → n'.mac ≡ n.mac
      → assign z ((n.mac, n.ct_zone_id) ∷ []) (n' ∷ [])
        ≡ record { assigned = carried_nic n n' ∷ []; zones = z; old_ids = []; stopped = none }
  unfolding lookup delete
  assign_one n n' z same =
      assign_carry z ((n.mac, n.ct_zone_id) ∷ []) n' [] n.ct_zone_id
        (rw (same, str_eq_refl n.mac) refl)
      ∙ rw (assign_nil z (delete n'.mac ((n.mac, n.ct_zone_id) ∷ [])), same, str_eq_refl n.mac) refl

module _ {Rules : Type 0} (new_rules : Str → Option Rules) (d : Option (GuestDesc Rules))
    (g g' : Guest Rules) (n : Nic Rules) (z : ZoneMan) (one : g.nics ≡ n ∷ [])
    (read : load_desc new_rules d g ≡ (g', true)) where
  -- The nic keeps the id, whatever the allocator holds, and the allocator is left as it is.
  reload_desc_one :
      (n' : Nic Rules)
      → n.ct_zone_id_set ≡ true
      → g'.nics ≡ n' ∷ []
      → n'.mac ≡ n.mac
      → reload_desc new_rules d g z ≡ (record g' { nics = carried_nic n n' ∷ [] }, z, true)
  unfolding free_ids
  reload_desc_one n' set now same =
      reload_from new_rules d g g' z
        (record { assigned = carried_nic n n' ∷ []; zones = z; old_ids = []; stopped = none }) read
        (rw (one, now, old_one n set) (assign_one n n' z same)) refl

  -- A nic whose id is not marked as set is forgotten, and its id is not freed.
  reload_desc_forgets :
      n.ct_zone_id_set ≡ false
      → g'.nics ≡ []
      → reload_desc new_rules d g z ≡ (record g' { nics = [] }, z, true)
  unfolding free_ids
  reload_desc_forgets unset gone =
      reload_from new_rules d g g' z
        (record { assigned = []; zones = z; old_ids = []; stopped = none }) read
        (rw (one, gone, old_unset n unset) (assign_nil z [])) refl

module _ {Rules : Type 0} (new_rules : Str → Option Rules) (m : Managers)
    (d : Option (GuestDesc Rules)) (s : ServerGuest Rules) (g' : Guest Rules) (n n' : Nic Rules)
    (z : ZoneMan) where
  -- ClearSettings of a guest with one nic, whose id is set, frees the id in the allocator and leaves
  -- it on the nic; the next reloadDesc, for a description with one nic of the same address, gives the
  -- new nic that id, while the allocator holds nothing for the address.
  pub clear_settings_stale :
      Sound z
      → s.guest.nics ≡ n ∷ []
      → n.ct_zone_id_set ≡ true
      → load_desc new_rules d s.guest ≡ (g', true)
      → g'.nics ≡ n' ∷ []
      → n'.mac ≡ n.mac
      → (reload_desc new_rules d s.guest (clear_settings {Flow = ℕ} m s z).zone_man ≡ (
        record g' { nics = carried_nic n n' ∷ [] },
        (clear_settings {Flow = ℕ} m s z).zone_man,
        true,
      ))
        × (lookup n.mac (clear_settings {Flow = ℕ} m s z).zone_man.zm ≡ none)
  unfolding clear_settings
  clear_settings_stale sound one set read now same = (
    reload_desc_one new_rules d s.guest g' n (clear_settings {Flow = ℕ} m s z).zone_man one read n'
        set now same,
    rw one (free_nics-NoneHeld z (n ∷ []) sound).0,
  )

  -- A guest has one nic, whose id is set. After a reloadDesc for a description with one nic of the same
  -- address, which decoding leaves unmarked, and then one for a description with no nics, the
  -- guest has no nic, and the allocator is as it was before both: the id that it held for the nic is
  -- not freed.
  pub reload_desc_leak :
      (d2 : Option (GuestDesc Rules)) (g2 : Guest Rules)
      → s.guest.nics ≡ n ∷ []
      → n.ct_zone_id_set ≡ true
      → load_desc new_rules d s.guest ≡ (g', true)
      → g'.nics ≡ n' ∷ []
      → n'.mac ≡ n.mac
      → n'.ct_zone_id_set ≡ false
      → load_desc new_rules d2 (record g' { nics = carried_nic n n' ∷ [] }) ≡ (g2, true)
      → g2.nics ≡ []
      → reload_desc new_rules d2
          (reload_desc new_rules d s.guest z).0
          (reload_desc new_rules d s.guest z).1
        ≡ (record g2 { nics = [] }, z, true)
  reload_desc_leak d2 g2 one set read now same unset read2 gone =
      rw (reload_desc_one new_rules d s.guest g' n z one read n' set now same) (
        reload_desc_forgets new_rules d2 (record g' { nics = carried_nic n n' ∷ [] }) g2
          (carried_nic n n') z refl read2 unset gone)
