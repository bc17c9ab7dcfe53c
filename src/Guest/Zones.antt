-- ===== src/Guest/Zones.antt =====
-- pkg/agent/server/guest.go: reloadDesc, which carries the zone ids of a guest's nics over to the
-- nics of the new description, and the part of clearClassicFlows that frees them.
use sdnagent.Base.{
  ℕ, Bool, true, false, Option, none, some, List, [], ◌∷◌, Str, str_eq_instance, lookup, insert,
  delete, if◌then◌else◌,
}
use sdnagent.ZoneMan.{ZoneMan, Outcome, allocated, allocate_zone_id, free_zone_id}
use sdnagent.Guest.Desc.{Nic, Guest, GuestDesc, load_desc}

-- The nics with their ids, the allocator, the old ids that no nic has taken, and the outcome of
-- AllocateZoneId that the loop stopped at, if it did.
pub record Assigned (Rules : Type 0) : Type 0 where
  pub assigned : List (Nic Rules)
  pub zones : ZoneMan
  pub old_ids : List (Str × ℕ)
  pub stopped : Option Outcome

unfoldable pub free_ids : ZoneMan → List (Str × ℕ) → ZoneMan
free_ids z [] = z
free_ids z ((mac, i) ∷ old) = free_ids (free_zone_id z mac).0 old

module _ {Rules : Type 0} where
  -- oldM
  unfoldable pub old_zone_ids : List (Str × ℕ) → List (Nic Rules) → List (Str × ℕ)
  unfolding insert
  old_zone_ids m [] = m
  old_zone_ids m (nic ∷ nics) =
      old_zone_ids (if nic.ct_zone_id_set then insert nic.mac nic.ct_zone_id m else m) nics

  -- The loop over the nics of the new description.
  unfoldable pub assign : ZoneMan → List (Str × ℕ) → List (Nic Rules) → Assigned Rules
  unfolding lookup delete
  assign z old [] = record { assigned = []; zones = z; old_ids = old; stopped = none }
  assign z old (nic ∷ nics) = elim (lookup nic.mac old) [
    | some i ↦
        let a = assign z (delete nic.mac old) nics in
        record a { assigned = record nic { ct_zone_id = i } ∷ a.assigned }
    | none ↦
        let (z', outcome) = allocate_zone_id z nic.mac in
        elim outcome [
          | allocated i ↦
              let a = assign z' old nics in
              record a {
                assigned = record nic { ct_zone_id = i; ct_zone_id_set = true } ∷ a.assigned;
              }
          | other ↦ record {
            assigned = nic ∷ nics;
            zones = z';
            old_ids = old;
            stopped = some other;
          }
        ]
  ]

  unfoldable pub free_nics : ZoneMan → List (Nic Rules) → ZoneMan
  free_nics z [] = z
  free_nics z (nic ∷ nics) = free_nics (free_zone_id z nic.mac).0 nics

  module _ (new_rules : Str → Option Rules) where
    -- reloadDesc: the Boolean is whether there was no error. The old ids are freed only at the end.
    unfoldable pub reload_desc :
        Option (GuestDesc Rules) → Guest Rules → ZoneMan → Guest Rules × ZoneMan × Bool
    unfolding old_zone_ids load_desc assign free_ids
    reload_desc d g z =
        let old = old_zone_ids [] g.nics in
        let (g', read) = load_desc new_rules d g in
        let a = assign z old g'.nics in
        if read
        then (elim a.stopped [
          | some o ↦ (record g' { nics = a.assigned }, a.zones, false)
          | none ↦ (record g' { nics = a.assigned }, free_ids a.zones a.old_ids, true)
        ])
        else (g', z, false)
