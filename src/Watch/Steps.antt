-- ===== src/Watch/Steps.antt =====
-- pkg/agent/server/watch.go: all that the watcher receives makes calls of the allocator alone.
use sdnagent.Base.{
  Bool, true, false, ◌&&◌, Option, none, some, List, [], ◌∷◌, Str, str_eq_instance, lookup, ◌≡◌,
  refl, ◌∙◌, ap, Bool-cases, Option-cases, inl, inr,
}
use sdnagent.ZoneMan.{ZoneMan, run}
use sdnagent.Guest.{Guest, ServerGuest, Managers, Found}
use sdnagent.Guest.Steps.{
  Steps, Steps-refl, Steps-trans, update_settings-Steps, clear_settings-Steps,
}
use sdnagent.Watch.Events.{
  EventType, add_server_dir, del_server_dir, upd_server, del_server, watch_event,
}
use sdnagent.Watch.Defs.{
  Watcher, Input, file_event, pending_tick, refresh_tick, add_guest_watch, is_pending, update_guest,
  clear_guest, handle, visit_pending, visit_all, scan_entry, scan_entries, on_input, start_watch,
}

Steps-from : (a b c : ZoneMan) → a ≡ b → Steps a c → Steps b c
Steps-from a b c e (ops, q) = (ops, q ∙ ap (run ops) e)

module _ {Rules : Type 0} where
  add_guest_watch_zones :
      (id : Str) (w : Watcher Rules) → (add_guest_watch id w).1.zone_ids ≡ w.zone_ids
  unfolding add_guest_watch
  add_guest_watch_zones id w = elim (Option-cases (lookup id w.guests)) [
    | inl new ↦ rw (add_guest_watch, new) refl
    | inr (s, known) ↦ rw (add_guest_watch, known) refl
  ]

module _ {Rules Flow : Type 0} (m : Managers) (new_rules : Str → Option Rules)
    (flows_map : Guest Rules → List (Str × List Flow)) where
  update_guest-Steps :
      (sync : Bool) (id : Str) (f : Found Rules) (s : ServerGuest Rules) (w : Watcher Rules)
      → Steps w.zone_ids (update_guest m new_rules flows_map sync id f s w).0.zone_ids
  unfolding update_guest
  update_guest-Steps sync id f s w = update_settings-Steps m new_rules flows_map f sync s w.zone_ids

  clear_guest-Steps :
      (id : Str) (s : ServerGuest Rules) (w : Watcher Rules)
      → Steps w.zone_ids (clear_guest m new_rules flows_map id s w).0.zone_ids
  unfolding clear_guest
  clear_guest-Steps id s w = clear_settings-Steps Flow m s w.zone_ids

  added-Steps :
      (sync : Bool) (id : Str) (f : Found Rules) (w : Watcher Rules)
      → Steps w.zone_ids
          (update_guest m new_rules flows_map sync id f
            (add_guest_watch id w).0
            (add_guest_watch id w).1).0.zone_ids
  added-Steps sync id f w =
      let (s, w') = add_guest_watch id w in
      Steps-from w'.zone_ids w.zone_ids
        (update_guest m new_rules flows_map sync id f s w').0.zone_ids (add_guest_watch_zones id w)
        (update_guest-Steps sync id f s w')

  handle-Steps :
      (t : EventType) (id : Str) (f : Found Rules) (w : Watcher Rules)
      → Steps w.zone_ids (handle m new_rules flows_map t id f w).0.zone_ids
  unfolding handle
  handle-Steps add_server_dir id f w = added-Steps true id f w
  handle-Steps del_server_dir id f w = elim (Option-cases (lookup id w.guests)) [
    | inl new ↦ rw (handle, new) (Steps-refl w.zone_ids)
    | inr (s, known) ↦ rw (handle, known) (clear_guest-Steps id s w)
  ]
  handle-Steps upd_server id f w = elim (Option-cases (lookup id w.guests)) [
    | inl new ↦ rw (handle, new) (Steps-refl w.zone_ids)
    | inr (s, known) ↦ rw (handle, known) (update_guest-Steps true id f s w)
  ]
  handle-Steps del_server id f w = elim (Option-cases (lookup id w.guests)) [
    | inl new ↦ rw (handle, new) (Steps-refl w.zone_ids)
    | inr (s, known) ↦ rw (handle, known) (clear_guest-Steps id s w)
  ]

  visit_pending-Steps :
      (id : Str) (f : Found Rules) (w : Watcher Rules)
      → Steps w.zone_ids (visit_pending m new_rules flows_map id f w).0.zone_ids
  unfolding visit_pending
  visit_pending-Steps id f w = elim (Option-cases (lookup id w.guests)) [
    | inl new ↦ rw (visit_pending, new) (Steps-refl w.zone_ids)
    | inr (s, known) ↦ elim (Bool-cases (is_pending f.now s)) [
      | inl waits ↦ rw (visit_pending, known, waits) (update_guest-Steps false id f s w)
      | inr rests ↦ rw (visit_pending, known, rests) (Steps-refl w.zone_ids)
    ]
  ]

  visit_all-Steps :
      (ids : List Str) (found : Str → Found Rules) (w : Watcher Rules)
      → Steps w.zone_ids (visit_all m new_rules flows_map ids found w).0.zone_ids
  unfolding visit_all
  visit_all-Steps [] found w = Steps-refl w.zone_ids
  visit_all-Steps (id ∷ ids) found w =
      let w1 = (visit_pending m new_rules flows_map id (found id) w).0 in
      Steps-trans w.zone_ids w1.zone_ids (visit_all m new_rules flows_map ids found w1).0.zone_ids
        (visit_pending-Steps id (found id) w) (visit_all-Steps ids found w1)

  module _ (is_uuid : Str → Bool) (clean : Str → Str) (servers_path : Str) where
    scan_entry-Steps :
        (id : Str) (is_dir : Bool) (f : Found Rules) (w : Watcher Rules)
        → Steps w.zone_ids
            (scan_entry m new_rules flows_map is_uuid clean servers_path id is_dir f w).0.zone_ids
    unfolding scan_entry
    scan_entry-Steps id is_dir f w = elim (Bool-cases (is_dir && is_uuid id)) [
      | inl server ↦ rw (scan_entry, server) (added-Steps false id f w)
      | inr other ↦ rw (scan_entry, other) (Steps-refl w.zone_ids)
    ]

    scan_entries-Steps :
        (entries : List (Str × Bool)) (found : Str → Found Rules) (w : Watcher Rules)
        → Steps w.zone_ids
            (scan_entries m new_rules flows_map is_uuid clean servers_path entries found
              w).0.zone_ids
    unfolding scan_entries
    scan_entries-Steps [] found w = Steps-refl w.zone_ids
    scan_entries-Steps ((id, is_dir) ∷ entries) found w =
        let w1 =
          (scan_entry m new_rules flows_map is_uuid clean servers_path id is_dir (found id) w).0 in
        Steps-trans w.zone_ids w1.zone_ids
          (scan_entries m new_rules flows_map is_uuid clean servers_path entries found
            w1).0.zone_ids
          (scan_entry-Steps id is_dir (found id) w) (scan_entries-Steps entries found w1)

    on_input-Steps :
        (input : Input Rules) (w : Watcher Rules)
        → Steps w.zone_ids
            (on_input m new_rules flows_map is_uuid clean servers_path input w).0.zone_ids
    unfolding on_input
    on_input-Steps (file_event ev f) w =
        elim (Option-cases (watch_event is_uuid clean servers_path ev)) [
          | inl ignored ↦ rw (on_input, ignored) (Steps-refl w.zone_ids)
          | inr (wev, seen) ↦ rw (on_input, seen) (handle-Steps wev.ev_type wev.guest_id f w)
        ]
    on_input-Steps (pending_tick ids found) w = visit_all-Steps ids found w
    on_input-Steps (refresh_tick none found) w = Steps-refl w.zone_ids
    on_input-Steps (refresh_tick (some entries) found) w = scan_entries-Steps entries found w

    pub start_watch-Steps :
        (inputs : List (Input Rules)) (w : Watcher Rules)
        → Steps w.zone_ids
            (start_watch m new_rules flows_map is_uuid clean servers_path inputs w).0.zone_ids
    unfolding start_watch
    start_watch-Steps [] w = Steps-refl w.zone_ids
    start_watch-Steps (input ∷ inputs) w =
        let w1 = (on_input m new_rules flows_map is_uuid clean servers_path input w).0 in
        Steps-trans w.zone_ids w1.zone_ids
          (start_watch m new_rules flows_map is_uuid clean servers_path inputs w1).0.zone_ids
          (on_input-Steps input w) (start_watch-Steps inputs w1)
