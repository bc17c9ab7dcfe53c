-- ===== src/Watch/Defs.antt =====
-- pkg/agent/server/watch.go: what the loop of Start does on each event and tick. The files of a guest
-- are what `Found` says when the guest is handled; `m`, `new_rules` and `flows_map` as for a guest.
use sdnagent.Base.{
  ℕ, ◌-◌, Bool, true, false, ◌&&◌, Option, none, some, List, [], ◌∷◌, ◌++◌, Str, str_eq_instance,
  lookup, insert, delete, ltb, if◌then◌else◌,
}
use sdnagent.ZoneMan.{ZoneMan, new_zone_man}
use sdnagent.Guest.{Guest, ServerGuest, Managers, Found, Effect, clear_settings, update_settings}
use sdnagent.Watch.Events.{
  EventType, add_server_dir, del_server_dir, upd_server, del_server, FileEvent, watch_event,
}

-- serversWatcher: the guests by their identifiers, and the allocator of zone ids.
pub record Watcher (Rules : Type 0) : Type 0 where
  pub guests : List (Str × ServerGuest Rules)
  pub zone_ids : ZoneMan

-- What the loop receives: an event of the file system; the tick for pending guests and the tick for
-- all, which also stands for the scan at the start. The guests of the table are visited in the
-- order of the list; `none` is a directory that cannot be read.
pub data Input (Rules : Type 0) : Type 0 where
  file_event : FileEvent → Found Rules → Input Rules
  pending_tick : List Str → (Str → Found Rules) → Input Rules
  refresh_tick : Option (List (Str × Bool)) → (Str → Found Rules) → Input Rules

-- What is sent, call by call, with the guest that it is sent for.
abbrev pub Sent : Type 0 → Type 0 → Type 0
Sent Rules Flow = List (Str × List (Effect Rules Flow))

-- WatcherRecentPendingTime, in nanoseconds.
abbrev pub recent_pending_time : ℕ
recent_pending_time = 15_000_000_000

module _ {Rules : Type 0} where
  unfoldable pub new_servers_watcher : Watcher Rules
  unfolding new_zone_man
  new_servers_watcher = record { guests = []; zone_ids = new_zone_man 60_000 }

  abbrev pub empty_guest : ServerGuest Rules
  empty_guest = record {
    guest = record {
      name = [];
      rules = none;
      nics = [];
      vpc_nics = [];
      host_id = [];
      ip_check = false;
      mac_check = false;
      is_slave = false;
      volatile_host = false;
    };
    last_seen_pending = none;
  }

  -- addGuestWatch; that fsnotify fails to add the path changes nothing here.
  unfoldable pub add_guest_watch : Str → Watcher Rules → ServerGuest Rules × Watcher Rules
  unfolding lookup insert
  add_guest_watch id w = elim (lookup id w.guests) [
    | some s ↦ (s, w)
    | none ↦ (empty_guest, record w { guests = insert id empty_guest w.guests })
  ]

  unfoldable pub is_pending : ℕ → ServerGuest Rules → Bool
  is_pending now s = elim s.last_seen_pending [
    | none ↦ false
    | some t ↦ ltb (now - t) recent_pending_time
  ]

  module _ {Flow : Type 0} (m : Managers) (new_rules : Str → Option Rules)
      (flows_map : Guest Rules → List (Str × List Flow)) where
    -- UpdateSettings and ClearSettings of the guest of the table.
    unfoldable pub update_guest :
        Bool
        → Str
        → Found Rules
        → ServerGuest Rules
        → Watcher Rules
        → Watcher Rules × Sent Rules Flow
    update_guest sync id f s w =
        let d = update_settings m new_rules flows_map f sync s w.zone_ids in
        (
          record { guests = insert id d.server_guest w.guests; zone_ids = d.zone_man },
          (id, d.effects) ∷ [],
        )

    unfoldable pub clear_guest :
        Str → ServerGuest Rules → Watcher Rules → Watcher Rules × Sent Rules Flow
    clear_guest id s w =
        let d = clear_settings m s w.zone_ids in
        (
          record { guests = insert id d.server_guest w.guests; zone_ids = d.zone_man },
          (id, d.effects) ∷ [],
        )

    unfoldable pub handle :
        EventType → Str → Found Rules → Watcher Rules → Watcher Rules × Sent Rules Flow
    handle add_server_dir id f w = let (s, w') = add_guest_watch id w in update_guest true id f s w'
    handle del_server_dir id f w = elim (lookup id w.guests) [
      | none ↦ (w, [])
      | some s ↦
          let (w', sent) = clear_guest id s w in (record w' { guests = delete id w'.guests }, sent)
    ]
    handle upd_server id f w = elim (lookup id w.guests) [
      | none ↦ (w, [])
      | some s ↦ update_guest true id f s w
    ]
    handle del_server id f w = elim (lookup id w.guests) [
      | none ↦ (w, [])
      | some s ↦ clear_guest id s w
    ]

    unfoldable pub visit_pending :
        Str → Found Rules → Watcher Rules → Watcher Rules × Sent Rules Flow
    visit_pending id f w = elim (lookup id w.guests) [
      | none ↦ (w, [])
      | some s ↦ if is_pending f.now s then update_guest false id f s w else (w, [])
    ]

    unfoldable pub visit_all :
        List Str → (Str → Found Rules) → Watcher Rules → Watcher Rules × Sent Rules Flow
    visit_all [] found w = (w, [])
    visit_all (id ∷ ids) found w =
        let (w', sent) = visit_pending id (found id) w in
        let (w2, rest) = visit_all ids found w' in (w2, sent ++ rest)

    module _ (is_uuid : Str → Bool) (clean : Str → Str) (servers_path : Str) where
      -- One entry of the directory.
      unfoldable pub scan_entry :
          Str → Bool → Found Rules → Watcher Rules → Watcher Rules × Sent Rules Flow
      scan_entry id is_dir f w =
          let (s, w') = add_guest_watch id w in
          if is_dir && is_uuid id then update_guest false id f s w' else (w, [])

      unfoldable pub scan_entries :
          List (Str × Bool) → (Str → Found Rules) → Watcher Rules → Watcher Rules × Sent Rules Flow
      scan_entries [] found w = (w, [])
      scan_entries ((id, is_dir) ∷ entries) found w =
          let (w', sent) = scan_entry id is_dir (found id) w in
          let (w2, rest) = scan_entries entries found w' in (w2, sent ++ rest)

      unfoldable pub on_input : Input Rules → Watcher Rules → Watcher Rules × Sent Rules Flow
      on_input (file_event ev f) w = elim (watch_event is_uuid clean servers_path ev) [
        | none ↦ (w, [])
        | some wev ↦ handle wev.ev_type wev.guest_id f w
      ]
      on_input (pending_tick ids found) w = visit_all ids found w
      on_input (refresh_tick none found) w = (w, [])
      on_input (refresh_tick (some entries) found) w = scan_entries entries found w

      -- The loop of Start over a sequence of inputs.
      unfoldable pub start_watch :
          List (Input Rules) → Watcher Rules → Watcher Rules × Sent Rules Flow
      start_watch [] w = (w, [])
      start_watch (input ∷ inputs) w =
          let (w', sent) = on_input input w in
          let (w2, rest) = start_watch inputs w' in (w2, sent ++ rest)
