-- ===== src/Watch/Events.antt =====
-- pkg/agent/server/watch.go: watchEvent, which reads the events of the file system. The regular
-- expression for identifiers and path.Clean are the parameters `is_uuid` and `clean`.
use sdnagent.Base.{Bool, ◌&&◌, Option, none, some, [], ◌∷◌, Str, codes, str_eq, ◌==◌, if◌then◌else◌}

pub data EventType : Type 0 where
  add_server_dir : EventType
  del_server_dir : EventType
  upd_server : EventType
  del_server : EventType

pub record WatchEvent : Type 0 where
  pub ev_type : EventType
  pub guest_id : Str
  pub guest_path : Str

-- fsnotify.Event, with the bits of Op that the watcher tests.
pub record FileEvent : Type 0 where
  pub name : Str
  pub create : Bool
  pub write : Bool
  pub remove : Bool

-- filepath.Split: what ends with the last slash, and what follows it.
unfoldable pub split_path : Str → Str × Str
split_path [] = ([], [])
split_path (c ∷ cs) =
    let (dir, file) = split_path cs in
    elim dir [
      | d ∷ ds ↦ (c ∷ d ∷ ds, file)
      | [] ↦ if c == 47 then (c ∷ [], file) else ([], c ∷ file)
    ]

module _ (is_uuid : Str → Bool) (clean : Str → Str) (servers_path : Str) where
  unfoldable pub watch_event : FileEvent → Option WatchEvent
  unfolding split_path str_eq
  watch_event ev =
      let (raw, file) = split_path ev.name in
      let dir = clean raw in
      let guest = (split_path dir).1 in
      let event : EventType → Option WatchEvent =
        λ t. some (record { ev_type = t; guest_id = guest; guest_path = dir }) in
      if is_uuid file && str_eq dir servers_path
      then (if ev.create
          then some (record { ev_type = add_server_dir; guest_id = file; guest_path = ev.name })
          else if ev.remove
          then some (record { ev_type = del_server_dir; guest_id = file; guest_path = ev.name })
          else none)
      else if str_eq file (codes "desc")
      then (if ev.write then event upd_server else none)
      else if str_eq file (codes "pid")
      then (if ev.remove then event del_server else if ev.write then event upd_server else none)
      else none
