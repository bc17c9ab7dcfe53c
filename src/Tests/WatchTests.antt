-- ===== src/Tests/WatchTests.antt =====
-- A guest that appears, is scanned and goes down.
use sdnagent.Base.{
  ℕ, Bool, true, false, Option, none, some, List, [], ◌∷◌, Str, codes, str_eq, str_eq_instance,
  lookup, pos, ◌≡◌, refl, ◌==◌, if◌then◌else◌, insert, lookup-insert_self,
}
use sdnagent.ZoneMan.{new_zone_man, allocate_zone_id, probe}
use sdnagent.Guest.{
  ServerGuest, Found, load_desc, reload_desc, update_settings, refresh, settle, clear_settings,
  find_nic_by_net_id_ip, search_nic,
}
use sdnagent.Watch.Events.{FileEvent, WatchEvent, upd_server, del_server_dir, watch_event}
use sdnagent.Watch.Defs.{
  Watcher, empty_guest, Input, file_event, refresh_tick, new_servers_watcher, start_watch, on_input,
  handle, add_guest_watch, update_guest, scan_entries, scan_entry,
}
use sdnagent.Watch.Find.{HashCache, Keeps, find_guest_desc, find_guest_desc_stale}
use sdnagent.Tests.ZoneTests.{mac_a, mac_b}
use sdnagent.Tests.GuestTests.{desc_of, nic_of, first_char, managers, no_map}

-- path.Clean of a directory that ends with a slash.
abbrev strip : Str → Str
strip [] = []
strip (c ∷ []) = if c == 47 then [] else c ∷ []
strip (c ∷ d ∷ cs) = c ∷ strip (d ∷ cs)

abbrev servers : Str
servers = codes "/opt/servers"

abbrev is_id : Str → Bool
is_id s = str_eq s (codes "id1")

-- The description and the port are there.
abbrev all_found : Found ℕ
all_found = record {
  desc = desc_of (nic_of mac_a [] ∷ nic_of mac_b [] ∷ []);
  port_of = λ b n. some (pos 3);
  is_vm = true;
  running = true;
  now = 5;
}

abbrev created : FileEvent
created = record { name = codes "/opt/servers/id1"; create = true; write = false; remove = false }

abbrev desc_written : FileEvent
desc_written = record {
  name = codes "/opt/servers/id1/desc";
  create = false;
  write = true;
  remove = false;
}

desc_event :
    watch_event is_id strip servers desc_written
    ≡ some (record {
      ev_type = upd_server;
      guest_id = codes "id1";
      guest_path = codes "/opt/servers/id1";
    })
unfolding watch_event
desc_event = refl

abbrev inputs : List (Input ℕ)
inputs =
    file_event created all_found
    ∷ refresh_tick (some ((codes "id1", true) ∷ (codes "other", true) ∷ [])) (λ id. all_found)
    ∷ []

abbrev watched : Watcher ℕ
watched = (start_watch managers first_char no_map is_id strip servers inputs new_servers_watcher).0

abbrev or_empty : Option (ServerGuest ℕ) → ServerGuest ℕ
or_empty none = empty_guest
or_empty (some s) = s

abbrev first_guest : ServerGuest ℕ
first_guest = or_empty (lookup (codes "id1") watched.guests)

abbrev gone : FileEvent
gone = record { name = codes "/opt/servers/id1"; create = false; write = false; remove = true }

abbrev dir_gone : WatchEvent
dir_gone = record {
  ev_type = del_server_dir;
  guest_id = codes "id1";
  guest_path = codes "/opt/servers/id1";
}

-- A cache that never expires.
abbrev list_cache : HashCache ℕ
list_cache = record { Cache = List (Str × ℕ); get = λ c k. lookup k c; set = λ c k v. insert k v c }

list_cache-Keeps : Keeps list_cache
list_cache-Keeps c k v = lookup-insert_self k v c

abbrev first_code : Str → Option ℕ
first_code [] = none
first_code (c ∷ cs) = some c

first_answer :
    (find_guest_desc list_cache first_code (codes "net") (codes "10.0.0.2") watched.guests []).0
    ≡ some 105
unfolding find_guest_desc find_nic_by_net_id_ip search_nic start_watch on_input watch_event handle
    add_guest_watch update_guest update_settings refresh settle clear_settings reload_desc load_desc
    new_servers_watcher scan_entries scan_entry allocate_zone_id probe str_eq new_zone_man
first_answer = refl

-- The second address is that of no guest.
find_guest_desc_stale_example :
    (find_guest_desc list_cache first_code
      (codes "net")
      (codes "10.0.0.9")
      watched.guests
      (find_guest_desc list_cache first_code
        (codes "net")
        (codes "10.0.0.2")
        watched.guests
        []).1).0
    ≡ some 105
find_guest_desc_stale_example =
    find_guest_desc_stale list_cache first_code (codes "net") (codes "10.0.0.2") (codes "10.0.0.9")
      watched.guests watched.guests [] 105 list_cache-Keeps first_answer
