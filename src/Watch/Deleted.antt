-- ===== src/Watch/Deleted.antt =====
-- pkg/agent/server/watch.go: what the watcher does when a guest's directory or description is removed.
use sdnagent.Base.{
  Bool, true, false, none, List, [], ◌∷◌, Str, str_eq, str_eq_instance, lookup, ◌≡◌,
}
use sdnagent.Guest.{Guest, ServerGuest, Effect}
use sdnagent.Guest.Pending.{NotOf, NoneHeld}
use sdnagent.Guest.Settled.{AllClear}
use sdnagent.Watch.Events.{EventType, add_server_dir, del_server_dir, upd_server, del_server}
use sdnagent.Watch.Defs.{Watcher, Sent}

-- The directory of the guest is removed, or its description.
unfoldable pub removes : EventType → Bool
removes add_server_dir = false
removes del_server_dir = true
removes upd_server = false
removes del_server = true

-- Only the removal of the directory takes the guest from the table.
unfoldable pub forgets : EventType → Bool
forgets add_server_dir = false
forgets del_server_dir = true
forgets upd_server = false
forgets del_server = false

module _ {Rules Flow : Type 0} where
  -- What the removal of the guest `id`, known as `s`, makes of the watcher: the allocator holds nothing
  -- for its nics, and for all other addresses what it held; one call is sent, which sets up nothing;
  -- other guests stay as they are, and the guest has left the table if its directory is gone.
  pub record Removed (t : EventType) (id : Str) (s : ServerGuest Rules) (w w' : Watcher Rules)
      (sent : Sent Rules Flow) : Type 0 where
    pub freed : NoneHeld w'.zone_ids s.guest.nics
    pub kept :
        (mac : Str) → NotOf mac s.guest.nics → lookup mac w'.zone_ids.zm ≡ lookup mac w.zone_ids.zm
    pub calls : List (Effect Rules Flow)
    pub one_call : sent ≡ (id, calls) ∷ []
    pub clear : AllClear calls
    pub other_guests :
        (id' : Str) → str_eq id id' ≡ false → lookup id' w'.guests ≡ lookup id' w.guests
    pub forgotten : forgets t ≡ true → lookup id w'.guests ≡ none
