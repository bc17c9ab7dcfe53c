-- ===== src/Tests/GuestTests.antt =====
-- A guest whose description is loaded, cleared and loaded again.
use sdnagent.Base.{
  ℕ, pos, true, false, Option, none, some, List, [], ◌∷◌, Str, codes, str_eq, nat_eq,
  str_eq_instance, lookup, ◌≡◌, refl, arith, if◌then◌else◌,
}
use sdnagent.ZoneMan.{ZoneMan, new_zone_man, allocate_zone_id, new_zone_man-IsValid, probe}
use sdnagent.Guest.{
  Nic, Guest, GuestDesc, load_desc, reload_desc, ServerGuest, Managers, Found, clear_settings,
  update_settings, refresh,
}
use sdnagent.Guest.Held.{Sound, AllHeld}
use sdnagent.Guest.Reload.{reload_desc-Held, AllHeld-OldHeld}
use sdnagent.Guest.Pending.{reloaded, update_settings_pending}
use sdnagent.Guest.Settled.{Leaves, update_settings-Leaves}
use sdnagent.Guest.Carry.{carried_nic, clear_settings_stale, reload_desc_leak}
use sdnagent.Tests.ZoneTests.{mac_a, mac_b}

-- The rules are their first character; no text has no rules.
abbrev pub first_char : Str → Option ℕ
first_char [] = none
first_char (c ∷ cs) = some c

abbrev pub nic_of : Str → Str → Nic ℕ
nic_of mac provider = record {
  bridge = codes "br0";
  bw = pos 1000;
  tx_bw_limit = pos 0;
  rx_bw_limit = pos 0;
  ifname_host = codes "vnet0";
  ip = codes "10.0.0.2";
  virtual_ips = [];
  mac = mac;
  net_id = codes "net";
  vpc_provider = provider;
  ct_zone_id = 0;
  ct_zone_id_set = false;
  port_no = pos 0;
  security_rules = none;
  network_addresses = [];
}

abbrev pub desc_of : List (Nic ℕ) → Option (GuestDesc ℕ)
desc_of nics = some (record {
  desc_name = codes "vm";
  desc_nics = nics;
  desc_rules = codes "in:allow any";
  admin_rules = [];
  nic_secgroups = (mac_b, codes "out:deny any") ∷ [];
  is_master = false;
  desc_slave = false;
  desc_host_id = codes "host";
  desc_volatile = false;
  desc_ip_check = true;
  desc_mac_check = true;
})

abbrev new_guest : Guest ℕ
new_guest = record {
  name = [];
  rules = none;
  nics = [];
  vpc_nics = [];
  host_id = [];
  ip_check = false;
  mac_check = false;
  is_slave = false;
  volatile_host = false;
}

abbrev zones0 : ZoneMan
zones0 = new_zone_man 60_000

zones0-Sound : Sound zones0
unfolding new_zone_man
zones0-Sound = (new_zone_man-IsValid 60_000 (omega arith), omega arith)

-- The guest with one nic, and the allocator, after its first load.
abbrev guest1 : Guest ℕ
guest1 = (reload_desc first_char (desc_of (nic_of mac_a [] ∷ [])) new_guest zones0).0

abbrev zones1 : ZoneMan
zones1 = (reload_desc first_char (desc_of (nic_of mac_a [] ∷ [])) new_guest zones0).1

-- A description with another nic before the first, and one of a VPC.
abbrev desc2 : Option (GuestDesc ℕ)
desc2 = desc_of (nic_of mac_b [] ∷ nic_of mac_a [] ∷ nic_of (codes "c") (codes "ovn") ∷ [])

first_done : (reload_desc first_char (desc_of (nic_of mac_a [] ∷ [])) new_guest zones0).2 ≡ true
unfolding reload_desc new_zone_man allocate_zone_id probe str_eq
first_done = refl

first_held : Sound zones1 × AllHeld zones1 guest1.nics
first_held =
    reload_desc-Held first_char (desc_of (nic_of mac_a [] ∷ [])) new_guest zones0 zones0-Sound
      (AllHeld-OldHeld {Rules = ℕ} zones0 [] tt) first_done

second_done : (reload_desc first_char desc2 guest1 zones1).2 ≡ true
unfolding reload_desc new_zone_man allocate_zone_id probe str_eq
second_done = refl

reload_desc-Held_example :
    Sound (reload_desc first_char desc2 guest1 zones1).1
    × AllHeld
        (reload_desc first_char desc2 guest1 zones1).1
        (reload_desc first_char desc2 guest1 zones1).0.nics
reload_desc-Held_example =
    reload_desc-Held first_char desc2 guest1 zones1 first_held.0
      (AllHeld-OldHeld zones1 guest1.nics first_held.1) second_done

abbrev pub managers : Managers
managers = record { has_flow_man = λ b. true; has_tc_man = true; disable_local_vpc = false }

-- No port is found.
abbrev nothing_found : Found ℕ
nothing_found = record {
  desc = desc2;
  port_of = λ b n. none;
  is_vm = true;
  running = true;
  now = 7;
}

abbrev server_guest1 : ServerGuest ℕ
server_guest1 = record { guest = guest1; last_seen_pending = some 3 }

abbrev pub no_map : Guest ℕ → List (Str × List ℕ)
no_map g = []

update_settings_pending_example :
    (update_settings managers first_char no_map nothing_found true server_guest1
      zones1).server_guest.last_seen_pending
    ≡ (if (reloaded first_char nothing_found server_guest1 zones1).2 then none else some 3)
update_settings_pending_example =
    update_settings_pending managers first_char no_map nothing_found true server_guest1 zones1

update_settings-Leaves_example :
    Leaves managers first_char no_map
      (refresh first_char nothing_found server_guest1 zones1).2
      (update_settings managers first_char no_map nothing_found true server_guest1
        zones1).server_guest
      (update_settings managers first_char no_map nothing_found true server_guest1 zones1).zone_man
      (update_settings managers first_char no_map nothing_found true server_guest1 zones1).effects
update_settings-Leaves_example =
    update_settings-Leaves managers first_char no_map nothing_found true server_guest1 zones1
      first_held.0 (AllHeld-OldHeld zones1 guest1.nics first_held.1) second_done

-- A guest whose one nic has an id that is set.
abbrev nic_set : Nic ℕ
nic_set = record (nic_of mac_a []) { ct_zone_id = 60_123; ct_zone_id_set = true }

abbrev guest_set : Guest ℕ
guest_set = record new_guest { nics = nic_set ∷ [] }

abbrev server_guest_set : ServerGuest ℕ
server_guest_set = record { guest = guest_set; last_seen_pending = none }

abbrev desc_one : Option (GuestDesc ℕ)
desc_one = desc_of (nic_of mac_a [] ∷ [])

abbrev guest_one : Guest ℕ
guest_one = (load_desc first_char desc_one guest_set).0

clear_settings_stale_example :
    (reload_desc first_char desc_one guest_set
        (clear_settings {Flow = ℕ} managers server_guest_set zones1).zone_man
      ≡ (
        record guest_one { nics = carried_nic nic_set (nic_of mac_a []) ∷ [] },
        (clear_settings {Flow = ℕ} managers server_guest_set zones1).zone_man,
        true,
      ))
    × (lookup mac_a (clear_settings {Flow = ℕ} managers server_guest_set zones1).zone_man.zm ≡ none)
unfolding load_desc str_eq
clear_settings_stale_example =
    clear_settings_stale first_char managers desc_one server_guest_set guest_one nic_set
      (nic_of mac_a []) zones1 first_held.0 refl refl refl refl refl

abbrev guest_carried : Guest ℕ
guest_carried = record guest_one { nics = carried_nic nic_set (nic_of mac_a []) ∷ [] }

abbrev guest_none : Guest ℕ
guest_none = (load_desc first_char (desc_of []) guest_carried).0

reload_desc_leak_example :
    reload_desc first_char
      (desc_of [])
      (reload_desc first_char desc_one guest_set zones1).0
      (reload_desc first_char desc_one guest_set zones1).1
    ≡ (record guest_none { nics = [] }, zones1, true)
unfolding load_desc str_eq
reload_desc_leak_example =
    reload_desc_leak first_char managers desc_one server_guest_set guest_one nic_set
      (nic_of mac_a []) zones1 (desc_of []) guest_none refl refl refl refl refl refl refl refl
