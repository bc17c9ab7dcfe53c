-- ===== src/Tests/TapTests.antt =====
-- The taps of a host over a switch with one bridge.
use sdnagent.Base.{
  true, false, not, ◌&&◌, some, none, List, [], ◌∷◌, Str, codes, str_eq, eq_of_str_eq, pos,
  if◌then◌else◌, ◌≡◌, ◌↔◌, refl, ap, arith, Bool-cases, inl, inr, ◌∙◌,
}
use sdnagent.Tap.Names.{Mirror, Tap, mirror_port, tap_port, mirror_name, is_mirror_port, same_host}
use sdnagent.Tap.Apart.{mirror_port-mirror_name}
use sdnagent.Tap.Ports.{Ovs, ok, in_strings, sync_taps, sync_ports}
use sdnagent.Tap.Kept.{Deletes, sync_ports-kept}

abbrev local_mirror : Mirror
local_mirror = record {
  tap_host_ip = codes "10.0.0.1";
  host_ip = codes "10.0.0.1";
  port = codes "vnet1";
  bridge = codes "br0";
  flow_id = 0x12;
  vlan_id = pos 0;
  direction = codes "IN";
}

abbrev remote_mirror : Mirror
remote_mirror = record local_mirror { host_ip = codes "10.0.0.2"; flow_id = 0x7fff }

mirror_port-mirror_name_example :
    (mirror_port local_mirror ≡ mirror_port remote_mirror ↔ (
      (local_mirror.flow_id ≡ remote_mirror.flow_id)
      × (same_host local_mirror ≡ same_host remote_mirror)))
    × (mirror_name local_mirror ≡ mirror_name remote_mirror
        ↔ local_mirror.flow_id ≡ remote_mirror.flow_id)
    × (is_mirror_port (mirror_port local_mirror) ≡ true)
    × (is_mirror_port (tap_port local_mirror) ≡ false)
mirror_port-mirror_name_example =
    mirror_port-mirror_name local_mirror remote_mirror (omega arith) (omega arith)

without : Str → List Str → List Str
without p [] = []
without p (q ∷ qs) = if str_eq q p then without p qs else q ∷ without p qs

in_strings-without :
    (p q : Str) (l : List Str) → in_strings q (without p l) ≡ (in_strings q l && not (str_eq q p))
unfolding in_strings without
in_strings-without p q [] = refl
in_strings-without p q (r ∷ l) = elim (Bool-cases (str_eq r p)) [
  | inl same ↦
      rw (same, without)
        (in_strings-without p q l ∙ ground (arith, ap (λ x. str_eq q x) (eq_of_str_eq r p same)))
  | inr other ↦ elim (Bool-cases (str_eq q r)) [
    | inl here ↦
        let apart : str_eq q p ≡ false = ap (λ x. str_eq x p) (eq_of_str_eq q r here) ∙ other in
        ground (arith, other, here, apart)
    | inr elsewhere ↦ ground (arith, other, elsewhere, in_strings-without p q l)
  ]
]

-- The state is the list of the ports of the one bridge.
abbrev one_bridge : Ovs
one_bridge = record {
  State = List Str;
  port_to_bridge = λ s p. some (codes "brtap");
  delete_port = λ s br p. (without p s, true);
  exec = λ s args. (s, true);
  list_ports = λ s br. some s;
  dump_port = λ s br p. some (pos 3);
  mirror_table = λ s. none;
  bridge_table = λ s. none;
  port_table = λ s. none;
  find_dev = λ mac. some (codes "eth1");
}

one_bridge-Deletes : Deletes one_bridge (codes "brtap")
one_bridge-Deletes = record {
  deletes = λ s p ports listed. (
    without p s,
    without p s,
    refl,
    refl,
    λ q. in_strings-without p q s ∙ ground (arith, listed),
  );
}

abbrev one_tap : List Tap
one_tap =
    record {
      service_host_ip = codes "10.0.0.1";
      mac_addr = codes "aa:00:00:00:00:02";
      ifname = [];
      mirrors = [];
    }
    ∷ []

abbrev two_ports : List Str
two_ports = codes "eth1" ∷ codes "t-loc0012" ∷ []

looped :
    sync_taps one_bridge (codes "brtap") (codes "brvpc") two_ports one_tap
    ≡ ok two_ports (codes "eth1" ∷ [], [])
unfolding sync_taps
looped = refl

sync_ports-kept_example :
    (s' : List Str) × (l' : List Str) × (sync_ports one_bridge
        (codes "brtap")
        (codes "brvpc")
        two_ports
        one_tap
      ≡ ok s' [])
    × (one_bridge.list_ports s' (codes "brtap") ≡ some l')
    × ((q : Str) → in_strings q l' ≡ (in_strings q two_ports && in_strings q (codes "eth1" ∷ [])))
sync_ports-kept_example =
    sync_ports-kept one_bridge (codes "brtap") (codes "brvpc") one_bridge-Deletes two_ports
      two_ports one_tap (codes "eth1" ∷ [], []) two_ports looped refl
