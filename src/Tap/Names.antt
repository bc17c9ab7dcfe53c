-- ===== src/Tap/Names.antt =====
-- pkg/agent/server/tap.go: the names of the ports and mirrors of a tap, and the commands that make them.
use sdnagent.Base.{
  ℕ, zero, suc, ◌-◌, Bool, true, false, ◌||◌, List, [], ◌∷◌, ◌++◌, Str, codes, str_eq, length, ltb,
  print_hex, print_int, ℤ, pos, negsuc, if◌then◌else◌, ◌==◌,
}
use sdnagent.SecFlows.{is_empty}

-- SMirrorConfig; `flow_id` is an uint16.
pub record Mirror : Type 0 where
  pub tap_host_ip : Str
  pub host_ip : Str
  pub port : Str
  pub bridge : Str
  pub flow_id : ℕ
  pub vlan_id : ℤ
  pub direction : Str

-- STapServiceConfig
pub record Tap : Type 0 where
  pub service_host_ip : Str
  pub mac_addr : Str
  pub ifname : Str
  pub mirrors : List Mirror

-- HostVpcBridge
abbrev pub host_vpc_bridge : Str
host_vpc_bridge = (codes "__vpc_bridge__")

-- newTapMirror, of a mirror and of a mirror of a tap; `vpc_bridge` is the integration bridge.
unfoldable pub new_tap_mirror : Str → Mirror → Mirror
unfolding str_eq
new_tap_mirror vpc_bridge m =
    if str_eq m.bridge host_vpc_bridge then record m { bridge = vpc_bridge } else m

unfoldable pub tap_mirror : Str → Tap → Mirror → Mirror
unfolding new_tap_mirror
tap_mirror vpc_bridge tap m = record (new_tap_mirror vpc_bridge m) {
  tap_host_ip = tap.service_host_ip;
}

-- Zeros up to a width, as in `%04x`.
unfoldable pub zeros : ℕ → Str → Str
zeros zero s = s
zeros (suc n) s = 48 ∷ zeros n s

unfoldable pub print_hex4 : ℕ → Str
unfolding zeros print_hex
print_hex4 n = zeros (4 - length (print_hex n)) (print_hex n)

-- Both ends are on this host.
unfoldable pub same_host : Mirror → Bool
unfolding str_eq
same_host m = str_eq m.tap_host_ip m.host_ip

unfoldable pub mirror_port : Mirror → Str
unfolding same_host print_hex4
mirror_port m =
    if same_host m
    then (codes "m-loc" ++ print_hex4 m.flow_id)
    else (codes "m-gre" ++ print_hex4 m.flow_id)

unfoldable pub tap_port : Mirror → Str
unfolding same_host print_hex4
tap_port m =
    if same_host m
    then (codes "t-loc" ++ print_hex4 m.flow_id)
    else (codes "t-gre" ++ print_hex4 m.flow_id)

unfoldable pub mirror_name : Mirror → Str
unfolding print_hex4
mirror_name m = (codes "m" ++ print_hex4 m.flow_id)

-- The command that makes a port with a peer: a patch port, or a tunnel with a key and a remote end.
unfoldable pub port_command : Mirror → Str → Str → Str → Str → List Str
unfolding same_host print_hex
port_command m bridge port peer remote =
    (codes "ovs-vsctl")
    ∷ (codes "--")
    ∷ (codes "add-port")
    ∷ bridge
    ∷ port
    ∷ (codes "--")
    ∷ (codes "set")
    ∷ (codes "interface")
    ∷ port
    ∷ (if same_host m
        then (codes "type=patch") ∷ (codes "options:peer=" ++ peer) ∷ []
        else (codes "type=gre")
          ∷ (codes "options:key=0x" ++ print_hex m.flow_id)
          ∷ (codes "options:remote_ip=" ++ remote)
          ∷ [])

-- destPortArgs
unfoldable pub dest_port_args : Mirror → Str → List Str
unfolding port_command
dest_port_args m tap_bridge = port_command m tap_bridge (tap_port m) (mirror_port m) m.host_ip

unfoldable pub mirror_port_args : Mirror → List Str
unfolding port_command
mirror_port_args m = port_command m m.bridge (mirror_port m) (tap_port m) m.tap_host_ip

-- TapFlowDirectionIn, TapFlowDirectionOut and TapFlowDirectionBoth
abbrev pub direction_in : Str
direction_in = (codes "IN")

abbrev pub direction_out : Str
direction_out = (codes "OUT")

abbrev pub direction_both : Str
direction_both = (codes "BOTH")

-- m.VlanId > 0
abbrev is_positive : ℤ → Bool
is_positive (pos n) = ltb 0 n
is_positive (negsuc n) = false

unfoldable pub selections : Mirror → List Str
unfolding str_eq print_int
selections m =
    if is_empty m.port
    then (codes "select_all=true")
      ∷ (if is_positive m.vlan_id then (codes "select_vlan=" ++ print_int m.vlan_id) ∷ [] else [])
    else (if str_eq m.direction direction_in || str_eq m.direction direction_both
        then (codes "select_dst_port=@" ++ m.port) ∷ []
        else [])
      ++ (if str_eq m.direction direction_out || str_eq m.direction direction_both
          then (codes "select_src_port=@" ++ m.port) ∷ []
          else [])

unfoldable pub mirror_args : Mirror → List Str
unfolding mirror_port mirror_name selections
mirror_args m =
    (codes "ovs-vsctl")
    ∷ (codes "--")
    ∷ (codes "--id=@" ++ mirror_port m)
    ∷ (codes "get")
    ∷ (codes "Port")
    ∷ mirror_port m
    ∷ ((if is_empty m.port
          then []
          else (codes "--")
            ∷ (codes "--id=@" ++ m.port)
            ∷ (codes "get")
            ∷ (codes "Port")
            ∷ m.port
            ∷ [])
        ++ (codes "--")
          ∷ (codes "--id=@m")
          ∷ (codes "create")
          ∷ (codes "Mirror")
          ∷ (codes "name=" ++ mirror_name m)
          ∷ (codes "output-port=@" ++ mirror_port m)
          ∷ []
        ++ selections m
        ++ (codes "--")
          ∷ (codes "add")
          ∷ (codes "Bridge")
          ∷ m.bridge
          ∷ (codes "mirrors")
          ∷ (codes "@m")
          ∷ [])

unfoldable pub has_prefix : Str → Str → Bool
has_prefix [] s = true
has_prefix (c ∷ p) [] = false
has_prefix (c ∷ p) (d ∷ s) = let rest = has_prefix p s in if c == d then rest else false

-- The test for the ports that mirrors have made.
unfoldable pub is_mirror_port : Str → Bool
unfolding has_prefix
is_mirror_port p = has_prefix (codes "m-loc") p || has_prefix (codes "m-gre") p
