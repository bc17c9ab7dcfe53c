-- ===== src/NicFlows/Defs.antt =====
-- pkg/agent/utils/flowsource.go: what FlowsMapForNic reads.
use sdnagent.Base.{
  ℕ, Bool, false, ◌||◌, Option, none, some, List, [], ◌∷◌, ◌++◌, Str, codes, str_eq, ℤ, pos, negsuc,
  print_int, print_dec, bit_and, ltb, ◌==◌, if◌then◌else◌,
}
use sdnagent.SecFlows.{FlowSpec, make_flows}
use sdnagent.NicFlows.PortMaps.{PortMapping}

-- The libraries that read and format addresses, and the bridge's port numbers: whether UnmarshalText
-- accepts the text of a flow; the first two bytes of SHA-256; Bytes2Str of ParseMAC, which is empty on
-- an error; Bytes2Str of the 16 bytes of ParseIP, and IP2SolicitMcastIP and IP2SolicitMcastMac of it,
-- where `none` is the panic on the nil that ParseIP gives for a text that is no address; the network of
-- an IPv4 address, `none` if the address is none; and DumpPort, `none` for an error.
pub record NetLib : Type 0 where
  pub accepts : FlowSpec → Bool
  pub sum : Str → ℕ × ℕ
  pub mac_to_hex : Str → Str
  pub ip6_to_hex : Str → Option Str
  pub solicit_mcast_ip : Str → Option Str
  pub solicit_mcast_mac : Str → Option Str
  pub net_addr : Str → ℤ → Option Str
  pub dump_port : Str → Str → Option ℤ

-- GuestNIC and what its method Map adds to it: the link local address, and the multicast addresses of
-- the IPv6 address.
pub record NicData : Type 0 where
  pub bridge : Str
  pub mac : Str
  pub port_no : ℤ
  pub vlan : ℤ
  pub ip : Str
  pub ip6 : Str
  pub ip6_local : Str
  pub ip6_mcast_ip : Str
  pub ip6_mcast_mac : Str
  pub sub_ips : List Str
  pub gateway : Str
  pub masklen : ℤ
  pub net_id : Str
  pub on_host_local_bridge : Bool
  pub port_mappings : List PortMapping
  pub ct_zone : ℕ

-- What HostConfigNetwork has after its method MAC: the hardware address and the addresses.
pub record MacInfo : Type 0 where
  pub hw : Str
  pub after_ip : Option Str
  pub after_ip_local : Option Str
  pub after_ip6_local : Option Str

-- HostConfigNetwork: its address before, and what the method MAC leaves, `none` for an error.
pub record HostNet : Type 0 where
  pub net_bridge : Str
  pub net_ifname : Str
  pub net_ip : Option Str
  pub mac_info : Option MacInfo
  pub local_net_ids : List Str

-- HostConfig, with the address of its MasterNic.
pub record HostConf : Type 0 where
  pub networks : List HostNet
  pub dhcp_port : ℤ
  pub dhcp6_port : ℤ
  pub metadata_ip6s : List Str
  pub disable_security_group : Bool
  pub master_addr : Str

-- What getMetadataInfo returns beside its error, which is only logged.
pub record MdInfo : Type 0 where
  pub md_ip : Str
  pub md_ip6 : Str
  pub md_mac : Str
  pub md_port_no : ℤ
  pub use_local : Bool

-- The template data, as they print, with the data of the metadata service.
pub record View : Type 0 where
  pub port : Str
  pub phy : Str
  pub dl_vlan : Str
  pub mac_phy : Str
  pub server_ip : Str
  pub server_ip6 : Str
  pub server_mac : Str
  pub server_port : Option ℤ
  pub in_port_action : Str

unfoldable pub remove_all : ℕ → Str → Str
remove_all c [] = []
remove_all c (d ∷ s) = let rest = remove_all c s in if d == c then rest else d ∷ rest

unfoldable pub trim_left_byte : ℕ → Str → Str
trim_left_byte c [] = []
trim_left_byte c (d ∷ s) = let rest = trim_left_byte c s in if d == c then rest else d ∷ s

-- FakeArpRespActions
unfoldable pub fake_arp_resp_actions : Str → Str
unfolding remove_all trim_left_byte
fake_arp_resp_actions mac =
    let hex_mac = (codes "0x" ++ trim_left_byte 48 (remove_all 58 mac)) in
    (codes "move:NXM_OF_ETH_SRC[]->NXM_OF_ETH_DST[],load:"
      ++ (hex_mac
          ++ (codes "->NXM_OF_ETH_SRC[],load:0x2->NXM_OF_ARP_OP[],load:"
              ++ (hex_mac
                  ++ codes
                      "->NXM_NX_ARP_SHA[],move:NXM_OF_ARP_TPA[]->NXM_OF_ARP_SPA[],move:NXM_NX_ARP_SHA[]->NXM_NX_ARP_THA[],move:NXM_OF_ARP_SPA[]->NXM_OF_ARP_TPA[],in_port"))))

-- isNicHostLocal
unfoldable pub is_nic_host_local : List Str → Str → Bool
unfolding str_eq
is_nic_host_local [] net_id = false
is_nic_host_local (id ∷ ids) net_id = str_eq net_id id || is_nic_host_local ids net_id

-- HostNetworkConfig
unfoldable pub host_network_config : List HostNet → Str → Option HostNet
unfolding str_eq
host_network_config [] bridge = none
host_network_config (hcn ∷ hcns) bridge =
    let rest = host_network_config hcns bridge in
    if str_eq hcn.net_bridge bridge then some hcn else rest

-- `_dl_vlan`
unfoldable pub dl_vlan_text : ℤ → Str
unfolding print_dec
dl_vlan_text (pos n) =
    if ltb 1 n
    then (codes "dl_vlan=" ++ print_dec (bit_and n 0xfff))
    else (codes "vlan_tci=0x0000/0x1fff")
dl_vlan_text (negsuc n) = (codes "vlan_tci=0x0000/0x1fff")

abbrev or_text : Option Str → Str → Str
or_text none s = s
or_text (some t) s = t

abbrev first_some : Option Str → Option Str → Option Str
first_some (some t) o = some t
first_some none o = o

-- The template data that FlowsMapForNic has before it makes its first flow. The metadata server of the
-- bridge is reached at the host's own addresses or at those of the other end of a link.
unfoldable pub view : NicData → ℤ → MacInfo → MdInfo → Option ℤ → View
unfolding print_int dl_vlan_text
view nic phy info md metadata_port = record {
  port = print_int nic.port_no;
  phy = print_int phy;
  dl_vlan = dl_vlan_text nic.vlan;
  mac_phy = info.hw;
  server_ip =
      if md.use_local
      then or_text (first_some info.after_ip info.after_ip_local) md.md_ip
      else md.md_ip;
  server_ip6 = if md.use_local then or_text info.after_ip6_local md.md_ip6 else md.md_ip6;
  server_mac = if md.use_local then info.hw else md.md_mac;
  server_port = metadata_port;
  in_port_action =
      if md.use_local then (codes "LOCAL") else (codes "output:" ++ print_int md.md_port_no);
}

-- What a call of FlowsMapForNic, or of FlowsMap of a HostLocal, comes to.
pub data Outcome (A : Type 0) : Type 0 where
  panicked : Outcome A
  failed : Outcome A
  done : A → Outcome A

abbrev pub FlowsByBridge : Type 0
FlowsByBridge = List (Str × List FlowSpec)

-- F for the flows of every bridge: `none` is a panic.
unfoldable pub make_map : (FlowSpec → Bool) → FlowsByBridge → Option FlowsByBridge
unfolding make_flows
make_map accepts [] = some []
make_map accepts ((bridge, flows) ∷ fm) =
    let rest = make_map accepts fm in
    elim (make_flows accepts flows) [
      | none ↦ none
      | some made ↦ elim rest [ none ↦ none | some fm' ↦ some ((bridge, made) ∷ fm') ]
    ]

unfoldable pub made : (FlowSpec → Bool) → FlowsByBridge → Outcome FlowsByBridge
unfolding make_map
made accepts fm = elim (make_map accepts fm) [ none ↦ panicked | some fm' ↦ done fm' ]
