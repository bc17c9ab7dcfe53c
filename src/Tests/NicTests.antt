-- ===== src/Tests/NicTests.antt =====
-- The flows of a nic and of a host at concrete settings.
use sdnagent.Base.{
  ℕ, ◌<◌, Bool, true, false, Option, none, some, List, [], ◌∷◌, Str, codes, str_eq, str_eq_instance,
  pos, lookup, ◌≡◌, refl, arith, ◌/◌,
}
use sdnagent.SecFlows.{FlowSpec, flow}
use sdnagent.SecFlows.Order.{winner}
use sdnagent.SecFlows.Falling.{actions_of}
use sdnagent.SecFlows.Tables.{table_flows}
use sdnagent.NicFlows.PortMaps.{PortMapping}
use sdnagent.NicFlows.Md.{
  byte_size, client_bytes, prefix_bytes, address, fake_md_src_ip_mac, client_bytes-prefix_bytes,
}
use sdnagent.NicFlows.Defs.{
  NetLib, NicData, MacInfo, HostNet, HostConf, MdInfo, View, Outcome, failed, done, FlowsByBridge,
}
use sdnagent.NicFlows.Guest.{Checks, all_nic_flows, flows_map}
use sdnagent.NicFlows.Misses.{Misses}
use sdnagent.NicFlows.Merge.{flows_at, collected, all_good, NonePanicked, flows_map-collected}
use sdnagent.NicFlows.Host.{HostLocal, host_flows}
use sdnagent.NicFlows.HostDrop.{IsStray, host_flows-drop}

abbrev sum : Str → ℕ × ℕ
sum [] = (0, 0)
sum (c ∷ s) = (17, 200)

bytes : (s : Str) → ((sum s).0 < byte_size) × ((sum s).1 < byte_size)
bytes [] = (omega arith, omega arith)
bytes (c ∷ s) = (omega arith, omega arith)

abbrev host_ip : Str
host_ip = codes "10.0.0.1"

abbrev host_mac : Str
host_mac = codes "aa:00:00:00:00:01"

client_bytes-prefix_bytes_example :
    ((client_bytes sum host_ip host_mac (pos 7)).0 < byte_size)
    × ((client_bytes sum host_ip host_mac (pos 7)).1 < byte_size)
    × ((client_bytes sum host_ip host_mac (pos 7)).2 < byte_size)
    × (let (a, b, c) = client_bytes sum host_ip host_mac (pos 7) in
        address sum a b c / 0x1000
        ≡ address sum (prefix_bytes sum host_ip host_mac).0 (prefix_bytes sum host_ip host_mac).1 0
          / 0x1000)
    × ((fake_md_src_ip_mac sum host_ip host_mac (pos 7)).prefix
        ≡ (fake_md_src_ip_mac sum host_ip host_mac (pos 0)).prefix)
    × ((fake_md_src_ip_mac sum host_ip host_mac (pos 7)).mac
        ≡ (fake_md_src_ip_mac sum host_ip host_mac (pos 0)).mac)
client_bytes-prefix_bytes_example = client_bytes-prefix_bytes sum bytes host_ip host_mac (pos 7)

abbrev lib : NetLib
lib = record {
  accepts = λ f. true;
  sum = sum;
  mac_to_hex = λ s. s;
  ip6_to_hex = λ s. some s;
  solicit_mcast_ip = λ s. some s;
  solicit_mcast_mac = λ s. some s;
  net_addr = λ gw len. none;
  dump_port = λ bridge ifname. some (pos 1);
}

abbrev web : PortMapping
web = record { protocol = codes "tcp"; port = pos 80; host_port = some (pos 8080); remote_ips = [] }

abbrev nic : NicData
nic = record {
  bridge = codes "br0";
  mac = codes "aa:00:00:00:00:07";
  port_no = pos 7;
  vlan = pos 5;
  ip = codes "10.0.0.7";
  ip6 = codes "fd00::7";
  ip6_local = [];
  ip6_mcast_ip = [];
  ip6_mcast_mac = [];
  sub_ips = [];
  gateway = codes "10.0.0.254";
  masklen = pos 24;
  net_id = codes "net";
  on_host_local_bridge = false;
  port_mappings = web ∷ [];
  ct_zone = 3;
}

abbrev info : MacInfo
info = record {
  hw = host_mac;
  after_ip = some host_ip;
  after_ip_local = none;
  after_ip6_local = none;
}

abbrev host_net : HostNet
host_net = record {
  net_bridge = codes "br0";
  net_ifname = codes "eth0";
  net_ip = some host_ip;
  mac_info = some info;
  local_net_ids = [];
}

abbrev conf : HostConf
conf = record {
  networks = host_net ∷ [];
  dhcp_port = pos 1067;
  dhcp6_port = pos 1547;
  metadata_ip6s = codes "fd00:ec2::254" ∷ [];
  disable_security_group = true;
  master_addr = host_ip;
}

abbrev md : MdInfo
md = record { md_ip = []; md_ip6 = []; md_mac = []; md_port_no = pos 0; use_local = true }

abbrev checks : Checks
checks = record {
  src_mac_check = true;
  src_ip_check = true;
  allow_conntrack_invalid = false;
  security = λ d. [];
}

abbrev data_of : View
data_of = record {
  port = codes "7";
  phy = codes "1";
  dl_vlan = codes "dl_vlan=5";
  mac_phy = host_mac;
  server_ip = host_ip;
  server_ip6 = codes "fd00::1";
  server_mac = host_mac;
  server_port = some (pos 9000);
  in_port_action = codes "LOCAL";
}

-- A packet of which the switch's port alone is known.
abbrev from_7 : Str → Bool
from_7 m = str_eq m (codes "in_port=7")

abbrev mapped_web : List FlowSpec
mapped_web = flow 0 28_200 (codes "in_port=1,ip,tcp,tp_dst=8080") (codes "resubmit(,9)") ∷ []

abbrev flows_of_7 : Option (List FlowSpec)
flows_of_7 = all_nic_flows lib conf checks nic data_of host_net host_mac mapped_web

abbrev or_none : Option (List FlowSpec) → List FlowSpec
or_none none = []
or_none (some fs) = fs

abbrev one_flow : List FlowSpec
one_flow = flow 0 1 (codes "ip") (codes "normal") ∷ []

abbrev outcomes : List (Outcome FlowsByBridge)
outcomes = done ((codes "br0", one_flow) ∷ []) ∷ failed ∷ done ((codes "br0", one_flow) ∷ []) ∷ []

no_panic : NonePanicked outcomes
unfolding lookup
no_panic = ((refl, tt), ((refl, tt), tt))

flows_map-collected_example :
    (r : FlowsByBridge) × (flows_map outcomes ≡ some (r, all_good outcomes))
    × ((b : Str) → flows_at b r ≡ collected b outcomes)
flows_map-collected_example = flows_map-collected outcomes no_panic

abbrev host : HostLocal
host = record {
  bridge = codes "br0";
  ifname = codes "eth0";
  mac = host_mac;
  metadata_port = pos 9000;
  has_ip4 = true;
  ip4 = host_ip;
  has_ip6 = false;
  has_ip6_local = false;
  ip6_local = codes "<nil>";
  metadata_ip6s = [];
  local_nets = codes "192.168.0.0/24" ∷ [];
  allow_switch_vms = false;
}

abbrev from_1 : Str → Bool
from_1 m = str_eq m (codes "in_port=1")

stray : IsStray from_1 sum host (codes "1")
unfolding str_eq
stray = record {
  from_wire = refl;
  not_mine = refl;
  not_multicast = λ m. refl;
  not_multicast_in = refl;
  not_local = λ m. refl;
  not_arp = λ m. refl;
  not_arp_in = λ m. refl;
  not_icmp6 = λ m. refl;
  not_icmp6_in = λ m. refl;
}

host_flows-drop_example :
    actions_of (winner from_1 (table_flows 0 (host_flows sum host true (codes "1"))))
    ≡ some (codes "drop")
host_flows-drop_example = host_flows-drop from_1 sum host (codes "1") stray refl
