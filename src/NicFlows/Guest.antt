-- ===== src/NicFlows/Guest.antt =====
-- pkg/agent/utils/flowsource.go: FlowsMapForNic and FlowsMap of a guest.
use sdnagent.Base.{
  zero, suc, Bool, true, false, not, Option, none, some, List, [], ◌∷◌, ◌++◌, Str, str_eq,
  str_eq_instance, ℤ, pos, negsuc, lookup, insert, if◌then◌else◌, ◌||◌,
}
use sdnagent.SecFlows.{FlowSpec, FlowData, is_empty}
use sdnagent.NicFlows.PortMaps.{PortMapping, port_mapping_flows}
use sdnagent.NicFlows.LocalMaps.{port_mapping_flows_local}
use sdnagent.NicFlows.Nic.{
  service_flows, unchecked_flows, mac_checked_arp, ip_checked_arp, open_flows, last_drops,
}
use sdnagent.NicFlows.Defs.{
  NetLib, NicData, MacInfo, HostNet, HostConf, MdInfo, View, view, is_nic_host_local,
  host_network_config, Outcome, panicked, failed, done, FlowsByBridge, made,
}
use sdnagent.NicFlows.Metadata.{md_flows}

-- The flows appended to those of the bridge.
unfoldable pub add_at : Str → List FlowSpec → FlowsByBridge → FlowsByBridge
unfolding lookup insert
add_at bridge flows fm = elim (lookup bridge fm) [
  | none ↦ insert bridge flows fm
  | some fs ↦ insert bridge (fs ++ flows) fm
]

-- The port mappings of a nic on a bridge local to the host, for another bridge; `none` is a panic.
unfoldable pub map_to : HostNet → NicData → FlowsByBridge → Option FlowsByBridge
unfolding port_mapping_flows add_at str_eq
map_to hcn nic fm =
    if str_eq hcn.net_bridge nic.bridge || is_empty hcn.net_ifname
    then some fm
    else elim hcn.net_ip [
      | none ↦ some fm
      | some ip ↦ elim hcn.mac_info [
        | none ↦ some fm
        | some info ↦
            elim (port_mapping_flows nic.port_mappings (negsuc 0) nic.ip info.hw (pos 0) []) [
              | none ↦ none
              | some flows ↦ some (add_at hcn.net_bridge flows fm)
            ]
      ]
    ]

unfoldable pub other_bridges : List HostNet → NicData → FlowsByBridge → Option FlowsByBridge
unfolding map_to
other_bridges [] nic fm = some fm
other_bridges (hcn ∷ hcns) nic fm = elim (map_to hcn nic fm) [
  | none ↦ none
  | some fm' ↦ other_bridges hcns nic fm'
]

abbrev pub no_mappings : List PortMapping → Bool
no_mappings [] = true
no_mappings (pm ∷ pms) = false

-- The flows of the nic's port mappings with those of the other bridges; `none` is a panic.
unfoldable pub mapping_flows :
    HostConf → NicData → View → ℤ → Option (List FlowSpec × FlowsByBridge)
unfolding other_bridges port_mapping_flows_local port_mapping_flows
mapping_flows conf nic d phy =
    if is_empty nic.ip || no_mappings nic.port_mappings
    then some ([], [])
    else if nic.on_host_local_bridge
    then elim (other_bridges conf.networks nic []) [
      | none ↦ none
      | some fm ↦
          elim (port_mapping_flows_local nic.port_mappings conf.master_addr d.mac_phy d.port nic.ip
            nic.mac) [ none ↦ none | some flows ↦ some (flows, fm) ]
    ]
    else elim (port_mapping_flows nic.port_mappings nic.port_no nic.ip nic.mac phy d.dl_vlan) [
      | none ↦ none
      | some flows ↦ some (flows, [])
    ]

-- A guest's settings: SrcMacCheck, SrcIpCheck, and what the security rules of a nic make of its data.
pub record Checks : Type 0 where
  pub src_mac_check : Bool
  pub src_ip_check : Bool
  pub allow_conntrack_invalid : Bool
  pub security : FlowData → List FlowSpec

abbrev pub flow_data : NicData → View → Checks → FlowData
flow_data nic d c = record {
  mac = nic.mac;
  port_no = d.port;
  port_no_phy = d.phy;
  dl_vlan = d.dl_vlan;
  ip = nic.ip;
  ip6 = nic.ip6;
  sub_ips = nic.sub_ips;
  ct_zone = nic.ct_zone;
  src_ip_check = c.src_ip_check;
  allow_conntrack_invalid = c.allow_conntrack_invalid;
}

module _ (lib : NetLib) (conf : HostConf) (c : Checks) where
  -- The flows between those of the metadata service and the security rules', with the check of the
  -- source's hardware address, given the port mappings'.
  unfoldable pub checked_nic_flows : NicData → View → HostNet → Str → List FlowSpec → List FlowSpec
  unfolding mac_checked_arp ip_checked_arp open_flows last_drops is_nic_host_local
  checked_nic_flows nic d hcn hw mapped =
      (if not c.src_ip_check
        then mac_checked_arp conf nic d
        else ip_checked_arp conf nic d
            (nic.on_host_local_bridge || is_nic_host_local hcn.local_net_ids nic.net_id) hw
            (lib.net_addr nic.gateway nic.masklen))
      ++ mapped
      ++ (if conf.disable_security_group then open_flows conf nic d c.src_ip_check else [])
      ++ last_drops conf nic d

  -- `none` is a panic on an address.
  unfoldable pub all_nic_flows :
      NicData → View → HostNet → Str → List FlowSpec → Option (List FlowSpec)
  unfolding md_flows service_flows unchecked_flows checked_nic_flows
  all_nic_flows nic d hcn hw mapped = elim (md_flows lib nic d conf.metadata_ip6s) [
    | none ↦ none
    | some metadata_flows ↦ some (
        metadata_flows
        ++ service_flows conf nic d
        ++ (if c.src_mac_check
            then checked_nic_flows nic d hcn hw mapped
            else unchecked_flows conf nic d)
        ++ (if conf.disable_security_group then [] else c.security (flow_data nic d c)))
  ]

  -- FlowsMapForNic once the port of the wire and the addresses of the host are known. It panics where
  -- one of the calls of F does, or an address cannot be read.
  unfoldable pub flows_with :
      NicData → HostNet → ℤ → MacInfo → MdInfo → Option ℤ → Outcome FlowsByBridge
  unfolding view mapping_flows all_nic_flows insert made
  flows_with nic hcn phy info md metadata_port =
      let d = view nic phy info md metadata_port in
      if c.src_mac_check
      then elim (mapping_flows conf nic d phy) [
        | none ↦ panicked
        | some (mapped, fm) ↦ elim (all_nic_flows nic d hcn info.hw mapped) [
          | none ↦ panicked
          | some flows ↦ made lib.accepts (insert nic.bridge flows fm)
        ]
      ]
      else elim (all_nic_flows nic d hcn info.hw []) [
        | none ↦ panicked
        | some flows ↦ made lib.accepts ((nic.bridge, flows) ∷ [])
      ]

  -- portNoPhy: -1 on a bridge that is local to the host.
  unfoldable pub wire_port : NicData → HostNet → Option ℤ
  wire_port nic hcn =
      if nic.on_host_local_bridge then some (negsuc 0) else lib.dump_port nic.bridge hcn.net_ifname

  -- nic.PortNo <= 0
  unfoldable pub has_port : NicData → Bool
  has_port nic = elim nic.port_no [
    | pos n ↦ elim n [ zero ↦ false | suc m ↦ true ]
    | negsuc n ↦ false
  ]

  -- FlowsMapForNic, given the metadata server and the metadata port of the nic's bridge.
  unfoldable pub flows_map_for_nic : NicData → MdInfo → Option ℤ → Outcome FlowsByBridge
  unfolding host_network_config wire_port flows_with has_port
  flows_map_for_nic nic md metadata_port =
      if not (has_port nic) then failed else elim (host_network_config conf.networks nic.bridge) [
        | none ↦ failed
        | some hcn ↦ elim (wire_port nic hcn) [
          | none ↦ failed
          | some phy ↦ elim hcn.mac_info [
            | none ↦ failed
            | some info ↦ flows_with nic hcn phy info md metadata_port
          ]
        ]
      ]

-- The loop over one nic's map in FlowsMap.
unfoldable pub add_all : FlowsByBridge → FlowsByBridge → FlowsByBridge
unfolding add_at
add_all r [] = r
add_all r ((bridge, flows) ∷ fm) = add_all (add_at bridge flows r) fm

-- FlowsMap, of what FlowsMapForNic comes to for the nics: the map and whether all are good; `none` is
-- a panic.
unfoldable pub flows_map_loop :
    FlowsByBridge → Bool → List (Outcome FlowsByBridge) → Option (FlowsByBridge × Bool)
unfolding add_all
flows_map_loop r good [] = some (r, good)
flows_map_loop r good (panicked ∷ nics) = none
flows_map_loop r good (failed ∷ nics) = flows_map_loop r false nics
flows_map_loop r good (done fm ∷ nics) = flows_map_loop (add_all r fm) good nics

unfoldable pub flows_map : List (Outcome FlowsByBridge) → Option (FlowsByBridge × Bool)
unfolding flows_map_loop
flows_map nics = flows_map_loop [] true nics
