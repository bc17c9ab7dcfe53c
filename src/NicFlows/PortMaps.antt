-- ===== src/NicFlows/PortMaps.antt =====
-- pkg/agent/utils/flowsource.go: the flows of a nic's port mappings.
use sdnagent.Base.{
  ℕ, Option, none, some, List, [], ◌∷◌, ◌++◌, Str, codes, str_eq, ℤ, pos, negsuc, print_int,
  print_hex, if◌then◌else◌,
}
use sdnagent.SecFlows.{FlowSpec, flow}

-- GuestPortMapping; `host_port` may be a nil pointer.
pub record PortMapping : Type 0 where
  pub protocol : Str
  pub port : ℤ
  pub host_port : Option ℤ
  pub remote_ips : List Str

-- What the switch over the protocol sets.
pub record ProtoText : Type 0 where
  pub proto_num : Str
  pub src_field : Str
  pub dst_match : Str
  pub nxm_src : Str
  pub nxm_dst : Str

unfoldable pub proto_text : Str → ProtoText
unfolding str_eq
proto_text protocol =
    if str_eq protocol (codes "udp")
    then record {
      proto_num = codes "17";
      src_field = codes "udp_src";
      dst_match = codes "NXM_OF_UDP_DST[]=NXM_OF_UDP_SRC[]";
      nxm_src = codes "NXM_OF_UDP_SRC[]";
      nxm_dst = codes "NXM_OF_UDP_DST[]";
    }
    else record {
      proto_num = codes "6";
      src_field = codes "tcp_src";
      dst_match = codes "NXM_OF_TCP_DST[]=NXM_OF_TCP_SRC[]";
      nxm_src = codes "NXM_OF_TCP_SRC[]";
      nxm_dst = codes "NXM_OF_TCP_DST[]";
    }

abbrev any_ip : Str
any_ip = codes "0.0.0.0/0"

unfoldable pub remotes : PortMapping → List Str
remotes pm = elim pm.remote_ips [ [] ↦ any_ip ∷ [] | ip ∷ ips ↦ ip ∷ ips ]

-- srcIpStr
unfoldable pub source_text : Str → Str
unfolding str_eq
source_text remote = if str_eq remote any_ip then [] else (codes "nw_src=" ++ (remote ++ codes ","))

-- What the learned flows begin with, up to the match of the ports.
unfoldable pub learn_prefix : Str → Str → PortMapping → Str
unfolding proto_text print_int
learn_prefix in_port nic_ip pm =
    let p = proto_text pm.protocol in
    (codes "priority=10000,idle_timeout=300,in_port="
      ++ (in_port
          ++ (codes ",eth_type=0x0800,nw_src="
              ++ (nic_ip
                  ++ (codes ",NXM_OF_IP_DST[]=NXM_OF_IP_SRC[],nw_proto="
                      ++ (p.proto_num
                          ++ (codes ","
                              ++ (p.src_field
                                  ++ (codes "="
                                      ++ (print_int pm.port ++ (codes "," ++ p.dst_match)))))))))))

-- learnStr1 and learnStr2
unfoldable pub learn_nat : Str → Str → PortMapping → Str
unfolding learn_prefix
learn_nat in_port nic_ip pm =
    let p = proto_text pm.protocol in
    (learn_prefix in_port nic_ip pm
      ++ (codes
            ",load:NXM_OF_ETH_DST[]->NXM_OF_ETH_SRC[],load:NXM_OF_ETH_SRC[]->NXM_OF_ETH_DST[],load:NXM_OF_IP_DST[]->NXM_OF_IP_SRC[],load:"
          ++ (p.nxm_dst ++ (codes "->" ++ (p.nxm_src ++ codes ",output:NXM_OF_IN_PORT[]")))))

unfoldable pub learn_direct : Str → Str → PortMapping → Str
unfolding learn_prefix
learn_direct in_port nic_ip pm =
    (learn_prefix in_port nic_ip pm ++ codes ",output:NXM_OF_IN_PORT[]")

abbrev local_port : Str
local_port = codes "LOCAL"

-- The two flows for a remote network, to a port of a bridge on this host and to the nic's own.
unfoldable pub hostlocal_flows : PortMapping → ℤ → Str → Str → Str → List FlowSpec
unfolding learn_nat learn_direct source_text
hostlocal_flows pm host_port nic_ip nic_mac remote =
    flow 0 28_200
      (codes "ip,"
        ++ (source_text remote ++ (pm.protocol ++ (codes ",tp_dst=" ++ print_int host_port))))
      (codes "learn(table=10,"
        ++ (learn_nat local_port nic_ip pm
            ++ (codes "),load:0x2->NXM_NX_REG0[],mod_dl_dst:"
                ++ (nic_mac
                    ++ (codes ",mod_nw_dst:"
                        ++ (nic_ip
                            ++ (codes ",mod_tp_dst:"
                                ++ (print_int pm.port ++ codes ",resubmit(,9)"))))))))
    ∷ flow 0 28_205
        (codes "ip,"
          ++ (source_text remote
              ++ (codes "nw_dst="
                  ++ (nic_ip
                      ++ (codes "," ++ (pm.protocol ++ (codes ",tp_dst=" ++ print_int pm.port)))))))
        (codes "learn(table=10,"
          ++ (learn_direct local_port nic_ip pm ++ codes "),load:0x2->NXM_NX_REG0[],resubmit(,9)"))
    ∷ []

unfoldable pub port_flows : PortMapping → ℤ → ℕ → Str → Str → ℤ → Str → Str → List FlowSpec
unfolding learn_nat learn_direct source_text print_hex
port_flows pm host_port nic_port nic_ip nic_mac phy_port vlan_match remote =
    let in_port = print_int (pos nic_port) in
    flow 0 28_200
      (codes "in_port="
        ++ (print_int phy_port
            ++ (codes ",ip,"
                ++ (source_text remote
                    ++ (pm.protocol ++ (codes ",tp_dst=" ++ print_int host_port))))))
      (codes "learn(table=10,"
        ++ (learn_nat in_port nic_ip pm
            ++ (codes "),load:0x1->NXM_NX_REG0[],load:0x"
                ++ (print_hex nic_port
                    ++ (codes "->NXM_NX_REG1[],mod_dl_dst:"
                        ++ (nic_mac
                            ++ (codes ",mod_nw_dst:"
                                ++ (nic_ip
                                    ++ (codes ",mod_tp_dst:"
                                        ++ (print_int pm.port ++ codes ",resubmit(,9)"))))))))))
    ∷ flow 0 28_205
        (codes "in_port="
          ++ (print_int phy_port
              ++ (codes ",ip,"
                  ++ (source_text remote
                      ++ (codes "nw_dst="
                          ++ (nic_ip
                              ++ (codes ","
                                  ++ (pm.protocol
                                      ++ (codes ",tp_dst="
                                          ++ (print_int pm.port
                                              ++ (codes "," ++ vlan_match)))))))))))
        (codes "learn(table=10,"
          ++ (learn_direct in_port nic_ip pm
              ++ (codes "),load:0x1->NXM_NX_REG0[],load:0x"
                  ++ (print_hex nic_port ++ codes "->NXM_NX_REG1[],strip_vlan,resubmit(,9)"))))
    ∷ []

unfoldable pub flat_map : {A : Type 0} → (A → List FlowSpec) → List A → List FlowSpec
flat_map f [] = []
flat_map f (x ∷ xs) = f x ++ flat_map f xs

-- The flow of the answers, whose match names the nic's port or LOCAL.
unfoldable pub reply_flow : PortMapping → Str → Str → Str → FlowSpec
unfolding print_int
reply_flow pm in_port nic_ip actions =
    flow 0 28_202
      (codes "in_port="
        ++ (in_port
            ++ (codes ",ip,nw_src="
                ++ (nic_ip
                    ++ (codes "," ++ (pm.protocol ++ (codes ",tp_src=" ++ print_int pm.port)))))))
      actions

-- eachGuestNicPortMappingFlows: `none` is the use of a nil HostPort, a panic.
unfoldable pub each_port_mapping_flows :
    PortMapping → ℤ → Str → Str → ℤ → Str → Option (List FlowSpec)
unfolding hostlocal_flows port_flows remotes flat_map reply_flow
each_port_mapping_flows pm nic_port nic_ip nic_mac phy_port vlan_match = elim pm.host_port [
  | none ↦ none
  | some host_port ↦ some (elim nic_port [
    | pos n ↦
        flat_map (port_flows pm host_port n nic_ip nic_mac phy_port vlan_match) (remotes pm)
        ++ reply_flow pm (print_int (pos n)) nic_ip (codes "load:0x4->NXM_NX_REG0[],resubmit(,9)")
          ∷ []
    | negsuc n ↦
        flat_map (hostlocal_flows pm host_port nic_ip nic_mac) (remotes pm)
        ++ reply_flow pm (codes "LOCAL") nic_ip (codes "load:0x4->NXM_NX_REG0[],resubmit(,9)") ∷ []
  ])
]

-- The loops over the port mappings of a nic.
unfoldable pub all_mappings :
    (PortMapping → Option (List FlowSpec)) → List PortMapping → Option (List FlowSpec)
all_mappings f [] = some []
all_mappings f (pm ∷ pms) =
    let rest = all_mappings f pms in
    elim (f pm) [
      | none ↦ none
      | some flows ↦ elim rest [ none ↦ none | some more ↦ some (flows ++ more) ]
    ]

-- guestNicPortMappingFlows
unfoldable pub port_mapping_flows :
    List PortMapping → ℤ → Str → Str → ℤ → Str → Option (List FlowSpec)
unfolding each_port_mapping_flows all_mappings
port_mapping_flows pms nic_port nic_ip nic_mac phy_port vlan_match =
    all_mappings (λ pm. each_port_mapping_flows pm nic_port nic_ip nic_mac phy_port vlan_match) pms
