-- ===== src/NicFlows/LocalMaps.antt =====
-- pkg/agent/utils/flowsource.go: the flows of a nic's port mappings on a bridge that is local to the host.
use sdnagent.Base.{Option, none, some, List, [], ◌∷◌, ◌++◌, Str, codes, ℤ, print_int}
use sdnagent.SecFlows.{FlowSpec, flow}
use sdnagent.NicFlows.PortMaps.{
  PortMapping, proto_text, remotes, source_text, learn_prefix, flat_map, reply_flow, all_mappings,
}

-- The learned flows of eachGuestNicPortMappingFlowsLocal.
unfoldable pub learn_nat_local : Str → Str → PortMapping → Str
unfolding learn_prefix
learn_nat_local in_port nic_ip pm =
    let p = proto_text pm.protocol in
    (learn_prefix in_port nic_ip pm
      ++ (codes
            ",load:NXM_OF_ETH_DST[]->NXM_OF_ETH_SRC[],load:NXM_OF_ETH_SRC[]->NXM_OF_ETH_DST[],load:NXM_OF_IP_DST[]->NXM_OF_IP_SRC[],load:NXM_OF_IP_SRC[]->NXM_OF_IP_DST[],load:"
          ++ (p.nxm_dst
              ++ (codes "->"
                  ++ (p.nxm_src
                      ++ (codes ",load:"
                          ++ (p.nxm_src
                              ++ (codes "->"
                                  ++ (p.nxm_dst ++ codes ",output:NXM_OF_IN_PORT[]")))))))))

unfoldable pub learn_direct_local : Str → Str → PortMapping → Str
unfolding learn_prefix
learn_direct_local in_port nic_ip pm =
    (learn_prefix in_port nic_ip pm
      ++ codes
          ",load:NXM_OF_ETH_DST[]->NXM_OF_ETH_SRC[],load:NXM_OF_ETH_SRC[]->NXM_OF_ETH_DST[],output:NXM_OF_IN_PORT[]")

unfoldable pub local_flows : PortMapping → ℤ → Str → Str → Str → Str → Str → Str → List FlowSpec
unfolding learn_nat_local learn_direct_local source_text
local_flows pm host_port master_ip gw_mac in_port nic_ip nic_mac remote =
    flow 0 28_200
      (codes "ip,"
        ++ (source_text remote
            ++ (pm.protocol
                ++ (codes ",nw_dst=" ++ (master_ip ++ (codes ",tp_dst=" ++ print_int host_port))))))
      (codes "learn(table=10,"
        ++ (learn_nat_local in_port nic_ip pm
            ++ (codes "),mod_dl_src:"
                ++ (gw_mac
                    ++ (codes ",mod_dl_dst:"
                        ++ (nic_mac
                            ++ (codes ",mod_nw_dst:"
                                ++ (nic_ip
                                    ++ (codes ",mod_tp_dst:"
                                        ++ (print_int pm.port
                                            ++ (codes ",output:" ++ in_port)))))))))))
    ∷ flow 0 28_205
        (codes "ip,"
          ++ (source_text remote
              ++ (codes "nw_dst="
                  ++ (nic_ip
                      ++ (codes "," ++ (pm.protocol ++ (codes ",tp_dst=" ++ print_int pm.port)))))))
        (codes "learn(table=10,"
          ++ (learn_direct_local in_port nic_ip pm
              ++ (codes "),mod_dl_dst:" ++ (nic_mac ++ (codes ",output:" ++ in_port)))))
    ∷ []

-- eachGuestNicPortMappingFlowsLocal, with the port's number as a text.
unfoldable pub each_port_mapping_flows_local :
    PortMapping → Str → Str → Str → Str → Str → Option (List FlowSpec)
unfolding local_flows remotes flat_map reply_flow
each_port_mapping_flows_local pm master_ip gw_mac in_port nic_ip nic_mac = elim pm.host_port [
  | none ↦ none
  | some host_port ↦ some (
      flat_map (local_flows pm host_port master_ip gw_mac in_port nic_ip nic_mac) (remotes pm)
      ++ reply_flow pm in_port nic_ip (codes "resubmit(,10)") ∷ [])
]

-- guestNicPortMappingFlowsLocal
unfoldable pub port_mapping_flows_local :
    List PortMapping → Str → Str → Str → Str → Str → Option (List FlowSpec)
unfolding each_port_mapping_flows_local all_mappings
port_mapping_flows_local pms master_ip gw_mac in_port nic_ip nic_mac =
    all_mappings (λ pm. each_port_mapping_flows_local pm master_ip gw_mac in_port nic_ip nic_mac)
      pms
