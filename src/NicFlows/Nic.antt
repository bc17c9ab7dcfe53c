-- ===== src/NicFlows/Nic.antt =====
-- pkg/agent/utils/flowsource.go: the flows of a nic beside those of the metadata service, the port
-- mappings and the security rules.
use sdnagent.Base.{
  ℕ, Bool, not, Option, none, some, List, [], ◌∷◌, ◌++◌, Str, codes, print_int, if◌then◌else◌,
}
use sdnagent.SecFlows.{FlowSpec, flow, is_empty}
use sdnagent.NicFlows.Defs.{NicData, HostConf, View, fake_arp_resp_actions}

-- The addresses that eachIP goes through.
abbrev pub ips_of : NicData → List Str
ips_of nic = nic.sub_ips ++ (if is_empty nic.ip then [] else nic.ip ∷ [])

unfoldable pub for_ips : (Str → List FlowSpec) → List Str → List FlowSpec
for_ips f [] = []
for_ips f (ip ∷ ips) = f ip ++ for_ips f ips

module _ (conf : HostConf) (nic : NicData) (d : View) where
  -- DHCP, router solicitations, and what comes from the host.
  unfoldable pub service_flows : List FlowSpec
  unfolding print_int
  service_flows =
      flow 0 28_400 (codes "in_port=" ++ (d.port ++ codes ",ip,udp,tp_src=68,tp_dst=67"))
        (codes "mod_tp_dst:" ++ (print_int conf.dhcp_port ++ codes ",local"))
      ∷ flow 0 28_300
          (codes "in_port=LOCAL,dl_dst="
            ++ (nic.mac
                ++ (codes ",ip,udp,tp_src=" ++ (print_int conf.dhcp_port ++ codes ",tp_dst=68"))))
          (codes "mod_tp_src:67,output:" ++ d.port)
      ∷ flow 0 28_400 (codes "in_port=" ++ (d.port ++ codes ",ipv6,udp6,tp_src=546,tp_dst=547")) (
          codes "mod_dl_dst:"
          ++ (d.mac_phy ++ (codes ",mod_tp_dst:" ++ (print_int conf.dhcp6_port ++ codes ",local"))))
      ∷ flow 0 28_300
          (codes "in_port=LOCAL,dl_dst="
            ++ (nic.mac
                ++ (codes ",ipv6,udp6,tp_src="
                    ++ (print_int conf.dhcp6_port ++ codes ",tp_dst=546"))))
          (codes "mod_tp_src:547,output:" ++ d.port)
      ∷ flow 0 28_400 (codes "in_port=" ++ (d.port ++ codes ",ipv6,icmp6,icmp_type=133"))
          (codes "mod_dl_dst:" ++ (d.mac_phy ++ codes ",local"))
      ∷ flow 0 28_300
          (codes "in_port=LOCAL,dl_dst=" ++ (nic.mac ++ codes ",ipv6,icmp6,icmp_type=134"))
          (codes "mod_dl_dst:33:33:00:00:00:01,output:" ++ d.port)
      ∷ flow 0 26_700
          (codes "in_port="
            ++ (d.phy ++ (codes ",dl_dst=" ++ (nic.mac ++ (codes "," ++ d.dl_vlan)))))
          (codes "normal")
      ∷ []

  -- Without a check of the source's hardware address.
  unfoldable pub unchecked_flows : List FlowSpec
  unchecked_flows =
      flow 0 24_670 (codes "in_port=" ++ d.port) (codes "normal")
      ∷ (if is_empty nic.ip6
          then []
          else flow 0 27_770 (codes "in_port=" ++ (d.port ++ codes ",ipv6,icmp6,icmp_type=135"))
              (codes "normal")
            ∷ flow 0 27_770 (codes "in_port=" ++ (d.port ++ codes ",ipv6,icmp6,icmp_type=136"))
                (codes "normal")
            ∷ [])

  -- What every flow for packets of the nic begins with, and the same for ARP.
  abbrev pub from_nic : Str → Str
  from_nic m = (codes "in_port=" ++ (d.port ++ (codes ",dl_src=" ++ (nic.mac ++ (codes "," ++ m)))))

  abbrev pub arp_from_nic : Str → Str
  arp_from_nic m =
      (codes "in_port="
        ++ (d.port ++ (codes ",arp,dl_src=" ++ (nic.mac ++ (codes ",arp_sha=" ++ (nic.mac ++ m))))))

  abbrev pub arp_request_from_nic : Str → Str
  arp_request_from_nic m =
      (codes "in_port=" ++ (d.port ++ (codes ",arp,arp_op=1,dl_src=" ++ (nic.mac ++ m))))

  -- ARP and neighbour discovery without a check of the source's IP address.
  unfoldable pub mac_checked_arp : List FlowSpec
  mac_checked_arp =
      flow 0 27_770 (arp_from_nic []) (codes "normal")
      ∷ (if is_empty nic.ip6
          then []
          else flow 0 27_770 (from_nic (codes "ipv6,icmp6,icmp_type=135")) (codes "normal")
            ∷ flow 0 27_770 (from_nic (codes "ipv6,icmp6,icmp_type=136")) (codes "normal")
            ∷ [])

  -- The two answers to ARP requests of a nic on a network of this host, for an address.
  unfoldable pub arp_answers : Str → Str → Str → List FlowSpec
  unfolding fake_arp_resp_actions print_int
  arp_answers hw gw_net ip =
      flow 0 39_011
        (codes "in_port=LOCAL,arp,arp_op=1,arp_spa=" ++ (nic.gateway ++ (codes ",arp_tpa=" ++ ip)))
        (fake_arp_resp_actions nic.mac)
      ∷ flow 0 39_010
          (arp_request_from_nic (
            codes ",arp_sha="
            ++ (nic.mac
                ++ (codes ",arp_spa="
                    ++ (ip
                        ++ (codes ",arp_tpa="
                            ++ (gw_net ++ (codes "/" ++ print_int nic.masklen))))))))
          (fake_arp_resp_actions hw)
      ∷ []

  -- ARP and neighbour discovery with the check; `gw_net` is the gateway's network.
  unfoldable pub ip_checked_arp : Bool → Str → Option Str → List FlowSpec
  unfolding arp_answers for_ips
  ip_checked_arp host_local hw gw_net =
      (if is_empty nic.ip
        then []
        else if host_local
        then elim gw_net [ none ↦ [] | some net ↦ for_ips (arp_answers hw net) (ips_of nic) ]
        else for_ips
            (λ ip. flow 0 27_770 (arp_from_nic (codes ",arp_spa=" ++ ip)) (codes "normal") ∷ [])
            (ips_of nic))
      ++ (if is_empty nic.ip6
          then []
          else flow 0 27_774
              (from_nic (codes "ipv6,ipv6_src=" ++ (nic.ip6 ++ codes ",icmp6,icmp_type=135")))
              (codes "normal")
            ∷ flow 0 27_773
                (from_nic
                  (codes "ipv6,ipv6_src=" ++ (nic.ip6_local ++ codes ",icmp6,icmp_type=135")))
                (codes "normal")
            ∷ flow 0 27_772
                (from_nic (codes "ipv6,ipv6_src=" ++ (nic.ip6 ++ codes ",icmp6,icmp_type=136")))
                (codes "normal")
            ∷ flow 0 27_771
                (from_nic
                  (codes "ipv6,ipv6_src=" ++ (nic.ip6_local ++ codes ",icmp6,icmp_type=136")))
                (codes "normal")
            ∷ [])

  -- Three flows: from the wire, from the nic, and to the nic.
  unfoldable pub three_flows : ℕ → ℕ → ℕ → Str → Str → Str → List FlowSpec
  three_flows wire vm any dst src actions =
      flow 0 wire
        (codes "in_port="
          ++ (d.phy
              ++ (codes ",dl_dst="
                  ++ (nic.mac ++ (codes "," ++ (d.dl_vlan ++ (codes "," ++ dst)))))))
        actions
      ∷ flow 0 vm (from_nic src) actions
      ∷ flow 0 any (codes "dl_dst=" ++ (nic.mac ++ (codes "," ++ dst))) actions
      ∷ []

  abbrev pub allow_flows : Str → Str → List FlowSpec
  allow_flows dst src = three_flows 26_870 25_870 24_770 dst src (codes "normal")

  abbrev pub drop_flows : Str → List FlowSpec
  drop_flows m = three_flows 26_860 25_860 24_760 m m (codes "drop")

  -- The flows in place of those of the security rules.
  unfoldable pub open_flows : Bool → List FlowSpec
  unfolding three_flows for_ips
  open_flows src_ip_check =
      if not src_ip_check
      then allow_flows (codes "ip") (codes "ip")
        ++ (if is_empty nic.ip6 then [] else allow_flows (codes "ipv6") (codes "ipv6"))
      else (if is_empty nic.ip
          then []
          else for_ips (λ ip. allow_flows (codes "ip,nw_dst=" ++ ip) (codes "ip,nw_src=" ++ ip))
              (ips_of nic)
            ++ drop_flows (codes "ip"))
        ++ (if is_empty nic.ip6
            then []
            else allow_flows (codes "ipv6,ipv6_dst=" ++ nic.ip6) (codes "ipv6,ipv6_src=" ++ nic.ip6)
              ++ three_flows 26_871 25_871 24_771 (codes "ipv6,ipv6_dst=" ++ nic.ip6_local)
                  (codes "ipv6,ipv6_src=" ++ nic.ip6_local) (codes "normal")
              ++ drop_flows (codes "ipv6"))

  unfoldable pub last_drops : List FlowSpec
  last_drops =
      flow 0 25_760 (codes "in_port=" ++ (d.port ++ codes ",arp")) (codes "drop")
      ∷ flow 0 24_660 (codes "in_port=" ++ d.port) (codes "drop")
      ∷ []
