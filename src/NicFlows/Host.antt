-- ===== src/NicFlows/Host.antt =====
-- pkg/agent/utils/flowsource.go: FlowsMap of a HostLocal.
use sdnagent.Base.{
  ℕ, suc, ◌+◌, Bool, true, false, ◌||◌, Option, none, some, List, [], ◌∷◌, ◌++◌, Str, codes, ℤ, pos,
  negsuc, print_int, if◌then◌else◌,
}
use sdnagent.SecFlows.{FlowSpec, flow, is_empty}
use sdnagent.NicFlows.Md.{FakeClient, fake_md_src_ip_mac, fake_md_src_ip6_mac}
use sdnagent.NicFlows.Defs.{fake_arp_resp_actions, Outcome, failed, FlowsByBridge, made}

-- HostLocal with what it has of HostConfigNetwork and HostConfig; the networks of `local_nets` come as
-- texts of an address and a mask. The addresses are those that String gives, also of nil.
pub record HostLocal : Type 0 where
  pub bridge : Str
  pub ifname : Str
  pub mac : Str
  pub metadata_port : ℤ
  pub has_ip4 : Bool
  pub ip4 : Str
  pub has_ip6 : Bool
  pub has_ip6_local : Bool
  pub ip6_local : Str
  pub metadata_ip6s : List Str
  pub local_nets : List Str
  pub allow_switch_vms : Bool

module _ (sum : Str → ℕ × ℕ) (h : HostLocal) where
  -- The address and the prefix of the clients of the metadata service.
  abbrev pub clients : FakeClient
  clients = fake_md_src_ip_mac sum h.ip4 h.mac (pos 0)

  abbrev pub clients6 : FakeClient
  clients6 = fake_md_src_ip6_mac sum h.ip6_local h.mac (pos 0) []

  -- The answers of the metadata service.
  unfoldable pub reply_flow4 : FlowSpec
  reply_flow4 =
      flow 0 29_310
        (codes "in_port=LOCAL,tcp,dl_dst="
          ++ (clients.mac
              ++ (codes ",nw_dst="
                  ++ (clients.prefix ++ (codes ",tp_src=" ++ print_int h.metadata_port)))))
        (codes "resubmit(,12)")

  unfoldable pub ip4_flows : Str → List FlowSpec
  unfolding fake_arp_resp_actions reply_flow4
  ip4_flows phy =
      flow 0 29_312 (codes "in_port=" ++ (phy ++ codes ",arp,arp_op=1,arp_tpa=169.254.169.254"))
        (codes "drop")
      ∷ flow 0 29_311 (codes "arp,arp_op=1,arp_tpa=169.254.169.254") (fake_arp_resp_actions h.mac)
      ∷ reply_flow4
      ∷ []

  -- The loop over the metadata server's addresses, from a number on.
  unfoldable pub nd_drops : Str → ℕ → List Str → List FlowSpec
  nd_drops phy i [] = []
  nd_drops phy i (ip6 ∷ rest) =
      flow 0 (40_013 + i)
        (codes "in_port=" ++ (phy ++ (codes ",ipv6,icmp6,icmp_type=135,nd_target=" ++ ip6)))
        (codes "drop")
      ∷ nd_drops phy (suc i) rest

  unfoldable pub ip6_flows : Str → List FlowSpec
  unfolding nd_drops print_int
  ip6_flows phy =
      nd_drops phy 0 h.metadata_ip6s
      ++ flow 0 40_000
          (codes "dl_dst=01:00:00:00:00:00/01:00:00:00:00:00,ipv6,icmp6,ipv6_dst=ff02::/64")
          (codes "normal")
        ∷ flow 0 30_001 (codes "in_port=" ++ (phy ++ codes ",ipv6,icmp6,icmp_type=135"))
            (codes "normal")
        ∷ flow 0 30_002 (codes "in_port=" ++ (phy ++ codes ",ipv6,icmp6,icmp_type=136"))
            (codes "normal")
        ∷ flow 0 30_003 (codes "in_port=LOCAL,ipv6,icmp6,icmp_type=135") (codes "normal")
        ∷ flow 0 30_004 (codes "in_port=LOCAL,ipv6,icmp6,icmp_type=136") (codes "normal")
        ∷ flow 0 40_001 (codes "in_port=" ++ (phy ++ codes ",ipv6,icmp6,icmp_type=133"))
            (codes "mod_dl_dst:" ++ (h.mac ++ codes ",local"))
        ∷ flow 0 40_002 (codes "in_port=" ++ (phy ++ codes ",ipv6,icmp6,icmp_type=134"))
            (codes "mod_dl_dst:" ++ (h.mac ++ codes ",local"))
        ∷ flow 0 29_310
            (codes "in_port=LOCAL,ipv6,tcp6,dl_dst="
              ++ (clients6.mac
                  ++ (codes ",ipv6_dst="
                      ++ (clients6.prefix ++ (codes ",tp_src=" ++ print_int h.metadata_port)))))
            (codes "resubmit(,12)")
        ∷ flow 0 40_050
            (codes "ipv6,icmp6,icmp_type=136,dl_dst="
              ++ (clients6.mac ++ (codes ",ipv6_dst=" ++ clients6.prefix)))
            (codes "resubmit(,12)")
        ∷ []

  -- Table 9 follows the connections of mapped ports: register 0 is 4 for answers of a nic, and 1 or 2 for
  -- requests to a port of the bridge or to the host.
  unfoldable pub mapped_flows : List FlowSpec
  mapped_flows =
      flow 9 40_001 (codes "tcp,ct_state=-trk") (codes "ct(table=9)")
      ∷ flow 9 40_000 (codes "udp,ct_state=-trk") (codes "ct(table=9)")
      ∷ flow 9 31_001 (codes "reg0=0x4,tcp,ct_state=+new+trk") (codes "drop")
      ∷ flow 9 31_000 (codes "reg0=0x4,udp,ct_state=+new+trk") (codes "drop")
      ∷ flow 9 30_001 (codes "reg0=0x1,tcp,ct_state=+new+trk")
          (codes "ct(commit),output:NXM_NX_REG1[]")
      ∷ flow 9 30_000 (codes "reg0=0x1,udp,ct_state=+new+trk")
          (codes "ct(commit),output:NXM_NX_REG1[]")
      ∷ flow 9 30_001 (codes "reg0=0x2,tcp,ct_state=+new+trk") (codes "ct(commit),local")
      ∷ flow 9 30_000 (codes "reg0=0x2,udp,ct_state=+new+trk") (codes "ct(commit),local")
      ∷ flow 9 20_003 (codes "reg0=0x4,tcp,ct_state=+est+trk") (codes "resubmit(,10)")
      ∷ flow 9 20_002 (codes "reg0=0x4,udp,ct_state=+est+trk") (codes "resubmit(,10)")
      ∷ flow 9 10_001 (codes "reg0=0x1,tcp,ct_state=+est+trk") (codes "output:NXM_NX_REG1[]")
      ∷ flow 9 10_000 (codes "reg0=0x1,udp,ct_state=+est+trk") (codes "output:NXM_NX_REG1[]")
      ∷ flow 9 10_001 (codes "reg0=0x2,tcp,ct_state=+est+trk") (codes "local")
      ∷ flow 9 10_000 (codes "reg0=0x2,udp,ct_state=+est+trk") (codes "local")
      ∷ flow 9 1000 [] (codes "drop")
      ∷ []

  -- The addresses of the host's own networks do not leave it.
  unfoldable pub net_drops : List Str → List FlowSpec
  net_drops [] = []
  net_drops (net ∷ nets) =
      flow 0 39_000 (codes "arp,arp_tpa=" ++ net) (codes "drop")
      ∷ flow 0 39_001 (codes "arp,arp_spa=" ++ net) (codes "drop")
      ∷ net_drops nets

  unfoldable pub wire_flows : Str → List FlowSpec
  wire_flows phy =
      if h.allow_switch_vms
      then flow 0 23_700 (codes "in_port=" ++ phy) (codes "normal") ∷ []
      else flow 0 23_600
          (codes "in_port=" ++ (phy ++ codes ",dl_dst=01:00:00:00:00:00/01:00:00:00:00:00"))
          (codes "normal")
        ∷ flow 0 23_500 (codes "in_port=" ++ phy) (codes "drop")
        ∷ []

  -- The flows before those of the wire that come last; `wired` is whether there is a port to it.
  unfoldable pub host_flows_before : Bool → Str → List FlowSpec
  unfolding ip4_flows ip6_flows mapped_flows net_drops
  host_flows_before wired phy =
      flow 0 27_200 (codes "in_port=LOCAL") (codes "normal")
        ∷ (if wired
            then flow 0 26_900 (codes "in_port=" ++ (phy ++ (codes ",dl_dst=" ++ h.mac)))
                (codes "normal")
              ∷ []
            else [])
      ++ (if h.has_ip4 then ip4_flows phy else [])
      ++ (if h.has_ip6 || h.has_ip6_local then ip6_flows phy else [])
      ++ (if wired then mapped_flows else flow 10 1000 [] (codes "drop") ∷ [])
      ++ net_drops h.local_nets

  unfoldable pub host_flows : Bool → Str → List FlowSpec
  unfolding host_flows_before wire_flows
  host_flows wired phy = host_flows_before wired phy ++ (if wired then wire_flows phy else [])

  -- portNoPhy >= 0
  abbrev pub at_least_zero : ℤ → Bool
  at_least_zero (pos n) = true
  at_least_zero (negsuc n) = false

  -- FlowsMap, by what UnmarshalText accepts, and by what DumpPort says of the bridge and the interface,
  -- whose error is that of FlowsMap.
  unfoldable pub host_flows_map : (FlowSpec → Bool) → (Str → Str → Option ℤ) → Outcome FlowsByBridge
  unfolding host_flows print_int made
  host_flows_map accepts dump_port =
      elim (if is_empty h.ifname then some (negsuc 0) else dump_port h.bridge h.ifname) [
        | none ↦ failed
        | some phy ↦ made accepts ((h.bridge, host_flows (at_least_zero phy) (print_int phy)) ∷ [])
      ]
