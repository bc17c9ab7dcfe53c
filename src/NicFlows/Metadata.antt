-- ===== src/NicFlows/Metadata.antt =====
-- pkg/agent/utils/flowsource.go: the flows of FlowsMapForNic for the metadata service.
use sdnagent.Base.{
  ℕ, suc, ◌+◌, not, ◌&&◌, Option, none, some, List, [], ◌∷◌, ◌++◌, Str, codes, ℤ, print_int,
  if◌then◌else◌,
}
use sdnagent.SecFlows.{FlowSpec, flow, is_empty}
use sdnagent.NicFlows.Md.{fake_md_src_ip_mac, fake_md_src_ip6_mac}
use sdnagent.NicFlows.Defs.{NetLib, NicData, View, fake_arp_resp_actions}

infixl 5 ◌>>=◌
-- The chain of calls, where a panic ends it.
abbrev ◌>>=◌ {ℓ κ} : {A : Type ℓ} {B : Type κ} → Option A → (A → Option B) → Option B
none >>= f = none
some a >>= f = f a

-- What is made of IPv6 addresses: the hardware address and the address of the server's multicast group,
-- and the addresses of the client, of the server, of the metadata service and of the nic.
pub record HexTexts : Type 0 where
  pub mcast_mac : Str
  pub fake_hex : Str
  pub mcast_hex : Str
  pub server_hex : Str
  pub meta_hex : Str
  pub vm_hex : Str
  pub vm_mcast_hex : Str

module _ (lib : NetLib) (nic : NicData) (d : View) where
  -- The metadata service over IPv4.
  unfoldable pub md_flows4 : ℤ → List FlowSpec
  unfolding fake_arp_resp_actions fake_md_src_ip_mac print_int
  md_flows4 md_port =
      let fake = fake_md_src_ip_mac lib.sum d.server_ip d.server_mac nic.port_no in
      let learn =
        (codes
            "learn(table=12,priority=10000,idle_timeout=30,in_port=LOCAL,dl_type=0x0800,nw_proto=6,nw_dst="
          ++ (fake.ip
              ++ (codes ",tcp_src="
                  ++ (print_int md_port
                      ++ codes
                          ",load:NXM_OF_ETH_DST[]->NXM_OF_ETH_SRC[],load:NXM_OF_ETH_SRC[]->NXM_OF_ETH_DST[],load:NXM_OF_IP_DST[]->NXM_OF_IP_SRC[],load:NXM_OF_IP_SRC[]->NXM_OF_IP_DST[],load:0x50->NXM_OF_TCP_SRC[],output:NXM_OF_IN_PORT[]),")))) in
      flow 0 29_301 (codes "in_port=LOCAL,arp,arp_op=1,arp_tpa=" ++ fake.ip)
        (fake_arp_resp_actions fake.mac)
      ∷ flow 0 29_300
          (codes "in_port=" ++ (d.port ++ codes ",tcp,nw_dst=169.254.169.254,tp_dst=80"))
          (learn
            ++ (codes "mod_dl_src:"
                ++ (fake.mac
                    ++ (codes ",mod_dl_dst:"
                        ++ (d.server_mac
                            ++ (codes ",mod_nw_src:"
                                ++ (fake.ip
                                    ++ (codes ",mod_nw_dst:"
                                        ++ (d.server_ip
                                            ++ (codes ",mod_tp_dst:"
                                                ++ (print_int md_port
                                                    ++ (codes "," ++ d.in_port_action))))))))))))
      ∷ []

  -- The addresses in hexadecimal, for one of the server's addresses; `none` is a panic.
  unfoldable pub hex_texts : Str → Option HexTexts
  unfolding fake_md_src_ip6_mac
  hex_texts meta_ip6 =
      let fake = fake_md_src_ip6_mac lib.sum d.server_ip6 d.server_mac nic.port_no meta_ip6 in
      do
        mcast_ip ← lib.solicit_mcast_ip d.server_ip6
        mcast_mac ← lib.solicit_mcast_mac d.server_ip6
        fake_hex ← lib.ip6_to_hex fake.ip
        mcast_hex ← lib.ip6_to_hex mcast_ip
        server_hex ← lib.ip6_to_hex d.server_ip6
        meta_hex ← lib.ip6_to_hex meta_ip6
        vm_hex ← lib.ip6_to_hex nic.ip6
        vm_mcast_hex ← lib.ip6_to_hex nic.ip6_mcast_ip
        some (record {
          mcast_mac = mcast_mac;
          fake_hex = fake_hex;
          mcast_hex = mcast_hex;
          server_hex = server_hex;
          meta_hex = meta_hex;
          vm_hex = vm_hex;
          vm_mcast_hex = vm_mcast_hex;
        })

  -- The metadata service over IPv6, for the server's address with number `i`.
  unfoldable pub md_flows6 : ℤ → ℕ → Str → HexTexts → List FlowSpec
  unfolding fake_md_src_ip6_mac print_int
  md_flows6 md_port i meta_ip6 h =
      let fake = fake_md_src_ip6_mac lib.sum d.server_ip6 d.server_mac nic.port_no meta_ip6 in
      let server_hw = lib.mac_to_hex d.server_mac in
      let fake_hw = lib.mac_to_hex fake.mac in
      let learn_adv =
        (codes
            "learn(table=12,priority=20000,idle_timeout=30,in_port=LOCAL,dl_type=0x86dd,nw_proto=58,icmpv6_type=136,dl_dst="
          ++ (fake.mac
              ++ (codes ",ipv6_dst="
                  ++ (fake.ip
                      ++ (codes ",nd_target="
                          ++ (d.server_ip6
                              ++ (codes ",load:NXM_OF_ETH_SRC[]->NXM_OF_ETH_DST[],load:0x"
                                  ++ (server_hw
                                      ++ (codes
                                            "->NXM_OF_ETH_SRC[],load:NXM_NX_IPV6_SRC[]->NXM_NX_IPV6_DST[],load:NXM_NX_ND_TARGET[]->NXM_NX_IPV6_SRC[],load:NXM_NX_ND_TARGET[]->NXM_NX_ND_TARGET[],load:0x"
                                          ++ (server_hw
                                              ++ codes
                                                  "->NXM_NX_ND_TLL[],output:NXM_OF_IN_PORT[]),")))))))))) in
      let learn_http =
        (codes
            "learn(table=12,priority=10000,idle_timeout=30,in_port=LOCAL,dl_type=0x86dd,nw_proto=6,ipv6_dst="
          ++ (fake.ip
              ++ (codes ",tcp_src="
                  ++ (print_int md_port
                      ++ codes
                          ",load:NXM_OF_ETH_DST[]->NXM_OF_ETH_SRC[],load:NXM_OF_ETH_SRC[]->NXM_OF_ETH_DST[],load:NXM_NX_IPV6_DST[]->NXM_NX_IPV6_SRC[],load:NXM_NX_IPV6_SRC[]->NXM_NX_IPV6_DST[],load:0x50->NXM_OF_TCP_SRC[],output:NXM_OF_IN_PORT[]),")))) in
      flow 0 (40_011 + i)
        (codes "in_port=" ++ (d.port ++ (codes ",ipv6,icmp6,icmp_type=135,nd_target=" ++ meta_ip6)))
        (learn_adv
          ++ (codes "mod_dl_src:"
              ++ (fake.mac
                  ++ (codes ",mod_dl_dst:"
                      ++ (h.mcast_mac
                          ++ (codes ",load:0x"
                              ++ (h.fake_hex
                                  ++ (codes "->NXM_NX_IPV6_SRC[0..127],load:0x"
                                      ++ (h.mcast_hex
                                          ++ (codes "->NXM_NX_IPV6_DST[0..127],load:0x"
                                              ++ (h.server_hex
                                                  ++ (codes "->NXM_NX_ND_TARGET[0..127],load:0x"
                                                      ++ (fake_hw
                                                          ++ codes
                                                            "->NXM_NX_ND_SLL[],local")))))))))))))
      ∷ flow 0 (40_012 + i) (codes "in_port=LOCAL,ipv6,icmp6,icmp_type=135,nd_target=" ++ fake.ip) (
          codes "mod_dl_dst:"
          ++ (nic.ip6_mcast_mac
              ++ (codes ",load:0x"
                  ++ (h.meta_hex
                      ++ (codes "->NXM_NX_IPV6_SRC[0..127],load:0x"
                          ++ (h.vm_mcast_hex
                              ++ (codes "->NXM_NX_IPV6_DST[0..127],load:0x"
                                  ++ (h.vm_hex
                                      ++ (codes "->NXM_NX_ND_TARGET[0..127],output:"
                                          ++ d.port)))))))))
      ∷ flow 0 (40_013 + i)
          (codes "in_port="
            ++ (d.port
                ++ (codes ",dl_src="
                    ++ (nic.mac
                        ++ (codes ",dl_dst="
                            ++ (d.server_mac
                                ++ (codes ",ipv6_src="
                                    ++ (nic.ip6
                                        ++ (codes ",ipv6_dst="
                                            ++ (meta_ip6
                                                ++ (codes ",icmp6,icmp_type=136,nd_target="
                                                    ++ nic.ip6)))))))))))
          (codes "mod_dl_src:"
            ++ (fake.mac
                ++ (codes ",load:0x"
                    ++ (h.fake_hex
                        ++ (codes "->NXM_NX_IPV6_SRC[0..127],load:0x"
                            ++ (h.server_hex
                                ++ (codes "->NXM_NX_IPV6_DST[0..127],load:0x"
                                    ++ (h.fake_hex
                                        ++ (codes "->NXM_NX_ND_TARGET[0..127],load:0x"
                                            ++ (fake_hw ++ codes "->NXM_NX_ND_TLL[],local"))))))))))
      ∷ flow 0 (29_301 + i)
          (codes "in_port="
            ++ (d.port ++ (codes ",ipv6,tcp6,ipv6_dst=" ++ (meta_ip6 ++ codes ",tp_dst=80"))))
          (learn_http
            ++ (codes "mod_dl_src:"
                ++ (fake.mac
                    ++ (codes ",mod_dl_dst:"
                        ++ (d.server_mac
                            ++ (codes ",load:0x"
                                ++ (h.fake_hex
                                    ++ (codes "->NXM_NX_IPV6_SRC[0..127],load:0x"
                                        ++ (h.server_hex
                                            ++ (codes "->NXM_NX_IPV6_DST[0..127],mod_tp_dst:"
                                                ++ (print_int md_port
                                                    ++ (codes "," ++ d.in_port_action))))))))))))
      ∷ []

  -- The loop over the metadata server's IPv6 addresses, from a number on; `none` is a panic.
  unfoldable pub md_flows6_from : ℤ → ℕ → List Str → Option (List FlowSpec)
  unfolding md_flows6 hex_texts
  md_flows6_from md_port i [] = some []
  md_flows6_from md_port i (meta_ip6 ∷ rest) =
      let more = md_flows6_from md_port (suc i) rest in
      elim (hex_texts meta_ip6) [
        | none ↦ none
        | some h ↦ elim more [
          | none ↦ none
          | some flows ↦ some (md_flows6 md_port i meta_ip6 h ++ flows)
        ]
      ]

  -- Over IPv6, where the multicast address of the server is read before the loop.
  unfoldable pub md_flows6_all : ℤ → List Str → Option (List FlowSpec)
  unfolding md_flows6_from
  md_flows6_all md_port metadata_ip6s =
      if not (is_empty d.server_ip6) && not (is_empty nic.ip6)
      then elim (lib.solicit_mcast_ip d.server_ip6) [
        | none ↦ none
        | some mcast_ip ↦ elim (lib.solicit_mcast_mac d.server_ip6) [
          | none ↦ none
          | some mcast_mac ↦ md_flows6_from md_port 0 metadata_ip6s
        ]
      ]
      else some []

  -- The flows of the metadata service; `none` is a panic.
  unfoldable pub md_flows : List Str → Option (List FlowSpec)
  unfolding md_flows4 md_flows6_all
  md_flows metadata_ip6s = elim d.server_port [
    | none ↦ some []
    | some md_port ↦ elim (md_flows6_all md_port metadata_ip6s) [
      | none ↦ none
      | some flows6 ↦ some (
          (if not (is_empty d.server_ip) && not (is_empty nic.ip) then md_flows4 md_port else [])
          ++ flows6)
    ]
  ]
