-- ===== src/NicFlows/HostDrop.antt =====
-- pkg/agent/utils/flowsource.go: what the flows of a host do with packets from the wire.
use sdnagent.Base.{
  ℕ, suc, Bool, true, false, ◌||◌, some, List, [], ◌∷◌, ◌++◌, Str, codes, ◌≡◌, refl, ap, ◌∙◌,
}
use sdnagent.SecFlows.Order.{winner, better}
use sdnagent.SecFlows.Falling.{actions_of}
use sdnagent.SecFlows.Tables.{table_flows}
use sdnagent.NicFlows.Misses.{Misses, no_flow, next, append-Misses, if-Misses, winner-append_missed}
use sdnagent.NicFlows.Host.{
  HostLocal, ip4_flows, ip6_flows, nd_drops, mapped_flows, net_drops, wire_flows, host_flows_before,
  host_flows,
}

module _ (sat : Str → Bool) (sum : Str → ℕ × ℕ) (h : HostLocal) (phy : Str) where
  -- A packet from the wire for another host, neither multicast, ARP nor neighbour discovery.
  pub record IsStray : Type 0 where
    pub from_wire : sat (codes "in_port=" ++ phy) ≡ true
    pub not_mine : sat (codes "in_port=" ++ (phy ++ (codes ",dl_dst=" ++ h.mac))) ≡ false
    pub not_multicast :
        (m : Str) → sat (codes "dl_dst=01:00:00:00:00:00/01:00:00:00:00:00" ++ m) ≡ false
    pub not_multicast_in :
        sat (codes "in_port=" ++ (phy ++ codes ",dl_dst=01:00:00:00:00:00/01:00:00:00:00:00"))
        ≡ false
    pub not_local : (m : Str) → sat (codes "in_port=LOCAL" ++ m) ≡ false
    pub not_arp : (m : Str) → sat (codes "arp," ++ m) ≡ false
    pub not_arp_in : (m : Str) → sat (codes "in_port=" ++ (phy ++ (codes ",arp," ++ m))) ≡ false
    pub not_icmp6 : (m : Str) → sat (codes "ipv6,icmp6," ++ m) ≡ false
    pub not_icmp6_in :
        (m : Str) → sat (codes "in_port=" ++ (phy ++ (codes ",ipv6,icmp6," ++ m))) ≡ false

  module _ (s : IsStray) where
    nd_drops-Misses : (i : ℕ) (ips : List Str) → Misses sat (nd_drops sum h phy i ips)
    unfolding nd_drops
    nd_drops-Misses i [] = no_flow
    nd_drops-Misses i (ip ∷ ips) = next (s.not_icmp6_in _) (nd_drops-Misses (suc i) ips)

    net_drops-Misses : (nets : List Str) → Misses sat (net_drops sum h nets)
    unfolding net_drops
    net_drops-Misses [] = no_flow
    net_drops-Misses (net ∷ nets) = next (s.not_arp _) (next (s.not_arp _) (net_drops-Misses nets))

    ip4_flows-Misses : Misses sat (ip4_flows sum h phy)
    unfolding ip4_flows
    ip4_flows-Misses = next (s.not_arp_in _) (next (s.not_arp _) (next (s.not_local _) no_flow))

    ip6_flows-Misses : Misses sat (ip6_flows sum h phy)
    unfolding ip6_flows
    ip6_flows-Misses = append-Misses sat _ _ (nd_drops-Misses 0 h.metadata_ip6s) (
        next (s.not_multicast _) (
          next (s.not_icmp6_in _) (
            next (s.not_icmp6_in _) (
              next (s.not_local _) (
                next (s.not_local _) (
                  next (s.not_icmp6_in _) (
                    next (s.not_icmp6_in _)
                      (next (s.not_local _) (next (s.not_icmp6 _) no_flow)))))))))

    mapped_flows-Misses : Misses sat (mapped_flows sum h)
    unfolding mapped_flows
    mapped_flows-Misses = next refl (
        next refl (
          next refl (
            next refl (
              next refl (
                next refl (
                  next refl (
                    next refl (
                      next refl (
                        next refl (
                          next refl
                            (next refl (next refl (next refl (next refl no_flow))))))))))))))

    host_flows_before-Misses : Misses sat (host_flows_before sum h true phy)
    unfolding host_flows_before
    host_flows_before-Misses = next (s.not_local []) (
        next s.not_mine (
          append-Misses sat _ _
            (append-Misses sat _ _
              (append-Misses sat _ _ (if-Misses sat h.has_ip4 _ [] ip4_flows-Misses no_flow)
                (if-Misses sat (h.has_ip6 || h.has_ip6_local) _ [] ip6_flows-Misses no_flow))
              mapped_flows-Misses)
            (net_drops-Misses h.local_nets)))

    winner-wire_flows :
        h.allow_switch_vms ≡ false
        → actions_of (winner sat (table_flows 0 (wire_flows sum h phy))) ≡ some (codes "drop")
    unfolding wire_flows winner table_flows better
    winner-wire_flows closed = rw (closed, s.not_multicast_in, s.from_wire) refl

    -- Unless switch VMs are allowed, the flows of a host with a port to the wire drop every packet that
    -- comes in there for a hardware address that is not the host's and is neither multicast, ARP nor
    -- ICMPv6: only flows of a guest can take it in.
    pub host_flows-drop :
        h.allow_switch_vms ≡ false
        → actions_of (winner sat (table_flows 0 (host_flows sum h true phy))) ≡ some (codes "drop")
    unfolding host_flows
    host_flows-drop closed =
        ap actions_of (winner-append_missed sat _ (wire_flows sum h phy) host_flows_before-Misses)
        ∙ winner-wire_flows closed
