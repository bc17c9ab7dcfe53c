-- ===== src/NicFlows/Spoof.antt =====
-- pkg/agent/utils/flowsource.go: packets of a nic that do not carry the nic's hardware address.
use sdnagent.Base.{Bool, true, false, Option, none, some, List, [], ◌∷◌, ◌++◌, Str, codes, ◌≡◌}
use sdnagent.SecFlows.{FlowSpec}
use sdnagent.NicFlows.Defs.{NicData, HostConf, View}
use sdnagent.NicFlows.Nic.{from_nic, arp_from_nic, arp_request_from_nic}
use sdnagent.NicFlows.Misses.{Misses}

module _ (sat : Str → Bool) where
  -- The packet is none of the kind for any of the addresses.
  abbrev pub NoneOf : (Str → Str) → List Str → Type 0
  NoneOf matches [] = Unit {0}
  NoneOf matches (ip ∷ ips) = (sat (matches ip) ≡ false) × NoneOf matches ips

  module _ (conf : HostConf) (nic : NicData) (d : View) where
    -- A neighbour solicitation from the nic's port, and a request of a web page, for an address.
    abbrev pub solicitation_for : Str → Str
    solicitation_for ip =
        (codes "in_port=" ++ (d.port ++ (codes ",ipv6,icmp6,icmp_type=135,nd_target=" ++ ip)))

    abbrev pub request_to : Str → Str
    request_to ip =
        (codes "in_port="
          ++ (d.port ++ (codes ",ipv6,tcp6,ipv6_dst=" ++ (ip ++ codes ",tp_dst=80"))))

    -- A packet from the nic's port that is addressed to another, carries a hardware address that is
    -- not the nic's, and is no request for the services that the host offers: DHCP, the solicitation
    -- of a router, and the metadata service at 169.254.169.254 and at its own IPv6 addresses, with the
    -- solicitation of these.
    pub record IsSpoofed : Type 0 where
      pub from_port : sat (codes "in_port=" ++ d.port) ≡ true
      pub not_own : (m : Str) → sat (from_nic conf nic d m) ≡ false
      pub not_own_md :
          (m : Str)
          → sat (
              codes "in_port="
              ++ (d.port
                  ++ (codes ",dl_src=" ++ (nic.mac ++ (codes ",dl_dst=" ++ (d.server_mac ++ m))))))
            ≡ false
      pub not_own_arp : (m : Str) → sat (arp_from_nic conf nic d m) ≡ false
      pub not_own_request : (m : Str) → sat (arp_request_from_nic conf nic d m) ≡ false
      pub not_host : (m : Str) → sat (codes "in_port=LOCAL," ++ m) ≡ false
      pub not_wire :
          (m : Str)
          → sat (codes "in_port=" ++ (d.phy ++ (codes ",dl_dst=" ++ (nic.mac ++ (codes "," ++ m)))))
            ≡ false
      pub not_to_nic : (m : Str) → sat (codes "dl_dst=" ++ (nic.mac ++ (codes "," ++ m))) ≡ false
      pub not_dhcp :
          sat (codes "in_port=" ++ (d.port ++ codes ",ip,udp,tp_src=68,tp_dst=67")) ≡ false
      pub not_dhcp6 :
          sat (codes "in_port=" ++ (d.port ++ codes ",ipv6,udp6,tp_src=546,tp_dst=547")) ≡ false
      pub not_solicitation :
          sat (codes "in_port=" ++ (d.port ++ codes ",ipv6,icmp6,icmp_type=133")) ≡ false
      pub not_md :
          sat (codes "in_port=" ++ (d.port ++ codes ",tcp,nw_dst=169.254.169.254,tp_dst=80"))
          ≡ false
      pub not_md_nd : NoneOf solicitation_for conf.metadata_ip6s
      pub not_md6 : NoneOf request_to conf.metadata_ip6s

    module _ (s : IsSpoofed) where
      -- Where the list is there, the packet misses each of its flows.
      abbrev MissesAll : Option (List FlowSpec) → Type 0
      MissesAll none = Unit {0}
      MissesAll (some fs) = Misses sat fs
