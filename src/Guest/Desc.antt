-- ===== src/Guest/Desc.antt =====
-- pkg/agent/utils/guest.go: a guest and what LoadDesc makes of its decoded description. `Rules` and
-- `new_rules` are SecurityRules and NewSecurityRules.
use sdnagent.Base.{
  ℕ, ◌-◌, ◌%◌, Bool, true, false, not, ◌&&◌, ◌||◌, Option, none, some, List, [], ◌∷◌, ◌++◌, ℤ, pos,
  negsuc, Str, codes, str_eq, ◌==◌, if◌then◌else◌,
}

-- GuestNICNetworkAddress
pub record NetworkAddress : Type 0 where
  pub type : Str
  pub ip_addr : Str

-- GuestNIC, with the fields that the model reads.
pub record Nic (Rules : Type 0) : Type 0 where
  pub bridge : Str
  pub bw : ℤ
  pub tx_bw_limit : ℤ
  pub rx_bw_limit : ℤ
  pub ifname_host : Str
  pub ip : Str
  pub virtual_ips : List Str
  pub mac : Str
  pub net_id : Str
  pub vpc_provider : Str
  pub ct_zone_id : ℕ
  pub ct_zone_id_set : Bool
  pub port_no : ℤ
  pub security_rules : Option Rules
  pub network_addresses : List NetworkAddress

-- guestDesc; an entry of `nic_secgroups` is an address and its rules.
pub record GuestDesc (Rules : Type 0) : Type 0 where
  pub desc_name : Str
  pub desc_nics : List (Nic Rules)
  pub desc_rules : Str
  pub admin_rules : Str
  pub nic_secgroups : List (Str × Str)
  pub is_master : Bool
  pub desc_slave : Bool
  pub desc_host_id : Str
  pub desc_volatile : Bool
  pub desc_ip_check : Bool
  pub desc_mac_check : Bool

pub record Guest (Rules : Type 0) : Type 0 where
  pub name : Str
  pub rules : Option Rules
  pub nics : List (Nic Rules)
  pub vpc_nics : List (Nic Rules)
  pub host_id : Str
  pub ip_check : Bool
  pub mac_check : Bool
  pub is_slave : Bool
  pub volatile_host : Bool

-- What is left after the loop over the nics: whether it came to its end, and the two lists.
pub record Loaded (Rules : Type 0) : Type 0 where
  pub complete : Bool
  pub kept_nics : List (Nic Rules)
  pub moved_nics : List (Nic Rules)

-- TcData of pkg/agent/utils/tcdata.go.
pub record TcData : Type 0 where
  pub ifname : Str
  pub ingress_mbps : ℕ
  pub egress_mbps : ℕ
  pub tc_bridge : Str
  pub tc_port_no : ℤ

-- `uint64(n)`
abbrev pub to_uint64 : ℤ → ℕ
to_uint64 (pos n) = n % 0x1_0000_0000_0000_0000
to_uint64 (negsuc n) = 0xffff_ffff_ffff_ffff - n % 0x1_0000_0000_0000_0000

-- nicHasDedicatedSecgroups: the rules of the first entry with the address.
unfoldable pub dedicated_rules : Str → List (Str × Str) → Option Str
dedicated_rules mac [] = none
dedicated_rules mac ((m, text) ∷ entries) =
    let rest = dedicated_rules mac entries in if str_eq m mac then some text else rest

unfoldable pub sub_addresses : List NetworkAddress → List Str
sub_addresses [] = []
sub_addresses (na ∷ nas) =
    let rest = sub_addresses nas in
    if str_eq na.type (codes "sub_ip") then na.ip_addr ∷ rest else rest

module _ {Rules : Type 0} where
  -- Limits of 0 give way to the bandwidth.
  unfoldable pub tc_data : Nic Rules → TcData
  tc_data n =
      let limit = λ (l : ℤ). if to_uint64 l == 0 then to_uint64 n.bw else to_uint64 l in
      record {
        ifname = n.ifname_host;
        ingress_mbps = limit n.rx_bw_limit;
        egress_mbps = limit n.tx_bw_limit;
        tc_bridge = n.bridge;
        tc_port_no = n.port_no;
      }

  unfoldable pub sub_ips : Nic Rules → List Str
  unfolding sub_addresses
  sub_ips n = sub_addresses n.network_addresses ++ n.virtual_ips

  -- searchNic of FindNicByNetIdIP
  unfoldable pub search_nic : Str → Str → List (Nic Rules) → Option (Nic Rules)
  search_nic net_id ip [] = none
  search_nic net_id ip (nic ∷ nics) =
      let rest = search_nic net_id ip nics in
      if str_eq nic.net_id net_id && str_eq nic.ip ip then some nic else rest

  unfoldable pub find_nic_by_net_id_ip : Str → Str → Guest Rules → Option (Nic Rules)
  find_nic_by_net_id_ip net_id ip g = elim (search_nic net_id ip g.vpc_nics) [
    | some nic ↦ some nic
    | none ↦ search_nic net_id ip g.nics
  ]

  unfoldable pub is_volatile_host : Guest Rules → Bool
  is_volatile_host g = g.volatile_host || g.is_slave

  -- SrcIpCheck and SrcMacCheck, by AllowRouterVMs and AllowSwitchVMs of the host.
  unfoldable pub src_ip_check : Bool → Guest Rules → Bool
  src_ip_check allow_router_vms g = if allow_router_vms then g.ip_check else true

  unfoldable pub src_mac_check : Bool → Guest Rules → Bool
  src_mac_check allow_switch_vms g = if allow_switch_vms then g.mac_check else true

  unfoldable pub needs_sync : Guest Rules → Bool
  needs_sync g = str_eq g.host_id [] && (elim g.vpc_nics [ [] ↦ false | nic ∷ rest ↦ true ])

  -- GetNicSecurityRules
  unfoldable pub get_nic_security_rules : Guest Rules → Nic Rules → Option Rules
  get_nic_security_rules g nic = elim nic.security_rules [ some rs ↦ some rs | none ↦ g.rules ]

  module _ (new_rules : Str → Option Rules) where
    -- The rules of one nic: `none` is an error.
    unfoldable pub with_rules : List (Str × Str) → Nic Rules → Option (Nic Rules)
    unfolding dedicated_rules
    with_rules secgroups nic = elim (dedicated_rules nic.mac secgroups) [
      | none ↦ some nic
      | some text ↦ elim (new_rules text) [
        | none ↦ none
        | some rs ↦ some (record nic { security_rules = some rs })
      ]
    ]

    -- The loop, which runs from the last nic to the first: nics of a VPC are moved to their own list.
    -- An error leaves the nic that it is met at and those before it as they are.
    unfoldable pub load_nics : List (Str × Str) → List (Nic Rules) → Loaded Rules
    unfolding with_rules
    load_nics secgroups [] = record { complete = true; kept_nics = []; moved_nics = [] }
    load_nics secgroups (nic ∷ nics) =
        let l = load_nics secgroups nics in
        let left = record l { complete = false; kept_nics = nic ∷ l.kept_nics } in
        if l.complete
        then (elim (with_rules secgroups nic) [
          | none ↦ left
          | some nic' ↦
              if str_eq nic'.vpc_provider []
              then record l { kept_nics = nic' ∷ l.kept_nics }
              else record l { moved_nics = l.moved_nics ++ nic' ∷ [] }
        ])
        else left

    -- LoadDesc, given what the file decodes to: `none` if it cannot be opened or decoded. The
    -- Boolean is whether there was no error.
    unfoldable pub load_desc : Option (GuestDesc Rules) → Guest Rules → Guest Rules × Bool
    unfolding load_nics
    load_desc none g = (g, false)
    load_desc (some d) g =
        let g1 = record g {
          name = d.desc_name;
          host_id = d.desc_host_id;
          nics = d.desc_nics;
          vpc_nics = [];
        } in
        elim (new_rules (d.admin_rules ++ codes "; " ++ d.desc_rules)) [
          | none ↦ (g1, false)
          | some rs ↦
              let l = load_nics d.nic_secgroups d.desc_nics in
              let g2 = record g1 { rules = some rs; nics = l.kept_nics; vpc_nics = l.moved_nics } in
              if l.complete
              then (
                record g2 {
                  volatile_host = d.desc_volatile;
                  is_slave = not d.is_master && d.desc_slave;
                  ip_check = d.desc_ip_check && d.desc_mac_check;
                  mac_check = d.desc_mac_check;
                },
                true,
              )
              else (g2, false)
        ]
