-- ===== src/SecFlows/Defs.antt =====
-- pkg/agent/utils/flowsource.go: F, SecurityRules.Flows and eachIP. A list of flows is that of
-- the calls of F; `make_flows` is what these calls come to. `R`,
-- `allow` and `matches` are SecurityRule with OvsActionAllow and OvsMatches.
use sdnagent.Base.{
  ℕ, zero, suc, Bool, true, false, Option, none, some, List, [], ◌∷◌, ◌++◌, Str, codes, ℤ, pos,
  negsuc, print_dec, print_hex, compare_int, is_gt, if◌then◌else◌,
}

-- The arguments of F.
pub record FlowSpec : Type 0 where
  pub table : ℕ
  pub priority : ℤ
  pub matches : Str
  pub actions : Str

-- The data of the templates, as they print, with what Flows asks of the guest and the nic. `dl_vlan` is
-- the value of `_dl_vlan`, `ct_zone` that of CT_ZONE, an `uint16`.
pub record FlowData : Type 0 where
  pub mac : Str
  pub port_no : Str
  pub port_no_phy : Str
  pub dl_vlan : Str
  pub ip : Str
  pub ip6 : Str
  pub sub_ips : List Str
  pub ct_zone : ℕ
  pub src_ip_check : Bool
  pub allow_conntrack_invalid : Bool

abbrev pub is_empty : Str → Bool
is_empty [] = true
is_empty (c ∷ cs) = false

-- The text that F prints, by its parts.
abbrev pub flow : ℕ → ℕ → Str → Str → FlowSpec
flow t p m a = record { table = t; priority = pos p; matches = m; actions = a }

-- F, for each of its calls, where `accepts` is UnmarshalText without an error: `none` is a panic.
unfoldable pub make_flows : (FlowSpec → Bool) → List FlowSpec → Option (List FlowSpec)
make_flows accepts [] = some []
make_flows accepts (f ∷ fs) =
    let rest = make_flows accepts fs in
    if accepts f then (elim rest [ none ↦ none | some fs' ↦ some (f ∷ fs') ]) else none

-- `i - 1`
unfoldable pub pred_int : ℤ → ℤ
pred_int (pos zero) = negsuc 0
pred_int (pos (suc n)) = pos n
pred_int (negsuc n) = negsuc (suc n)

-- `load:%s->NXM_NX_REG0[0..15]` and REG1. CT_ZONE is compared with the int 0 as an interface value,
-- which no `uint16` equals, so that the text is always of the form 0x.
unfoldable pub load_zone : Str → FlowData → Str
unfolding print_hex
load_zone reg d =
    codes "load:0x" ++ print_hex d.ct_zone ++ codes "->NXM_NX_" ++ reg ++ codes "[0..15]"

abbrev pub load_zone_src : FlowData → Str
load_zone_src d = load_zone (codes "REG0") d

abbrev pub load_zone_dst : FlowData → Str
load_zone_dst d = load_zone (codes "REG1") d

-- loadZone and the template `,ct(table=1,zone={{.CT_ZONE}})`
unfoldable pub to_ct : FlowData → Str
unfolding load_zone print_dec
to_ct d = load_zone_src d ++ codes ",ct(table=1,zone=" ++ print_dec d.ct_zone ++ codes ")"

abbrev load_vm_bit : Str
load_vm_bit = codes "load:0x1->NXM_NX_REG0[16],"

abbrev in_port_vm : Str
in_port_vm = codes "reg0=0x10000/0x10000"

abbrev in_port_not_vm : Str
in_port_not_vm = codes "reg0=0x0/0x10000"

-- Packets from the wire to the nic, from the nic, and to the nic.
abbrev wire_match : FlowData → Str → Str
wire_match d m =
    codes "in_port="
    ++ d.port_no_phy
    ++ codes ",dl_dst="
    ++ d.mac
    ++ codes ","
    ++ d.dl_vlan
    ++ codes ","
    ++ m

abbrev vm_match : FlowData → Str → Str
vm_match d m = codes "in_port=" ++ d.port_no ++ codes ",dl_src=" ++ d.mac ++ codes "," ++ m

abbrev dst_match : FlowData → Str → Str
dst_match d m = codes "dl_dst=" ++ d.mac ++ codes "," ++ m

-- The three flows that send packets on to table 1, by what is to match of the destination's and the
-- source's address.
unfoldable pub admit_flows : FlowData → Str → Str → List FlowSpec
unfolding to_ct
admit_flows d dst src =
    flow 0 26_870 (wire_match d dst) (to_ct d)
    ∷ flow 0 25_870 (vm_match d src) (load_vm_bit ++ to_ct d)
    ∷ flow 0 24_770 (dst_match d dst) (to_ct d)
    ∷ []

unfoldable pub reject_flows : FlowData → Str → List FlowSpec
reject_flows d m =
    flow 0 26_860 (wire_match d m) (codes "drop")
    ∷ flow 0 25_860 (vm_match d m) (codes "drop")
    ∷ flow 0 24_760 (dst_match d m) (codes "drop")
    ∷ []

-- eachIP, over the addresses of SubIPs and the nic's own.
unfoldable pub each_ip : FlowData → List Str → List FlowSpec
unfolding admit_flows
each_ip d [] = []
each_ip d (ip ∷ ips) =
    admit_flows d (codes "ip,nw_dst=" ++ ip) (codes "ip,nw_src=" ++ ip) ++ each_ip d ips

unfoldable pub checked_flows : FlowData → List FlowSpec
checked_flows d =
    (if is_empty d.ip
      then []
      else each_ip d (d.sub_ips ++ d.ip ∷ []) ++ reject_flows d (codes "ip"))
    ++ (if is_empty d.ip6
        then []
        else admit_flows d (codes "ipv6,ipv6_dst=" ++ d.ip6) (codes "ipv6,ipv6_src=" ++ d.ip6)
          ++ reject_flows d (codes "ipv6"))

-- Table 0.
unfoldable pub entry_flows : FlowData → List FlowSpec
entry_flows d =
    flow 0 27_300 (codes "in_port=LOCAL,dl_dst=" ++ d.mac ++ codes ",ip") (to_ct d)
      ∷ flow 0 27_300 (codes "in_port=LOCAL,dl_dst=" ++ d.mac ++ codes ",ipv6") (to_ct d)
      ∷ (if d.src_ip_check
          then checked_flows d
          else admit_flows d (codes "ip") (codes "ip")
            ++ admit_flows d (codes "ipv6") (codes "ipv6"))
    ++ flow 0 25_600 (codes "in_port=" ++ d.port_no ++ codes ",dl_src=" ++ d.mac) (codes "normal")
      ∷ []

-- Tables 1 and 4.
unfoldable pub state_flows : FlowData → List FlowSpec
unfolding load_zone
state_flows d =
    (if d.allow_conntrack_invalid
      then flow 1 7650 (codes "ip,ct_state=+inv+trk," ++ in_port_not_vm) (codes "resubmit(,3)")
        ∷ flow 1 7650 (codes "ipv6,ct_state=+inv+trk," ++ in_port_not_vm) (codes "resubmit(,3)")
        ∷ flow 1 7640 (codes "ip,ct_state=+inv+trk," ++ in_port_vm) (codes "resubmit(,2)")
        ∷ flow 1 7640 (codes "ipv6,ct_state=+inv+trk," ++ in_port_vm) (codes "resubmit(,2)")
        ∷ []
      else flow 1 7900 (codes "ip,ct_state=+inv+trk") (codes "drop")
        ∷ flow 1 7900 (codes "ipv6,ct_state=+inv+trk") (codes "drop")
        ∷ [])
    ++ flow 1 7800 (codes "ip,ct_state=+new+trk," ++ in_port_not_vm) (codes "resubmit(,3)")
      ∷ flow 1 7800 (codes "ipv6,ct_state=+new+trk," ++ in_port_not_vm) (codes "resubmit(,3)")
      ∷ flow 1 7700 (codes "ip,ct_state=+new+trk," ++ in_port_vm) (codes "resubmit(,2)")
      ∷ flow 1 7700 (codes "ipv6,ct_state=+new+trk," ++ in_port_vm) (codes "resubmit(,2)")
      ∷ flow 1 7600 (codes "ip") (codes "resubmit(,4)")
      ∷ flow 1 7600 (codes "ipv6") (codes "resubmit(,4)")
      ∷ flow 4 5600 (codes "ip,dl_dst=" ++ d.mac) (load_zone_dst d ++ codes ",resubmit(,5),")
      ∷ flow 4 5600 (codes "ipv6,dl_dst=" ++ d.mac) (load_zone_dst d ++ codes ",resubmit(,5),")
      ∷ flow 4 5500 (codes "ip") (codes "ct(commit,zone=NXM_NX_REG0[0..15]),normal")
      ∷ flow 4 5500 (codes "ipv6") (codes "ct(commit,zone=NXM_NX_REG0[0..15]),normal")
      ∷ []

-- What follows the rules of table 3, and table 5.
abbrev pub default_in : Str
default_in = codes "ct(commit,zone=NXM_NX_REG0[0..15]),normal"

unfoldable pub default_flows : List FlowSpec
default_flows = flow 3 30 (codes "ip") default_in ∷ flow 3 30 (codes "ipv6") default_in ∷ []

unfoldable pub commit_flows : List FlowSpec
commit_flows =
    let dst = codes "ct(commit,zone=NXM_NX_REG1[0..15])," in
    let src = codes "ct(commit,zone=NXM_NX_REG0[0..15])," in
    flow 5 20 (codes "ip," ++ in_port_not_vm) (dst ++ codes "normal")
    ∷ flow 5 20 (codes "ipv6," ++ in_port_not_vm) (dst ++ codes "normal")
    ∷ flow 5 10 (codes "ip," ++ in_port_vm) (dst ++ src ++ codes "normal")
    ∷ flow 5 10 (codes "ipv6," ++ in_port_vm) (dst ++ src ++ codes "normal")
    ∷ []

-- One rule: a flow for each match, at the next lower priority, and the priority after them.
unfoldable pub match_flows : ℕ → Str → Str → ℤ → List Str → List FlowSpec × ℤ
unfolding pred_int
match_flows t prefix action p [] = ([], p)
match_flows t prefix action p (m ∷ ms) =
    let (fs, q) = match_flows t prefix action (pred_int p) ms in
    (
      record { table = t; priority = p; matches = prefix ++ codes "," ++ m; actions = action } ∷ fs,
      q,
    )

-- `p <= limit`
abbrev pub at_most : ℤ → ℕ → Bool
at_most p limit = elim (is_gt (compare_int p (pos limit))) [ true ↦ false | false ↦ true ]

module _ {R : Type 0} (allow : R → Bool) (matches : R → List Str) where
  abbrev pub action_of : Str → R → Str
  action_of allowed r = if allow r then allowed else codes "drop"

  -- The loop over the rules of a direction, which ends at a priority that is not above the limit.
  unfoldable pub rule_flows : ℕ → ℕ → Str → Str → ℤ → List R → List FlowSpec
  unfolding match_flows
  rule_flows t limit prefix allowed p [] = []
  rule_flows t limit prefix allowed p (r ∷ rs) =
      let (fs, q) = match_flows t prefix (action_of allowed r) p (matches r) in
      let rest = rule_flows t limit prefix allowed q rs in
      if at_most p limit then [] else fs ++ rest

  -- Flows, for the rules of the two directions.
  unfoldable pub security_flows : FlowData → List R → List R → List FlowSpec
  security_flows d in_rules out_rules =
      entry_flows d
      ++ state_flows d
      ++ rule_flows 2 20 (codes "in_port=" ++ d.port_no) (codes "resubmit(,3)") (pos 40_000)
          out_rules
      ++ rule_flows 3 30 (codes "dl_dst=" ++ d.mac) (load_zone_dst d ++ codes ",resubmit(,5)")
          (pos 40_000) in_rules
      ++ default_flows
      ++ commit_flows
