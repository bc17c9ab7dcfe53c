-- ===== src/SecRules/Rules.antt =====
-- pkg/agent/utils/securityrules.go: SecurityRule.OvsMatches and NewSecurityRules. The third-party
-- packages secrules, regutils and net are the parameter `SecLib`.
use sdnagent.Base.{
  ℕ, ◌-◌, ◌%◌, Bool, true, false, not, ◌&&◌, ◌||◌, Option, none, some, List, [], ◌∷◌, ◌++◌, map,
  Str, codes, str_eq, ℤ, pos, negsuc, compare_int, is_gt, print_int, print_dec, print_hex, split,
  trim_space, ◌==◌, if◌then◌else◌,
}
use sdnagent.SecRules.Ports.{port_range_to_masks}

-- secrules.SecurityRule; `allow` is the test `Action == secrules.SecurityRuleAllow`.
pub record Rule (Net : Type 0) : Type 0 where
  pub direction : Str
  pub protocol : Str
  pub ip_net : Option Net
  pub ports : List ℤ
  pub port_start : ℤ
  pub port_end : ℤ
  pub allow : Bool

-- net.IPNet with its texts and its mask's size, the constants and the functions of secrules, and
-- regutils.MatchCIDR6.
pub record SecLib : Type 1 where
  pub Net : Type 0
  pub net_string : Net → Str
  pub net_ip_string : Net → Str
  pub mask_size : Net → ℕ × ℕ
  pub match_cidr6 : Str → Bool
  pub dir_in : Str
  pub dir_out : Str
  pub proto_any : Str
  pub proto_tcp : Str
  pub proto_udp : Str
  pub proto_icmp : Str
  pub is_wild_match : Rule Net → Bool
  pub parse_security_rule : Str → Option (Rule Net)

-- `uint16(n)`
abbrev pub to_uint16 : ℤ → ℕ
to_uint16 (pos n) = n % 0x1_0000
to_uint16 (negsuc n) = 0xffff - n % 0x1_0000

-- The match of one pair (value, mask) that is neither of one port nor of all ports.
unfoldable pub masked_text : Str → ℕ × ℕ → Str
unfolding print_hex
masked_text tp_field (value, mask) =
    tp_field
    ++ (if value == 0 then codes "0" else codes "0x" ++ print_hex value)
    ++ codes "/0x"
    ++ print_hex mask

unfoldable pub mask_text : Str → ℕ × ℕ → Str
unfolding masked_text print_dec
mask_text tp_field (value, mask) =
    if mask == 0xffff then tp_field ++ print_dec value else masked_text tp_field (value, mask)

-- The loop over the masks, which a zero mask ends.
unfoldable pub mask_texts : Str → List (ℕ × ℕ) → List Str
unfolding mask_text
mask_texts tp_field [] = []
mask_texts tp_field ((value, mask) ∷ ms) =
    let rest = mask_texts tp_field ms in
    if mask == 0 then [] else mask_text tp_field (value, mask) ∷ rest

unfoldable pub port_texts : Str → List ℤ → List Str
unfolding print_int
port_texts tp_field [] = []
port_texts tp_field (p ∷ ps) = (tp_field ++ print_int p) ∷ port_texts tp_field ps

-- The fields of a direction; a direction that is neither leaves them empty.
pub record Fields : Type 0 where
  pub nw_field : Str
  pub v6_field : Str
  pub tp_field : Str

abbrev pub is_empty : Str → Bool
is_empty [] = true
is_empty (c ∷ s) = false

-- `m + "," + tpm`, the comma only between two texts.
abbrev pub join : Str → Str → Str
join m tpm = if is_empty m then tpm else m ++ 44 ∷ tpm

unfoldable pub join_all : Str → List Str → List Str
join_all m [] = []
join_all m (tpm ∷ tps) = join m tpm ∷ join_all m tps

module _ (lib : SecLib) where
  open lib use {
    Net, net_string, net_ip_string, mask_size, match_cidr6, dir_in, dir_out, proto_any, proto_tcp,
    proto_udp, proto_icmp, is_wild_match, parse_security_rule,
  }

  unfoldable pub fields_of : Rule Net → Fields
  unfolding str_eq
  fields_of r =
      if str_eq r.direction dir_in
      then record {
        nw_field = codes "ip,nw_src=";
        v6_field = codes "ipv6,ipv6_src=";
        tp_field = codes "tp_dst=";
      }
      else if str_eq r.direction dir_out
      then record {
        nw_field = codes "ip,nw_dst=";
        v6_field = codes "ipv6,ipv6_dst=";
        tp_field = codes "tp_dst=";
      }
      else record { nw_field = []; v6_field = []; tp_field = [] }

  unfoldable pub has_size : Net → ℕ → Bool
  has_size n size = let (ones, bits) = mask_size n in (ones == size) && (bits == size)

  -- (nwProto, nwMatch)
  unfoldable pub nw_of : Rule Net → Str × Str
  unfolding fields_of has_size
  nw_of r = elim r.ip_net [
    | none ↦ ([], [])
    | some n ↦
        if match_cidr6 (net_string n)
        then (
          codes "ipv6",
          (fields_of r).v6_field ++ (if has_size n 128 then net_ip_string n else net_string n),
        )
        else (
          codes "ip",
          (fields_of r).nw_field ++ (if has_size n 32 then net_ip_string n else net_string n),
        )
  ]

  -- The ports of a tcp or udp rule: tpMatch.
  unfoldable pub tp_match : Rule Net → Option (List Str)
  unfolding fields_of port_texts mask_texts port_range_to_masks
  tp_match r =
      let field = (fields_of r).tp_field in
      let listed = port_texts field r.ports in
      if is_gt (compare_int r.port_start (pos 0))
        && not (is_gt (compare_int r.port_start r.port_end))
      then (elim (port_range_to_masks (to_uint16 r.port_start) (to_uint16 r.port_end)) [
        | none ↦ none
        | some ms ↦ some (listed ++ mask_texts field ms)
      ])
      else some listed

  -- The switch on the protocol: (protoMatch, tpMatch).
  unfoldable pub proto_of : Rule Net → Option (Str × List Str)
  unfolding nw_of tp_match str_eq
  proto_of r =
      let (nw_proto, nw_match) = nw_of r in
      if str_eq r.protocol proto_any
      then some ([], if is_empty nw_match then codes "ipv6" ∷ codes "ip" ∷ [] else [])
      else if str_eq r.protocol proto_tcp || str_eq r.protocol proto_udp
      then (elim (tp_match r) [ none ↦ none | some tps ↦ some (r.protocol, tps) ])
      else if str_eq r.protocol proto_icmp
      then some (
          if str_eq nw_proto (codes "ipv6")
          then (codes "icmp6", [])
          else if str_eq nw_proto (codes "ip")
          then (codes "icmp", [])
          else ([], codes "icmp" ∷ codes "icmp6" ∷ []))
      else some (r.protocol, [])

  -- What OvsMatches computes when nothing is cached.
  unfoldable pub fresh_matches : Rule Net → Option (List Str)
  unfolding proto_of nw_of join_all
  fresh_matches r = elim (proto_of r) [
    | none ↦ none
    | some (proto_match, tps) ↦
        let nw_match = (nw_of r).1 in
        let m = if is_empty proto_match then nw_match else join nw_match proto_match in
        elim tps [ [] ↦ some (m ∷ []) | tp ∷ rest ↦ some (join_all m (tp ∷ rest)) ]
  ]

  pub record SecurityRule : Type 0 where
    pub r : Rule Net
    pub ovs_matches : Option (List Str)

  -- OvsMatches: the rule with its cache, and the result. `none` is fuel that ran out.
  unfoldable pub ovs_matches_of : SecurityRule → Option (SecurityRule × List Str)
  unfolding fresh_matches
  ovs_matches_of sr = elim sr.ovs_matches [
    | some ms ↦ some (sr, ms)
    | none ↦ elim (fresh_matches sr.r) [
      | none ↦ none
      | some ms ↦ some (record sr { ovs_matches = some ms }, ms)
    ]
  ]

  unfoldable pub new_security_rule : Str → Option SecurityRule
  unfolding trim_space
  new_security_rule s = elim (parse_security_rule (trim_space s)) [
    | none ↦ none
    | some r ↦ some (record { r = r; ovs_matches = none })
  ]

  -- The loop over the pieces: the rules for each direction, in order; `none` is an error.
  unfoldable pub sort_rules : List Str → Option (List SecurityRule × List SecurityRule)
  unfolding trim_space new_security_rule str_eq
  sort_rules [] = some ([], [])
  sort_rules (piece ∷ pieces) =
      let rest = sort_rules pieces in
      if is_empty (trim_space piece) then rest else (elim (new_security_rule (trim_space piece)) [
        | none ↦ none
        | some sr ↦ elim rest [
          | none ↦ none
          | some (in_rules, out_rules) ↦
              if str_eq sr.r.direction dir_in
              then some (sr ∷ in_rules, out_rules)
              else if str_eq sr.r.direction dir_out
              then some (in_rules, sr ∷ out_rules)
              else some (in_rules, out_rules)
        ]
      ])

  -- Whether the last rule is there and a wild match.
  unfoldable pub ends_wild : List SecurityRule → Bool
  ends_wild [] = false
  ends_wild (sr ∷ []) = is_wild_match sr.r
  ends_wild (sr ∷ sr' ∷ srs) = ends_wild (sr' ∷ srs)

  -- The rules, and a last one that matches everything; if that did not parse, it is nil.
  unfoldable pub with_default : Str → List SecurityRule → List (Option SecurityRule)
  unfolding ends_wild new_security_rule
  with_default text srs =
      map some srs ++ (if ends_wild srs then [] else new_security_rule text ∷ [])

  -- (inRules, outRules)
  unfoldable pub new_security_rules :
      Str → Option (List (Option SecurityRule) × List (Option SecurityRule))
  unfolding sort_rules with_default split
  new_security_rules s = elim (sort_rules (split 59 s)) [
    | none ↦ none
    | some (in_rules, out_rules) ↦ some (
      with_default (codes "in:deny any") in_rules,
      with_default (codes "out:allow any") out_rules,
    )
  ]
