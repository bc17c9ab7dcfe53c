-- ===== src/Tests/RuleTests.antt =====
-- Runs of the security rules, and the theorems of SecRules applied at concrete inputs.
use sdnagent.Base.{
  ℕ, ◌<◌, true, false, Option, none, some, List, [], ◌∷◌, ◌++◌, map, Str, codes, str_eq,
  compare_str, pos, if◌then◌else◌, ◌≡◌, refl, arith, ◌&&◌, leb, split, trim_space, inl, inr,
  print_digits, print_dec, print_hex, print_int, trim_left, trim_right,
}
use sdnagent.SecRules.Ports.{grow, mask_of, cover, port_range_to_masks}
use sdnagent.SecRules.Rules.{
  Rule, SecLib, SecurityRule, masked_text, mask_text, mask_texts, port_texts, fields_of, has_size,
  nw_of, tp_match, proto_of, join_all, fresh_matches, new_security_rule, new_security_rules,
}
use sdnagent.SecRules.Cover.{matches, Masked, port_range_to_masks-matches}
use sdnagent.SecRules.Matches.{tp_match-covers}
use sdnagent.SecRules.Lists.{Parse, complete, new_security_rules-complete}

-- The range 1000-1010.
range_run :
    port_range_to_masks 1000 1010 ≡ some ((1000, 0xfff8) ∷ (1008, 0xfffe) ∷ (1010, 0xffff) ∷ [])
unfolding port_range_to_masks cover grow mask_of
range_run = refl

reversed_run : port_range_to_masks 7 3 ≡ some []
unfolding port_range_to_masks cover
reversed_run = refl

port_range_to_masks-matches_example :
    (r : List (ℕ × ℕ)) × (port_range_to_masks 1000 1010 ≡ some r)
    × ((p : ℕ) → p < 0x1_0000 → matches p r ≡ (if leb 1000 p && leb p 1010 then 1 else 0))
    × (0 < 1000 → Masked r)
port_range_to_masks-matches_example =
    port_range_to_masks-matches 1000 1010 (omega arith) (omega arith)

abbrev pub deny_in : Rule ℕ
deny_in = record {
  direction = codes "in";
  protocol = codes "any";
  ip_net = none;
  ports = [];
  port_start = pos 0;
  port_end = pos 0;
  allow = false;
}

abbrev pub allow_out : Rule ℕ
allow_out = record deny_in { direction = codes "out"; allow = true }

-- From the net number 24, the ports 80 and 1000-1010.
abbrev web : Rule ℕ
web = record {
  direction = codes "in";
  protocol = codes "tcp";
  ip_net = some 24;
  ports = pos 80 ∷ [];
  port_start = pos 1000;
  port_end = pos 1010;
  allow = true;
}

abbrev parse_sample : Str → Option (Rule ℕ)
parse_sample s =
    if str_eq s (codes "in:deny any")
    then some deny_in
    else if str_eq s (codes "out:allow any")
    then some allow_out
    else if str_eq s (codes "in:allow web")
    then some web
    else none

-- A net is the length of its mask; all begin at 10.0.0.0.
abbrev pub sample_lib : SecLib
sample_lib = record {
  Net = ℕ;
  net_string = λ n. codes "10.0.0.0/" ++ print_dec n;
  net_ip_string = λ n. codes "10.0.0.0";
  mask_size = λ n. (n, 32);
  match_cidr6 = λ s. false;
  dir_in = codes "in";
  dir_out = codes "out";
  proto_any = codes "any";
  proto_tcp = codes "tcp";
  proto_udp = codes "udp";
  proto_icmp = codes "icmp";
  is_wild_match = λ r. str_eq r.protocol (codes "any");
  parse_security_rule = parse_sample;
}

web_run :
    fresh_matches sample_lib web
    ≡ some (
        codes "ip,nw_src=10.0.0.0/24,tcp,tp_dst=80"
        ∷ codes "ip,nw_src=10.0.0.0/24,tcp,tp_dst=0x3e8/0xfff8"
        ∷ codes "ip,nw_src=10.0.0.0/24,tcp,tp_dst=0x3f0/0xfffe"
        ∷ codes "ip,nw_src=10.0.0.0/24,tcp,tp_dst=1010"
        ∷ [])
unfolding fresh_matches proto_of nw_of tp_match fields_of has_size port_texts mask_texts mask_text
    masked_text join_all port_range_to_masks cover grow mask_of print_digits print_dec print_hex
    print_int str_eq compare_str
web_run = refl

tp_match-covers_example :
    (ms : List (ℕ × ℕ)) × (tp_match sample_lib web
      ≡ some (
          port_texts (fields_of sample_lib web).tp_field (pos 80 ∷ [])
          ++ map (mask_text (fields_of sample_lib web).tp_field) ms))
    × ((p : ℕ) → p < 0x1_0000 → matches p ms ≡ (if leb 1000 p && leb p 1010 then 1 else 0))
tp_match-covers_example =
    tp_match-covers sample_lib web 1000 1010 (refl, refl, omega arith, omega arith, omega arith)

abbrev web_rule : SecurityRule sample_lib
web_rule = record { r = web; ovs_matches = none }

abbrev text : Str
text = codes "in:allow web; "

text_Parses : Parse sample_lib (split 59 text)
unfolding Parse split trim_space trim_left trim_right new_security_rule str_eq compare_str
text_Parses = (inr (web_rule, refl), (inl refl, tt))

sample_default_in :
    new_security_rule sample_lib (codes "in:deny any")
    ≡ some record { r = deny_in; ovs_matches = none }
unfolding new_security_rule trim_space trim_left trim_right str_eq compare_str
sample_default_in = refl

sample_default_out :
    new_security_rule sample_lib (codes "out:allow any")
    ≡ some record { r = allow_out; ovs_matches = none }
unfolding new_security_rule trim_space trim_left trim_right str_eq compare_str
sample_default_out = refl

new_security_rules-complete_example :
    (ins : List (Option (SecurityRule sample_lib))) × (outs : List
      (Option (SecurityRule sample_lib)))
    × (new_security_rules sample_lib text ≡ some (ins, outs))
    × (complete sample_lib (codes "in") ins ≡ true)
    × (complete sample_lib (codes "out") outs ≡ true)
unfolding str_eq compare_str
new_security_rules-complete_example =
    new_security_rules-complete sample_lib text text_Parses (_, sample_default_in, refl, refl)
      (_, sample_default_out, refl, refl)
