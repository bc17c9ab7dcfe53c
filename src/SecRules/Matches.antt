-- ===== src/SecRules/Matches.antt =====
-- pkg/agent/utils/securityrules.go: what the matches and the lists of rules have.
use sdnagent.Base.{
  ℕ, ◌≤◌, ◌<◌, Bool, true, false, not, ◌&&◌, ◌||◌, Option, none, some, List, [], ◌∷◌, ◌++◌, map,
  Str, str_eq, ℤ, pos, negsuc, compare_int, is_gt, leb, ◌==◌, if◌then◌else◌, ◌≡◌, refl, arith,
  Bool-cases, inl, inr,
}
use sdnagent.SecRules.Cover.{matches, Masked, port_range_to_masks-matches}
use sdnagent.SecRules.Rules.{
  Rule, SecLib, mask_text, mask_texts, port_texts, fields_of, tp_match, proto_of, fresh_matches,
  SecurityRule, ovs_matches_of, to_uint16, is_empty, join, join_all, nw_of,
}

mask_texts-map :
    (field : Str) (ms : List (ℕ × ℕ)) → Masked ms → mask_texts field ms ≡ map (mask_text field) ms
unfolding mask_texts Masked
mask_texts-map field [] all = refl
mask_texts-map field ((v, m) ∷ ms) (p, all) =
    let differ : (m == 0) ≡ false = ground arith in rw (differ, mask_texts-map field ms all) refl

abbrev IsSome {ℓ} : {A : Type ℓ} → Option A → Type ℓ
IsSome {A = A} o = (a : A) × (o ≡ some a)

if_total {ℓ} :
    {A : Type ℓ} (b : Bool) {x y : Option A} → IsSome x → IsSome y → IsSome (if b then x else y)
if_total true p q = p
if_total false p q = q

module _ (lib : SecLib) where
  open lib use {
    Net, is_wild_match, parse_security_rule, dir_in, dir_out, proto_any, proto_tcp, proto_udp,
    proto_icmp,
  }

  -- The ports that a rule's range has.
  abbrev InRange : Rule Net → ℕ → ℕ → Type 0
  InRange r s e = (r.port_start ≡ pos s) × (r.port_end ≡ pos e) × (0 < s) × (s ≤ e) × (e < 0x1_0000)

  -- The ports of a tcp or udp rule with a range: each listed port and each pair of PortRangeToMasks
  -- has its match, none is left out, and a port of the range is matched by exactly one of the pairs.
  pub tp_match-covers :
      (r : Rule Net) (s e : ℕ)
      → InRange r s e
      → (ms : List (ℕ × ℕ)) × (tp_match lib r
          ≡ some (
              port_texts (fields_of lib r).tp_field r.ports
              ++ map (mask_text (fields_of lib r).tp_field) ms))
        × ((p : ℕ) → p < 0x1_0000 → matches p ms ≡ (if leb s p && leb p e then 1 else 0))
  unfolding tp_match
  tp_match-covers r s e (a, b, c, d, f) =
      let (ms, runs, right, masked) = port_range_to_masks-matches s e (omega arith) f in
      let low : to_uint16 (pos s) ≡ s = omega arith in
      let high : to_uint16 (pos e) ≡ e = omega arith in
      let taken : is_gt (compare_int (pos s) (pos 0)) && not (is_gt (compare_int (pos s) (pos e)))
          ≡ true =
        ground arith in
      let texts = mask_texts-map (fields_of lib r).tp_field ms (masked c) in
      (ms, rw (a, b, taken, low, high, runs, texts) refl, right)

  uint16_lem : (n : ℤ) → to_uint16 n < 0x1_0000
  uint16_lem (pos n) = omega arith
  uint16_lem (negsuc n) = omega arith

  tp_match_total : (r : Rule Net) → (tps : List Str) × (tp_match lib r ≡ some tps)
  unfolding tp_match
  tp_match_total r =
      let s = to_uint16 r.port_start in
      let e = to_uint16 r.port_end in
      let field = (fields_of lib r).tp_field in
      let (ms, runs, right, masked) =
        port_range_to_masks-matches s e (uint16_lem r.port_start) (uint16_lem r.port_end) in
      elim (Bool-cases (
        is_gt (compare_int r.port_start (pos 0))
        && not (is_gt (compare_int r.port_start r.port_end)))) [
          | inl ranged ↦ (port_texts field r.ports ++ mask_texts field ms, rw (ranged, runs) refl)
          | inr unranged ↦ (port_texts field r.ports, rw unranged refl)
        ]

  proto_of_total : (r : Rule Net) → IsSome (proto_of lib r)
  unfolding proto_of
  proto_of_total r =
      let (tps, runs) = tp_match_total r in
      if_total (str_eq r.protocol proto_any) (_, refl)
        (if_total (str_eq r.protocol proto_tcp || str_eq r.protocol proto_udp)
          ((r.protocol, tps), rw runs refl)
          (if_total (str_eq r.protocol proto_icmp) (_, refl) (_, refl)))

  joined_total :
      (m : Str) (tps : List Str)
      → (ms : List Str) × (elim tps as (λ _. Option (List Str)) [
        | [] ↦ some (m ∷ [])
        | tp ∷ rest ↦ some (join_all m (tp ∷ rest))
      ]
          ≡ some ms)
  joined_total m [] = (_, refl)
  joined_total m (tp ∷ rest) = (_, refl)

  fresh_matches_total : (r : Rule Net) → (ms : List Str) × (fresh_matches lib r ≡ some ms)
  unfolding fresh_matches
  fresh_matches_total r =
      let ((proto_match, tps), runs) = proto_of_total r in
      let (ms, e) =
        joined_total
          (if is_empty proto_match then (nw_of lib r).1 else join (nw_of lib r).1 proto_match)
          tps in
      (ms, rw (runs, fresh_matches) e)

  again :
      (r : Rule Net) (cache : Option (List Str))
      → (sr' : SecurityRule lib) × (ms : List Str) × (ovs_matches_of lib
            record { r = r; ovs_matches = cache }
          ≡ some (sr', ms))
        × (ovs_matches_of lib sr' ≡ some (sr', ms))
        × (sr'.r ≡ r)
  unfolding ovs_matches_of
  again r none =
      let (ms, runs) = fresh_matches_total r in
      (record { r = r; ovs_matches = some ms }, ms, rw (runs, ovs_matches_of) refl, refl, refl)
  again r (some ms) = (record { r = r; ovs_matches = some ms }, ms, refl, refl, refl)

  -- OvsMatches always returns, keeps the rule itself, and on the object that it leaves returns the
  -- same matches again.
  ovs_matches_of_again :
      (sr : SecurityRule lib)
      → (sr' : SecurityRule lib) × (ms : List Str) × (ovs_matches_of lib sr ≡ some (sr', ms))
        × (ovs_matches_of lib sr' ≡ some (sr', ms))
        × (sr'.r ≡ sr.r)
  ovs_matches_of_again sr = again sr.r sr.ovs_matches
