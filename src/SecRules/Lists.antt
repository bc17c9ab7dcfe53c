-- ===== src/SecRules/Lists.antt =====
-- pkg/agent/utils/securityrules.go: the two lists that NewSecurityRules builds.
use sdnagent.Base.{
  Bool, true, false, ◌&&◌, Option, none, some, List, [], ◌∷◌, Str, codes, str_eq, ◌≡◌, refl, arith,
  Bool-cases, inl, inr, split, trim_space, ◌⊎◌,
}
use sdnagent.SecRules.Rules.{
  SecLib, SecurityRule, new_security_rule, sort_rules, with_default, new_security_rules, is_empty,
}

module _ (lib : SecLib) where
  open lib use {Net, is_wild_match, parse_security_rule, dir_in, dir_out}

  -- Every piece that is not blank parses.
  unfoldable pub Parse : List Str → Type 0
  Parse [] = Unit
  Parse (piece ∷ pieces) =
      ((is_empty (trim_space piece) ≡ true)
        ⊎ (sr : SecurityRule lib) × (new_security_rule lib (trim_space piece) ≡ some sr))
      × Parse pieces

  unfoldable pub all_directed : Str → List (SecurityRule lib) → Bool
  all_directed dir [] = true
  all_directed dir (sr ∷ srs) = str_eq sr.r.direction dir && all_directed dir srs

  -- Every rule is there and has the direction, and the last one is a wild match.
  unfoldable pub complete : Str → List (Option (SecurityRule lib)) → Bool
  complete dir [] = false
  complete dir (none ∷ srs) = false
  complete dir (some sr ∷ []) = str_eq sr.r.direction dir && is_wild_match sr.r
  complete dir (some sr ∷ sr' ∷ srs) = str_eq sr.r.direction dir && complete dir (sr' ∷ srs)

  sort_rules_lem :
      (pieces : List Str)
      → Parse pieces
      → (ins : List (SecurityRule lib)) × (outs : List (SecurityRule lib)) × (sort_rules lib pieces
          ≡ some (ins, outs))
        × (all_directed dir_in ins ≡ true)
        × (all_directed dir_out outs ≡ true)
  unfolding sort_rules Parse all_directed
  sort_rules_lem [] h = ([], [], refl, refl, refl)
  sort_rules_lem (piece ∷ pieces) (inl blank, rest) =
      let (ins, outs, runs, p, q) = sort_rules_lem pieces rest in
      (ins, outs, rw (blank, runs) refl, p, q)
  sort_rules_lem (piece ∷ pieces) (inr (sr, parses), rest) =
      let (ins, outs, runs, p, q) = sort_rules_lem pieces rest in
      elim (Bool-cases (is_empty (trim_space piece))) [
        | inl blank ↦ (ins, outs, rw (blank, runs) refl, p, q)
        | inr text ↦ elim (Bool-cases (str_eq sr.r.direction dir_in)) [
          | inl i ↦ (sr ∷ ins, outs, rw (text, parses, runs, i) refl, rw (i, p) refl, q)
          | inr j ↦ elim (Bool-cases (str_eq sr.r.direction dir_out)) [
            | inl o ↦ (ins, sr ∷ outs, rw (text, parses, runs, j, o) refl, p, rw (o, q) refl)
            | inr n ↦ (ins, outs, rw (text, parses, runs, j, n) refl, p, q)
          ]
        ]
      ]

  abbrev Default : Str → Str → Type 0
  Default dir text =
      (sr : SecurityRule lib) × (new_security_rule lib text ≡ some sr)
      × (is_wild_match sr.r ≡ true)
      × (str_eq sr.r.direction dir ≡ true)

  complete-with_default :
      (dir text : Str) (srs : List (SecurityRule lib))
      → Default dir text
      → all_directed dir srs ≡ true
      → complete dir (with_default lib text srs) ≡ true
  unfolding with_default complete all_directed
  complete-with_default dir text [] (sr, parses, wild, dir') h = rw (parses, dir', wild) refl
  complete-with_default dir text (x ∷ []) (sr, parses, wild, dir') h =
      elim (Bool-cases (is_wild_match x.r)) [
        | inl last ↦ rw (last, last) (ground arith)
        | inr more ↦ rw (more, parses) (ground arith)
      ]
  complete-with_default dir text (x ∷ y ∷ srs) d h =
      let ih = complete-with_default dir text (y ∷ srs) d (ground arith) in ground arith

  -- If every piece of the text that is not blank parses, and so do the two default rules, to wild
  -- matches of their directions, then NewSecurityRules succeeds, its lists have no nil and rules of
  -- their own direction only, and each list ends with a wild match.
  pub new_security_rules-complete :
      (s : Str)
      → Parse (split 59 s)
      → Default dir_in (codes "in:deny any")
      → Default dir_out (codes "out:allow any")
      → (ins : List (Option (SecurityRule lib))) × (outs : List (Option (SecurityRule lib)))
        × (new_security_rules lib s ≡ some (ins, outs))
        × (complete dir_in ins ≡ true)
        × (complete dir_out outs ≡ true)
  unfolding new_security_rules
  new_security_rules-complete s h d e =
      let (ins, outs, runs, p, q) = sort_rules_lem (split 59 s) h in
      (
        _,
        _,
        rw (runs, new_security_rules) refl,
        complete-with_default dir_in (codes "in:deny any") ins d p,
        complete-with_default dir_out (codes "out:allow any") outs e q,
      )
