-- ===== src/SecFlows/Falling.antt =====
-- pkg/agent/utils/flowsource.go: the priorities that the loops over the rules of a direction give.
use sdnagent.Base.{
  ℕ, zero, suc, ◌+◌, ◌-◌, ◌<◌, ◌≤◌, Bool, true, false, ◌||◌, Option, none, some, List, [], ◌∷◌,
  ◌++◌, Str, codes, ℤ, pos, if◌then◌else◌, ◌≡◌, refl, ap, arith, Bool-cases, inl, inr, length, leb,
  leb→le,
}
use sdnagent.SecFlows.Defs.{FlowSpec, pred_int, match_flows, rule_flows, action_of, at_most}
use sdnagent.SecFlows.Order.{first_match, Below, Falls, Below-le}

-- The packet satisfies one of the matches.
abbrev pub any_match : Str → (Str → Bool) → List Str → Bool
any_match prefix sat [] = false
any_match prefix sat (m ∷ ms) = sat (prefix ++ codes "," ++ m) || any_match prefix sat ms

abbrev pub actions_of : Option FlowSpec → Option Str
actions_of none = none
actions_of (some f) = some f.actions

at_most_le : (n limit : ℕ) → n ≤ limit → at_most (pos n) limit ≡ true
at_most_le n limit h = ground (arith, h)

at_most_lt : (n limit : ℕ) → limit < n → at_most (pos n) limit ≡ false
at_most_lt n limit h = ground (arith, h)

module _ (t : ℕ) (prefix action : Str) where
  match_flows_end :
      (n q : ℕ) (ms : List Str)
      → n ≡ length ms + q
      → (match_flows t prefix action (pos n) ms).1 ≡ pos q
  unfolding match_flows pred_int
  match_flows_end n q [] h = ap pos (omega (arith, h))
  match_flows_end zero q (m ∷ ms) h = absurd (omega (arith, h))
  match_flows_end (suc n) q (m ∷ ms) h = match_flows_end n q ms (omega (arith, h))

  -- The flows of one rule, before flows whose priorities fall from `q`.
  match_flows-Falls :
      (n q : ℕ) (ms : List Str) (rest tail : List FlowSpec)
      → n ≡ length ms + q
      → Below (suc q) (rest ++ tail)
      → Falls rest tail
      → Below (suc n) (((match_flows t prefix action (pos n) ms).0 ++ rest) ++ tail)
        × Falls ((match_flows t prefix action (pos n) ms).0 ++ rest) tail
  unfolding match_flows pred_int
  match_flows-Falls n q [] rest tail h b f =
      (Below-le (suc q) (suc n) (rest ++ tail) (omega (arith, h)) b, f)
  match_flows-Falls zero q (m ∷ ms) rest tail h b f = absurd (omega (arith, h))
  match_flows-Falls (suc n) q (m ∷ ms) rest tail h b f =
      let (b', f') = match_flows-Falls n q ms rest tail (omega (arith, h)) b f in
      let all = ((match_flows t prefix action (pos n) ms).0 ++ rest) ++ tail in
      (
        ((suc n, refl, omega arith), Below-le (suc n) (suc (suc n)) all (omega arith) b'),
        ((suc n, refl, b'), f'),
      )

  first_match_rule :
      (sat : Str → Bool) (p : ℤ) (ms : List Str) (rest : List FlowSpec)
      → actions_of (first_match sat ((match_flows t prefix action p ms).0 ++ rest))
        ≡ (if any_match prefix sat ms then some action else actions_of (first_match sat rest))
  unfolding match_flows first_match
  first_match_rule sat p [] rest = refl
  first_match_rule sat p (m ∷ ms) rest = elim (Bool-cases (sat (prefix ++ codes "," ++ m))) [
    | inl hit ↦ rw hit refl
    | inr missed ↦ rw missed (first_match_rule sat (pred_int p) ms rest)
  ]

first_nil : (sat : Str → Bool) → actions_of (first_match sat []) ≡ none
unfolding first_match
first_nil sat = refl

module _ {R : Type 0} (allow : R → Bool) (matches : R → List Str) where
  abbrev pub match_count : List R → ℕ
  match_count [] = 0
  match_count (r ∷ rs) = length (matches r) + match_count rs

  -- The action of the first rule with a match that the packet satisfies.
  abbrev pub verdict : (Str → Bool) → Str → Str → List R → Option Str
  verdict sat prefix allowed [] = none
  verdict sat prefix allowed (r ∷ rs) =
      if any_match prefix sat (matches r)
      then some (action_of allow matches allowed r)
      else verdict sat prefix allowed rs

  module _ (t limit : ℕ) (prefix allowed : Str) where
    abbrev flows_from : ℕ → List R → List FlowSpec
    flows_from n rs = rule_flows allow matches t limit prefix allowed (pos n) rs

    flows_from_nil : (n : ℕ) → flows_from n [] ≡ []
    unfolding rule_flows
    flows_from_nil n = refl

    flows_from_stop : (n : ℕ) (r : R) (rs : List R) → n ≤ limit → flows_from n (r ∷ rs) ≡ []
    unfolding rule_flows
    flows_from_stop n r rs h = rw (at_most_le n limit h) refl

    flows_from_go :
        (n q : ℕ) (r : R) (rs : List R)
        → limit < n
        → n ≡ length (matches r) + q
        → flows_from n (r ∷ rs)
          ≡ (match_flows t prefix (action_of allow matches allowed r) (pos n) (matches r)).0
            ++ flows_from q rs
    unfolding rule_flows
    flows_from_go n q r rs h e =
        rw
          (
            at_most_lt n limit h,
            match_flows_end t prefix (action_of allow matches allowed r) n q (matches r) e,
          )
          refl

    pub rule_flows-Falls :
        (n : ℕ) (rs : List R) (tail : List FlowSpec)
        → limit + match_count rs ≤ n
        → Below (suc limit) tail
        → Below (suc n) (flows_from n rs ++ tail) × Falls (flows_from n rs) tail
    rule_flows-Falls n [] tail h b =
        rw (flows_from_nil n) (Below-le (suc limit) (suc n) tail (omega (arith, h)) b, tt)
    rule_flows-Falls n (r ∷ rs) tail h b = elim (Bool-cases (leb n limit)) [
      | inl low ↦
          rw (flows_from_stop n r rs (leb→le n limit low))
            (Below-le (suc limit) (suc n) tail (omega (arith, h)) b, tt)
      | inr high ↦
          let q = n - length (matches r) in
          let e : n ≡ length (matches r) + q = omega (arith, h) in
          let (b', f') = rule_flows-Falls q rs tail (omega (arith, h)) b in
          rw (flows_from_go n q r rs (ground (arith, high)) e) (
            match_flows-Falls t prefix (action_of allow matches allowed r) n q (matches r)
              (flows_from q rs) tail e b' f')
    ]

    no_verdict :
        (sat : Str → Bool) (rs : List R) → match_count rs ≡ 0 → verdict sat prefix allowed rs ≡ none
    no_verdict sat [] h = refl
    no_verdict sat (r ∷ rs) h =
        rw (no_match (matches r) (omega (arith, h))) (no_verdict sat rs (omega (arith, h)))
      where
        no_match : (ms : List Str) → length ms ≡ 0 → any_match prefix sat ms ≡ false
        no_match [] e = refl
        no_match (m ∷ ms) e = absurd (omega (arith, e))

    -- The first flow of the loop that the packet satisfies has the action of the first such rule.
    pub first_match-verdict :
        (sat : Str → Bool) (n : ℕ) (rs : List R)
        → limit + match_count rs ≤ n
        → actions_of (first_match sat (flows_from n rs)) ≡ verdict sat prefix allowed rs
    first_match-verdict sat n [] h = rw (flows_from_nil n) (first_nil sat)
    first_match-verdict sat n (r ∷ rs) h = elim (Bool-cases (leb n limit)) [
      | inl low ↦
          rw
            (
              flows_from_stop n r rs (leb→le n limit low),
              no_verdict sat (r ∷ rs) (omega (arith, h, leb→le n limit low)),
            )
            (first_nil sat)
      | inr high ↦
          let q = n - length (matches r) in
          let e : n ≡ length (matches r) + q = omega (arith, h) in
          rw
            (
              flows_from_go n q r rs (ground (arith, high)) e,
              first_match_rule t prefix (action_of allow matches allowed r) sat (pos n) (matches r)
                  (flows_from q rs),
              first_match-verdict sat q rs (omega (arith, h)),
            )
            refl
    ]
