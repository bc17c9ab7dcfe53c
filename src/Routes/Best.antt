-- ===== src/Routes/Best.antt =====
-- pkg/agent/utils/route.go: Lookup finds the route with the longest prefix and, of those, one with the
-- lowest metric.
use sdnagent.Base.{
  ℕ, Bool, true, not, ◌&&◌, ◌||◌, none, some, List, [], ◌∷◌, pos, negsuc, ltb, leb, ◌==◌,
  if◌then◌else◌, ◌≡◌, refl, ap, arith, ◌⊎◌, inl, inr, Bool-cases, ◌∙◌,
}
use sdnagent.Routes.Table.{
  Route, contains_ip, mask_size, Search, lookup_step, lookup_loop, lookup_route,
}

-- The first route has a longer prefix, or one as long and no higher metric.
abbrev pub beats : Route → Route → Bool
beats r q =
    ltb (mask_size q) (mask_size r) || ((mask_size q == mask_size r) && leb r.metric q.metric)

beats_refl : (r : Route) → beats r r ≡ true
beats_refl r = ground arith

beats_trans : (a b c : Route) → beats a b ≡ true → beats b c ≡ true → beats a c ≡ true
beats_trans a b c h k = ground arith

-- The route beats every route of the list that contains the address.
unfoldable pub beats_all : List ℕ → Route → List Route → Bool
beats_all ip r [] = true
beats_all ip r (q ∷ rs) = (not (contains_ip q ip) || beats r q) && beats_all ip r rs

unfoldable pub In : Route → List Route → Type 0
In r [] = ⊥
In r (q ∷ rs) = (r ≡ q) ⊎ In r rs

unfoldable pub none_contains : List ℕ → List Route → Bool
none_contains ip [] = true
none_contains ip (q ∷ rs) = not (contains_ip q ip) && none_contains ip rs

abbrev holding : Route → Search
holding r = record { found = some r; pl = pos (mask_size r); best_metric = r.metric }

-- The route is the one that was held, or one of the list that contains the address.
abbrev From : List ℕ → Route → Route → List Route → Type 0
From ip b r rs = (b ≡ r) ⊎ (In b rs × (contains_ip b ip ≡ true))

-- A round keeps the route that it holds, or takes the next one, which is then better.
step_lem :
    (ip : List ℕ) (r q : Route)
    → ((lookup_step ip (holding r) q ≡ holding r) × ((not (contains_ip q ip) || beats r q) ≡ true))
      ⊎ ((lookup_step ip (holding r) q ≡ holding q)
          × (contains_ip q ip ≡ true)
          × (beats q r ≡ true))
unfolding lookup_step
step_lem ip r q = elim (Bool-cases (contains_ip q ip)) [
  | inl c ↦ elim (Bool-cases (beats r q)) [
    | inl b ↦ inl (ground arith, ground arith)
    | inr b ↦ inr (ground arith, c, ground arith)
  ]
  | inr c ↦ inl (ground arith, ground arith)
]

later : (ip : List ℕ) (b r q : Route) (rs : List Route) → From ip b r rs → From ip b r (q ∷ rs)
unfolding In
later ip b r q rs (inl e) = inl e
later ip b r q rs (inr (i, c)) = inr (inr i, c)

listed_lem :
    (ip : List ℕ) (b q : Route) (rs : List Route)
    → From ip b q rs
    → contains_ip q ip ≡ true
    → In b (q ∷ rs) × (contains_ip b ip ≡ true)
unfolding In
listed_lem ip b q rs (inl e) c = (inl e, ap (λ x. contains_ip x ip) e ∙ c)
listed_lem ip b q rs (inr (i, d)) c = (inr i, d)

taken :
    (ip : List ℕ) (b r q : Route) (rs : List Route)
    → From ip b q rs
    → contains_ip q ip ≡ true
    → From ip b r (q ∷ rs)
unfolding In
taken ip b r q rs from c = inr (listed_lem ip b q rs from c)

counted :
    (ip : List ℕ) (b q : Route) (rs : List Route)
    → beats b q ≡ true
    → beats_all ip b rs ≡ true
    → beats_all ip b (q ∷ rs) ≡ true
unfolding beats_all
counted ip b q rs h all = ground arith

kept :
    (ip : List ℕ) (b r q : Route) (rs : List Route)
    → beats b r ≡ true
    → (not (contains_ip q ip) || beats r q) ≡ true
    → beats_all ip b rs ≡ true
    → beats_all ip b (q ∷ rs) ≡ true
unfolding beats_all
kept ip b r q rs h k all = elim (Bool-cases (contains_ip q ip)) [
  | inl c ↦ let t = beats_trans b r q h (ground arith) in rw (c, t, all) refl
  | inr c ↦ rw (c, all) refl
]

-- From a route that is held on, the loop ends with one that beats it and all that follow.
loop_lem :
    (ip : List ℕ) (r : Route) (rs : List Route)
    → (b : Route) × (lookup_loop ip (holding r) rs ≡ holding b)
      × From ip b r rs
      × (beats b r ≡ true)
      × (beats_all ip b rs ≡ true)
unfolding lookup_loop beats_all In
loop_lem ip r [] = (r, refl, inl refl, beats_refl r, refl)
loop_lem ip r (q ∷ rs) = elim (step_lem ip r q) [
  | inl (e, k) ↦
      let (b, runs, from, h, all) = loop_lem ip r rs in
      (b, rw e runs, later ip b r q rs from, h, kept ip b r q rs h k all)
  | inr (e, c, k) ↦
      let (b, runs, from, h, all) = loop_lem ip q rs in
      (b, rw e runs, taken ip b r q rs from c, beats_trans b q r h k, counted ip b q rs h all)
]

abbrev start : Search
start = record { found = none; pl = negsuc 0; best_metric = 10000000 }

first_step :
    (ip : List ℕ) (q : Route)
    → lookup_step ip start q ≡ (if contains_ip q ip then holding q else start)
unfolding lookup_step
first_step ip q = refl

start_lem :
    (ip : List ℕ) (rs : List Route)
    → ((lookup_loop ip start rs ≡ start) × (none_contains ip rs ≡ true))
      ⊎ ((b : Route) × (lookup_loop ip start rs ≡ holding b)
          × In b rs
          × (contains_ip b ip ≡ true)
          × (beats_all ip b rs ≡ true))
unfolding lookup_loop none_contains beats_all In
start_lem ip [] = inl (refl, refl)
start_lem ip (q ∷ rs) = elim (Bool-cases (contains_ip q ip)) [
  | inl c ↦
      let (b, runs, from, h, all) = loop_lem ip q rs in
      let (i, d) = listed_lem ip b q rs from c in
      inr (b, rw (first_step ip q, c) runs, i, d, counted ip b q rs h all)
  | inr c ↦ elim (start_lem ip rs) [
    | inl (runs, outside) ↦ inl (rw (first_step ip q, c) runs, rw (c, outside) refl)
    | inr (b, runs, i, d, all) ↦ inr (b, rw (first_step ip q, c) runs, inr i, d, rw (c, all) refl)
  ]
]

-- Lookup finds no route exactly if none of the table contains the address; otherwise it returns one
-- of the table that contains it and that no other such route beats: each of them has a shorter
-- prefix, or one as long and a metric at least as high.
pub lookup_route-Best :
    (rs : List Route) (ip : List ℕ)
    → ((lookup_route rs ip ≡ none) × (none_contains ip rs ≡ true))
      ⊎ ((b : Route) × (lookup_route rs ip ≡ some b)
          × In b rs
          × (contains_ip b ip ≡ true)
          × (beats_all ip b rs ≡ true))
unfolding lookup_route
lookup_route-Best rs ip = elim (start_lem ip rs) [
  | inl (runs, outside) ↦ inl (ap Search.found runs, outside)
  | inr (b, runs, i, d, all) ↦ inr (b, ap Search.found runs, i, d, all)
]
