-- ===== src/ZoneMan/Probe.antt =====
-- pkg/agent/utils/ct_zone.go: the probe for a free index finds one whenever there is one.
use native.Mathlib.Decide.{dec_le}
use sdnagent.Base.{
  ℕ, zero, suc, ◌+◌, ◌-◌, ◌%◌, ◌≤◌, ◌<◌, none, some, List, [], ◌∷◌, Str, nat_eq, lookup, length,
  ◌≡◌, refl, ◌⊎◌, inl, inr, arith, Option-cases, ◌≢◌,
}
use sdnagent.ZoneMan.Defs.{found, probe}

-- How many indices below `n` are taken.
used : ℕ → List (ℕ × Str) → ℕ
unfolding lookup
used zero m = 0
used (suc n) m = let rest = used n m in elim (lookup n m) [ none ↦ rest | some mac ↦ suc rest ]

used-nil : (n : ℕ) → used n [] ≡ 0
unfolding used
used-nil zero = refl
used-nil (suc n) = used-nil n

used_above : (n j : ℕ) (mac : Str) (m : List (ℕ × Str)) → n ≤ j → used n ((j, mac) ∷ m) ≡ used n m
unfolding used
used_above zero j mac m h = refl
used_above (suc n) j mac m h = ground (arith, used_above n j mac m)

used-cons : (n j : ℕ) (mac : Str) (m : List (ℕ × Str)) → used n ((j, mac) ∷ m) ≤ suc (used n m)
unfolding used
used-cons zero j mac m = omega arith
used-cons (suc n) j mac m = ground (arith, used-cons n j mac m, used_above n j mac m)

used-le-length : (n : ℕ) (m : List (ℕ × Str)) → used n m ≤ length m
used-le-length n [] = omega (arith, used-nil n)
used-le-length n ((j, mac) ∷ m) = omega (arith, used-cons n j mac m, used-le-length n m)

used_full : (n : ℕ) (m : List (ℕ × Str)) → used n m < n → (i : ℕ) × (i < n) × (lookup i m ≡ none)
unfolding used
used_full zero m h = absurd (omega arith)
used_full (suc n) m h = elim (Option-cases (lookup n m)) [
  | inl free ↦ (n, omega arith, free)
  | inr (mac, taken) ↦ let (i, p, q) = used_full n m (ground arith) in (i, omega arith, q)
]

-- With fewer entries than indices, some index is free.
pub free_index :
    (n : ℕ) (m : List (ℕ × Str)) → length m < n → (i : ℕ) × (i < n) × (lookup i m ≡ none)
free_index n m h = used_full n m (omega (arith, used-le-length n m))

-- `i` is `k` places after `j`, round the circle of `n` places.
abbrev After : ℕ → ℕ → ℕ → ℕ → Type 0
After n j k i = (i ≡ j + k) ⊎ (i + n ≡ j + k)

wrap : (n i : ℕ) → i < n → ((i + 1) % n ≡ i + 1) × (i + 1 < n) ⊎ ((i + 1) % n ≡ 0) × (i + 1 ≡ n)
wrap n i p = grind arith

next-After :
    (n j k i : ℕ)
    → i < n
    → j < n
    → suc k < n
    → After n j k i
    → After n j (suc k) ((i + 1) % n) × ((i + 1) % n < n) × ((i + 1) % n ≢ j)
next-After n j k i p q r h = elim (wrap n i p) [
  | inl (a, b) ↦ rw a (grind arith)
  | inr (a, b) ↦ rw a (grind arith)
]

-- `suc k + (v - 1)` is `k + v`.
shift : (k v : ℕ) → 0 < v → suc k + (v - 1) ≡ k + v
shift k v h = omega arith

small : (n : ℕ) → n < 0x1_0000 → (n % 0x1_0000 ≡ n) × Unit {0}
small n h = (omega arith, tt)

not_here : (n j i u k v : ℕ) → i ≢ u → After n j k i → After n j (k + v) u → i < n → u < n → 0 < v
not_here n j i u k zero ne a b p q = absurd (ground arith)
not_here n j i u k (suc v) ne a b p q = omega arith

pub probe_lem :
    (fuel n : ℕ) (m : List (ℕ × Str)) (i j k : ℕ) (u v : ℕ)
    → i < n
    → j < n
    → n < 0x1_0000
    → After n j k i
    → After n j (k + v) u
    → k + v < n
    → v < fuel
    → u < n
    → lookup u m ≡ none
    → (w : ℕ) × (probe fuel n m i j ≡ found w) × (w < n) × (lookup w m ≡ none)
unfolding probe
probe_lem zero n m i j k u v p q r a b c d e f = absurd (omega arith)
probe_lem (suc fuel) n m i j k u v p q r a b c d e f = elim (Option-cases (lookup i m)) [
  | inl free ↦ (i, rw (free, probe), p, free)
  | inr (mac, taken) ↦
      let far : 0 < v = not_here n j i u k v (λ e'. ground arith) a b p e in
      let (a', p', o) = next-After n j k i p q (omega arith) a in
      let (w, run, low, free) =
        probe_lem fuel n m ((i + 1) % n) j (suc k) u (v - 1) p' q r a' (rw (shift k v far) b)
          (omega arith) (omega arith) e f in
      let (x, y) = small n r in (w, ground (arith, taken, o), low, free)
]

-- Every place is fewer than `n` places after every other.
around : (n i u : ℕ) → i < n → u < n → (k : ℕ) × (0 + k < n) × After n i (0 + k) u
around n i u p q = elim (dec_le i u) [
  | yes h ↦ (u - i, omega arith, inl (omega arith))
  | no h ↦ (u + n - i, omega arith, inr (omega arith))
]

-- With fewer entries than places, as many rounds as there are places find a free one.
pub probe_found :
    (n : ℕ) (m : List (ℕ × Str)) (i : ℕ)
    → n < 0x1_0000
    → i < n
    → length m < n
    → (w : ℕ) × (probe n n m i i ≡ found w) × (w < n) × (lookup w m ≡ none)
probe_found n m i r p h =
    let (u, u_low, u_free) = free_index n m h in
    let (k, k_low, k_at) = around n i u p u_low in
    probe_lem n n m i i 0 u k p p r (inl (omega arith)) k_at k_low (omega arith) u_low u_free
