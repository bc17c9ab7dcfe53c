-- ===== src/SecRules/Cover.antt =====
-- pkg/agent/utils/securityrules.go: the masks of PortRangeToMasks match the ports of the range, each
-- once, and no others.
use native.Mathlib.Nat.{
  zero-add, one-mul, suc-mul, mul-le-mul_right, mod-lt, mod-eq_of_lt, div-lt_iff_lt-mul,
  div-add-mod',
}
use sdnagent.Base.{
  ℕ, zero, suc, ◌+◌, ◌-◌, ◌/◌, ◌*◌, ◌%◌, ◌^◌, ◌≤◌, ◌<◌, bit_and, bit_and_high, pow-suc, pow_pos,
  some, List, [], ◌∷◌, true, ◌&&◌, leb, ltb, ◌==◌, if◌then◌else◌, ◌≡◌, refl, ◌∙◌, arith, ◌⊎◌, inl,
  inr, Bool-cases, lt→ltb, ltb→lt, bit_and_low,
}
use sdnagent.SecRules.Ports.{grow, mask_of, cover, port_range_to_masks}
use sdnagent.SecRules.Grow.{Fits, grow_lem, small_exponent}

-- How many of the pairs (value, mask) a port matches, as `tp_dst=value/mask` does.
unfoldable pub matches : ℕ → List (ℕ × ℕ) → ℕ
matches p [] = 0
matches p ((v, mask) ∷ r) = let rest = matches p r in if bit_and p mask == v then suc rest else rest

-- Whether a port is one of those from `lo` to before `hi`: 1 or 0.
abbrev pub within : ℕ → ℕ → ℕ → ℕ
within lo hi p = if leb lo p && ltb p hi then 1 else 0

pow_add : (i j : ℕ) → 2 ^ i * 2 ^ j ≡ 2 ^ (i + j)
pow_add zero j = rw (one-mul (2 ^ j), zero-add j) refl
pow_add (suc i) j = grind (arith, pow_add i j, pow-suc 2 i, pow-suc 2 (i + j))

pow_split : (j : ℕ) → j ≤ 16 → 2 ^ (16 - j) * 2 ^ j ≡ 0x1_0000
pow_split j h = let e : 16 - j + j ≡ 16 = omega arith in pow_add (16 - j) j ∙ rw e refl

-- The mask of a block of `b` ports is the `a` high values of a uint16, `a * b` being `2 ^ 16`.
mask_lem : (a b : ℕ) → a * b ≡ 0x1_0000 → 0 < b → mask_of b ≡ (a - 1) * b
unfolding mask_of
mask_lem (suc a) b h p =
    let l : suc a * b ≡ a * b + b = grind arith in
    let less : suc a - 1 ≡ a = omega arith in rw less (omega arith)
mask_lem zero b h p = absurd (omega arith)

next_multiple : (b m n : ℕ) → m < n → m * b + b ≤ n * b
next_multiple b m n h = let l = mul-le-mul_right b h in omega (arith, suc-mul m b)

trichotomy : (m n : ℕ) → (m < n) ⊎ ((m ≡ n) ⊎ (n < m))
trichotomy m n = ground arith

in_block :
    (b m n r p sp : ℕ)
    → r < b
    → m * b + r ≡ p
    → n * b ≡ sp
    → (m * b == sp) ≡ leb sp p && ltb p (sp + b)
in_block b m n r p sp h e f = elim (trichotomy m n) [
  | inl below ↦ let l = next_multiple b m n below in ground arith
  | inr (inl g) ↦ let l : m * b ≡ n * b = rw g refl in ground arith
  | inr (inr above) ↦ let l = next_multiple b n m above in ground arith
]

aligned :
    (a b sp p : ℕ)
    → a * b ≡ 0x1_0000
    → 0 < b
    → sp % b ≡ 0
    → p < 0x1_0000
    → (p / b % a * b == sp) ≡ leb sp p && ltb p (sp + b)
aligned a b sp p h pos q lt =
    let quot : p / b % a ≡ p / b = mod-eq_of_lt ((div-lt_iff_lt-mul pos).1 (omega arith)) in
    let whole : sp / b * b ≡ sp = omega (arith, div-add-mod' sp b) in
    rw quot (in_block b (p / b) (sp / b) (p % b) p sp (mod-lt p pos) (div-add-mod' p b) whole)

-- A port matches the mask of an aligned block exactly if it is in it.
block_lem :
    (j sp p : ℕ)
    → Fits sp 0x1_0000 j
    → p < 0x1_0000
    → (bit_and p (mask_of (2 ^ j)) == sp) ≡ leb sp p && ltb p (sp + 2 ^ j)
block_lem j sp p (f, q) h =
    let split = pow_split j (small_exponent j (omega arith)) in
    let high = bit_and_high p (16 - j) j in
    let mask = mask_lem (2 ^ (16 - j)) (2 ^ j) split (pow_pos j) in
    rw (mask, high) (aligned (2 ^ (16 - j)) (2 ^ j) sp p split (pow_pos j) q h)

-- One round of the outer loop, its machine arithmetic done.
cover_round :
    (fuel sp ep j : ℕ) (r : List (ℕ × ℕ))
    → sp < ep
    → ep ≤ 0x1_0000
    → Fits sp ep j
    → grow 33 sp ep 1 ≡ some (2 ^ suc j)
    → cover fuel (sp + 2 ^ j) ep ≡ some r
    → cover (suc fuel) sp ep ≡ some ((sp, mask_of (2 ^ j)) ∷ r)
unfolding cover
cover_round fuel sp ep j r lt h (fits, al) e f =
    let half : 2 ^ suc j / 2 ≡ 2 ^ j = omega (arith, pow-suc 2 j) in
    let next : (sp + 2 ^ j) % 0x1_0000_0000 ≡ sp + 2 ^ j = omega arith in
    let value : sp % 0x1_0000 ≡ sp = omega arith in
    rw (lt→ltb sp ep lt, e, half, next, f, value, half) refl

-- A block and what follows it.
matches_round :
    (sp ep p j : ℕ) (r : List (ℕ × ℕ))
    → ep ≤ 0x1_0000
    → p < 0x1_0000
    → Fits sp ep j
    → matches p r ≡ within (sp + 2 ^ j) ep p
    → matches p ((sp, mask_of (2 ^ j)) ∷ r) ≡ within sp ep p
unfolding matches
matches_round sp ep p j r h q (fits, al) e =
    let b = block_lem j sp p (omega arith, al) q in rw (b, e) (ground (arith, pow_pos j))

-- No mask is 0.
unfoldable pub Masked : List (ℕ × ℕ) → Type 0
Masked [] = Unit
Masked ((v, mask) ∷ r) = (0 < mask) × Masked r

le_of_multiple : (b n : ℕ) → 0 < b → 0 < n → n % b ≡ 0 → b ≤ n
le_of_multiple b n h k e = grind arith

masked_round : (sp ep j : ℕ) → 0 < sp → ep ≤ 0x1_0000 → Fits sp ep j → 0 < mask_of (2 ^ j)
unfolding mask_of
masked_round sp ep j h k (fits, al) =
    let positive = pow_pos j in
    let le : 2 ^ j ≤ sp = le_of_multiple (2 ^ j) sp positive h al in omega arith

cover-matches :
    (fuel sp ep : ℕ)
    → ep ≤ 0x1_0000
    → 0 < fuel
    → ep < fuel + sp
    → (r : List (ℕ × ℕ)) × (cover fuel sp ep ≡ some r)
      × ((p : ℕ) → p < 0x1_0000 → matches p r ≡ within sp ep p)
      × (0 < sp → Masked r)
unfolding cover matches Masked
cover-matches zero sp ep h pos f = absurd (omega arith)
cover-matches (suc fuel) sp ep h pos f = elim (Bool-cases (ltb sp ep)) [
  | inl more ↦
      let (j, fits, e) = grow_lem sp ep (ltb→lt sp ep more) h in
      let (r, runs, right, masked) =
        cover-matches fuel (sp + 2 ^ j) ep h (ground arith) (omega (arith, pow_pos j)) in
      (
        (sp, mask_of (2 ^ j)) ∷ r,
        cover_round fuel sp ep j r (ltb→lt sp ep more) h fits e runs,
        λ p q. matches_round sp ep p j r h q fits (right p q),
        λ q. (masked_round sp ep j q h fits, masked (omega arith)),
      )
  | inr done ↦ ([], rw done refl, λ p q. ground arith, λ q. tt)
]

single_lem :
    (s e p : ℕ)
    → (s == e) ≡ true
    → p < 0x1_0000
    → matches p ((s, 0xffff) ∷ []) ≡ (if leb s p && leb p e then 1 else 0)
unfolding matches
single_lem s e p h q = let low = bit_and_low p 16 in ground arith

-- PortRangeToMasks on two ports always ends, with pairs of which a port of the range matches exactly
-- one and any other port none; no mask is 0 if the range begins above 0.
pub port_range_to_masks-matches :
    (s e : ℕ)
    → s < 0x1_0000
    → e < 0x1_0000
    → (r : List (ℕ × ℕ)) × (port_range_to_masks s e ≡ some r)
      × ((p : ℕ) → p < 0x1_0000 → matches p r ≡ (if leb s p && leb p e then 1 else 0))
      × (0 < s → Masked r)
unfolding port_range_to_masks matches Masked
port_range_to_masks-matches s e h k = elim (Bool-cases (s == e)) [
  | inl same ↦
      ((s, 0xffff) ∷ [], rw same refl, λ p q. single_lem s e p same q, λ p. (omega arith, tt))
  | inr other ↦
      let (r, runs, right, masked) =
        cover-matches (suc (e + 1 - s)) s (e + 1) (omega arith) (omega arith) (omega arith) in
      (r, rw (other, runs) refl, λ p q. right p q ∙ ground arith, masked)
]
