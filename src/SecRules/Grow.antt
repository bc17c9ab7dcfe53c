-- ===== src/SecRules/Grow.antt =====
-- pkg/agent/utils/securityrules.go: the loop of PortRangeToMasks that doubles the block.
use sdnagent.Base.{
  ℕ, zero, suc, ◌+◌, ◌-◌, ◌*◌, ◌%◌, ◌^◌, ◌≤◌, ◌<◌, bit_and, bit_and_low, pow-suc, pow_pos, some,
  true, ◌&&◌, leb, ltb, ◌==◌, if◌then◌else◌, ◌≡◌, refl, ◌∙◌, arith, inl, inr, Bool-cases,
}
use sdnagent.SecRules.Ports.{grow}

large_pow : (k : ℕ) → 17 ≤ k → 0x2_0000 ≤ 2 ^ k
large_pow zero h = absurd (omega arith)
large_pow (suc k) h = elim (Bool-cases (ltb 16 k)) [
  | inl p ↦ let ih = large_pow k (ground arith) in omega (arith, pow-suc 2 k)
  | inr p ↦ let e : k ≡ 16 = ground arith in rw e (omega arith)
]

pub small_exponent : (k : ℕ) → 2 ^ k ≤ 0x1_0000 → k ≤ 16
small_exponent k h = elim (Bool-cases (ltb 16 k)) [
  | inl p ↦ let l = large_pow k (ground arith) in absurd (omega arith)
  | inr p ↦ ground arith
]

-- The block of `2 ^ k` ports from `sp` on is aligned and ends before `ep`.
abbrev pub Fits : ℕ → ℕ → ℕ → Type 0
Fits sp ep k = (sp + 2 ^ k ≤ ep) × (sp % 2 ^ k ≡ 0)

low_ones : (b : ℕ) → 0 < b → b ≤ 0x2_0000 → (b + 0xffff_ffff) % 0x1_0000_0000 ≡ b - 1
low_ones b p h = omega arith

-- One round of the loop, its machine arithmetic done.
round_lem :
    (fuel k sp ep : ℕ)
    → sp ≤ 0x1_0000
    → 2 ^ k ≤ 0x1_0000
    → grow (suc fuel) sp ep (2 ^ suc k) ≡ (
        if leb (sp + 2 ^ suc k) ep && (sp % 2 ^ suc k == 0)
        then grow fuel sp ep (2 ^ suc (suc k))
        else some (2 ^ suc k))
unfolding grow
round_lem fuel k sp ep h p =
    let d = pow-suc 2 k in
    let e : (sp + 2 ^ suc k) % 0x1_0000_0000 ≡ sp + 2 ^ suc k = omega arith in
    let double : 2 ^ suc k * 2 % 0x1_0000_0000 ≡ 2 ^ suc (suc k) =
      omega (arith, pow-suc 2 (suc k)) in
    let ones = low_ones (2 ^ suc k) (pow_pos (suc k)) (omega arith) in
    rw (e, double, ones, bit_and_low sp (suc k)) refl

pub grow-Fits :
    (fuel k sp ep : ℕ)
    → ep ≤ 0x1_0000
    → 17 ≤ fuel + k
    → Fits sp ep k
    → (j : ℕ) × Fits sp ep j × (grow (suc fuel) sp ep (2 ^ suc k) ≡ some (2 ^ suc j))
grow-Fits zero k sp ep h f (p, q) = let s = small_exponent k (omega arith) in absurd (omega arith)
grow-Fits (suc fuel) k sp ep h f (p, q) =
    let r = round_lem (suc fuel) k sp ep (omega arith) (omega arith) in
    elim (Bool-cases (leb (sp + 2 ^ suc k) ep && (sp % 2 ^ suc k == 0))) [
      | inl go ↦
          let (j, fits, e) = grow-Fits fuel (suc k) sp ep h (omega arith) (ground arith) in
          (j, fits, r ∙ rw (go, e) refl)
      | inr stop ↦ (k, (p, q), r ∙ rw stop refl)
    ]

-- From a block of one port on, with the fuel that `cover` gives.
pub grow_lem :
    (sp ep : ℕ)
    → sp < ep
    → ep ≤ 0x1_0000
    → (j : ℕ) × Fits sp ep j × (grow 33 sp ep 1 ≡ some (2 ^ suc j))
unfolding grow
grow_lem sp ep h p =
    let (j, fits, e) = grow-Fits 31 0 sp ep p (omega arith) (omega arith, omega arith) in
    let first : leb ((sp + 1) % 0x1_0000_0000) ep && (bit_and sp 0 == 0) ≡ true =
      ground (arith, bit_and_low sp 0) in
    (j, fits, rw first e)
