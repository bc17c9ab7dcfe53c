-- ===== src/Base/Bits.antt =====
-- Masks of binary digits: `bit_and` with a run of ones is a remainder or a rounding down.
use Prim.Native.Nat.{
  ℕ, zero, suc, ◌+◌, ◌-◌, ◌*◌, ◌/◌, ◌%◌, ◌^◌, ◌≤◌, ◌<◌, min, bit_and, digits, bit_and-bitwise,
}
use mathlib.Core.Path.{◌≡◌, refl, sym, ◌∙◌}
use native.Mathlib.Nat.{
  pow-suc, one-le-pow, zero-mod, zero-div, zero-mul, div-div-eq-div-mul, div-one, mul-one, mul_comm,
  mul_assoc,
}
use native.Mathlib.Omega.{arith}

pub pow_pos : (k : ℕ) → 0 < 2 ^ k
pow_pos k = one-le-pow k 2 (omega arith)

-- The lowest digit of a remainder by an even number.
mod_double : (a m : ℕ) → 0 < m → a % (m * 2) ≡ (a / 2 % m) * 2 + a % 2
mod_double a m h = grind arith

abbrev and_digits : ℕ → ℕ → ℕ → ℕ
and_digits fuel a b = digits (λ _. zero) min fuel a b

-- `2 ^ k - 1`, halved.
ones_half : (k : ℕ) → ((2 ^ suc k - 1) / 2 ≡ 2 ^ k - 1) × ((2 ^ suc k - 1) % 2 ≡ 1)
ones_half k = (omega (arith, pow-suc 2 k, pow_pos k), omega (arith, pow-suc 2 k, pow_pos k))

low_digits : (fuel k a : ℕ) → a ≤ fuel → and_digits fuel a (2 ^ k - 1) ≡ a % 2 ^ k
low_digits zero k zero h = sym (zero-mod (2 ^ k))
low_digits zero k (suc a) h = absurd (omega arith)
low_digits (suc fuel) k zero h = sym (zero-mod (2 ^ k))
low_digits (suc fuel) zero (suc a) h =
    let ih = low_digits fuel zero (suc a / 2) (omega arith) in omega (arith, ih)
low_digits (suc fuel) (suc k) (suc a) h =
    let (half, odd) = ones_half k in
    let ih = low_digits fuel k (suc a / 2) (omega arith) in
    rw (half, odd, ih, pow-suc 2 k) (omega (arith, mod_double (suc a) (2 ^ k) (pow_pos k)))

-- The lowest `k` digits of a number.
pub bit_and_low : (a k : ℕ) → bit_and a (2 ^ k - 1) ≡ a % 2 ^ k
bit_and_low a k = bit_and-bitwise a (2 ^ k - 1) ∙ low_digits a k a (omega arith)

shift_half : (m : ℕ) (k : ℕ) → (m * 2 ^ suc k / 2 ≡ m * 2 ^ k) × (m * 2 ^ suc k % 2 ≡ 0)
shift_half m k = (rw (pow-suc 2 k) (grind arith), rw (pow-suc 2 k) (grind arith))

min_zero : (r : ℕ) → min r 0 ≡ 0
min_zero r = omega arith

high_zero : (j k : ℕ) → 0 ≡ (0 / 2 ^ k % 2 ^ j) * 2 ^ k
high_zero j k = rw (zero-div (2 ^ k), zero-mod (2 ^ j), zero-mul (2 ^ k)) refl

add_no_digit : (q b r : ℕ) → q * b * 2 + min r 0 ≡ q * (b * 2)
add_no_digit q b r = rw (min_zero r, mul_assoc q b 2) (omega arith)

high_digits :
    (fuel j k a : ℕ)
    → a ≤ fuel
    → and_digits fuel a ((2 ^ j - 1) * 2 ^ k) ≡ (a / 2 ^ k % 2 ^ j) * 2 ^ k
high_digits zero j k zero h = high_zero j k
high_digits zero j k (suc a) h = absurd (omega arith)
high_digits (suc fuel) j k zero h = high_zero j k
high_digits (suc fuel) j zero (suc a) h =
    rw (mul-one (2 ^ j - 1), div-one (suc a), mul-one (suc a % 2 ^ j))
      (low_digits (suc fuel) j (suc a) h)
high_digits (suc fuel) j (suc k) (suc a) h =
    let (half, even) = shift_half (2 ^ j - 1) k in
    let ih = high_digits fuel j k (suc a / 2) (omega arith) in
    rw (half, even, ih, div-div-eq-div-mul (suc a) 2 (2 ^ k), mul_comm 2 (2 ^ k), pow-suc 2 k)
      (add_no_digit (suc a / (2 ^ k * 2) % 2 ^ j) (2 ^ k) (suc a % 2))

-- The digits from the `k`-th on, `j` of them.
pub bit_and_high : (a j k : ℕ) → bit_and a ((2 ^ j - 1) * 2 ^ k) ≡ (a / 2 ^ k % 2 ^ j) * 2 ^ k
bit_and_high a j k = bit_and-bitwise a ((2 ^ j - 1) * 2 ^ k) ∙ high_digits a j k a (omega arith)
