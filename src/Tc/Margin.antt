-- ===== src/Tc/Margin.antt =====
-- pkg/tc/qdisc_tbf.go: the comparison of two token bucket filters, with its margins in 64 bits.
use sdnagent.Base.{
  ℕ, ◌+◌, ◌-◌, ◌%◌, ◌≤◌, ◌<◌, lt, eq, gt, Bool, true, false, not, ◌&&◌, some, str_eq_refl,
  compare_str-IsLawful, cmp_refl, compare-IsLawful, reverse, ltb, if◌then◌else◌, ◌≡◌, refl, arith,
}
use sdnagent.Tc.Units.{uint64}
use sdnagent.Tc.Objects.{
  BaseQdisc, compare_base_qdisc, tbf, base_of, compare_within, compare_settings, compare_qdisc,
}

-- A value from which the margin can be taken and to which it can be added within 64 bits.
abbrev pub Roomy : ℕ → ℕ → Type 0
Roomy margin a = (margin ≤ a) × (a + margin < uint64)

-- With room for the margin the comparison says less or greater exactly if the values are further
-- apart than the margin, and so the two ways round agree.
pub compare_within-flip :
    (margin a b : ℕ)
    → Roomy margin a
    → Roomy margin b
    → (compare_within margin a b
        ≡ (if ltb (a + margin) b then lt else if ltb (b + margin) a then gt else eq))
      × (compare_within margin b a ≡ reverse (compare_within margin a b))
unfolding compare_within
compare_within-flip margin a b (p, q) (r, s) =
    let up_a : (a + margin) % uint64 ≡ a + margin = omega arith in
    let up_b : (b + margin) % uint64 ≡ b + margin = omega arith in
    let down_a : (a + uint64 - margin) % uint64 ≡ a - margin = omega arith in
    let down_b : (b + uint64 - margin) % uint64 ≡ b - margin = omega arith in
    (rw (up_a, down_a) (ground arith), rw (up_a, up_b, down_a, down_b) (ground arith))

root_refl : (b : Bool) → (if not b && b then gt else if b && not b then lt else eq) ≡ eq
root_refl true = refl
root_refl false = refl

pub base_refl : (q : BaseQdisc) → compare_base_qdisc q q ≡ eq
unfolding compare_base_qdisc
base_refl q =
    let h = str_eq_refl q.handle in
    let k = str_eq_refl q.kind in
    let p = cmp_refl compare_str-IsLawful q.parent in rw (h, k, p) (root_refl q.root)

-- Below the margin the subtraction wraps: of two filters that differ only in bursts below 500, the
-- larger compares as greater, though the other way round they compare as equal.
pub compare_qdisc_wraps :
    (base : BaseQdisc) (rate a b latency : ℕ)
    → b < a
    → a < 500
    → (compare_qdisc (tbf base rate a latency) (tbf base rate b latency) ≡ some gt)
      × (compare_qdisc (tbf base rate b latency) (tbf base rate a latency) ≡ some eq)
unfolding compare_qdisc base_of compare_settings compare_within
compare_qdisc_wraps base rate a b latency p q =
    let e = base_refl base in
    let f = cmp_refl compare-IsLawful rate in
    let above : compare_within 500 a b ≡ gt = ground arith in
    let below : compare_within 500 b a ≡ eq = ground arith in
    let same : compare_within 70000 latency latency ≡ eq = ground arith in
    (
      rw (compare_qdisc, e, compare_settings, f, above) refl,
      rw (compare_qdisc, e, compare_settings, f, below, same) refl,
    )
