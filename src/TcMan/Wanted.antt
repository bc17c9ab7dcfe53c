-- ===== src/TcMan/Wanted.antt =====
-- pkg/agent/utils/tcdata.go: the queueing disciplines that are wanted of an interface. The product of a
-- rate with the factor 1.1, in floating point, is the parameter `amplify`; the factor 1.0 gives the
-- rate itself below 2 ^ 53.
use sdnagent.Base.{
  Bool-cases, inl, inr, compare-IsLawful, ℕ, ◌+◌, ◌*◌, ◌/◌, ◌%◌, ◌<◌, ◌≤◌, ltb, Ordering, lt, eq,
  gt, true, false, some, List, [], ◌∷◌, ◌++◌, Str, codes, compare, reverse, ◌then_by◌,
  if◌then◌else◌, ◌≡◌, refl, ◌∙◌, ap, arith,
}
use sdnagent.Guest.{TcData}
use sdnagent.Tc.Units.{uint64}
use sdnagent.Tc.Objects.{
  BaseQdisc, Qdisc, htb, tbf, ingress, base_of, compare_settings, compare_qdisc, compare_within,
}
use sdnagent.Tc.Margin.{Roomy, compare_within-flip, base_refl}

-- OvsLocalPortNo
abbrev pub ovs_local_port_no : ℕ
ovs_local_port_no = 65_534

unfoldable pub ifb_ifname : TcData → Str
ifb_ifname td = codes "r" ++ td.ifname

abbrev pub tbf_base : BaseQdisc
tbf_base = record { kind = codes "tbf"; handle = codes "1:"; parent = []; root = true }

-- The products are those of `uint64`.
unfoldable pub tbf_rate : ℕ → ℕ
tbf_rate rate_mbps = rate_mbps * 1000 % uint64 * 1000 % uint64

unfoldable pub tbf_burst : ℕ → ℕ
unfolding tbf_rate
tbf_burst rate_mbps =
    let burst = tbf_rate rate_mbps / 8 / 1000 in if ltb burst 3400 then 3400 else burst

unfoldable pub tbf_qdisc : ℕ → Qdisc
tbf_qdisc rate_mbps = tbf tbf_base (tbf_rate rate_mbps) (tbf_burst rate_mbps) 100_000_000

unfoldable pub ingress_qdisc : Qdisc
ingress_qdisc =
    ingress (record { kind = codes "ingress"; handle = codes "ffff:"; parent = []; root = false })

unfoldable pub host_root_qdisc : List Qdisc
host_root_qdisc =
    htb (record { kind = codes "htb"; handle = codes "1:"; parent = []; root = true })
      ovs_local_port_no
    ∷ []

module _ (same_rate amplify : ℕ → ℕ) where
  unfoldable pub guest_nic_root_qdisc : TcData → List Qdisc
  unfolding tbf_qdisc ingress_qdisc
  guest_nic_root_qdisc td = tbf_qdisc (same_rate td.ingress_mbps) ∷ ingress_qdisc ∷ []

  unfoldable pub guest_ifb_nic_root_qdisc : TcData → List Qdisc
  unfolding tbf_qdisc
  guest_ifb_nic_root_qdisc td = tbf_qdisc (amplify td.egress_mbps) ∷ []

clamped-Roomy :
    (rate : ℕ)
    → rate < uint64
    → Roomy 500 (if ltb (rate / 8 / 1000) 3400 then 3400 else rate / 8 / 1000)
clamped-Roomy rate h = elim (Bool-cases (ltb (rate / 8 / 1000) 3400)) [
  | inl small ↦ rw small (omega arith, omega arith)
  | inr large ↦
      let above : 3400 ≤ rate / 8 / 1000 = ground (arith, large) in
      rw large (omega (arith, above), omega (arith, h))
]

-- The wanted burst leaves room for the margin of the comparison.
tbf_burst-Roomy : (rate_mbps : ℕ) → Roomy 500 (tbf_burst rate_mbps)
unfolding tbf_burst tbf_rate
tbf_burst-Roomy rate_mbps = clamped-Roomy (rate_mbps * 1000 % uint64 * 1000 % uint64) (omega arith)

-- Less or greater if the values are further apart than the margin.
abbrev pub apart : ℕ → ℕ → ℕ → Ordering
apart margin a b = if ltb (a + margin) b then lt else if ltb (b + margin) a then gt else eq

compare_tbf :
    (base : BaseQdisc) (r b l r2 b2 l2 : ℕ)
    → compare_qdisc (tbf base r b l) (tbf base r2 b2 l2)
      ≡ some (compare r r2 then_by compare_within 500 b b2 then_by compare_within 70_000 l l2)
unfolding compare_qdisc base_of compare_settings
compare_tbf base r b l r2 b2 l2 = rw (compare_qdisc, base_refl base, compare_settings) refl

reverse-then_by : (o p : Ordering) → reverse o then_by reverse p ≡ reverse (o then_by p)
reverse-then_by lt p = refl
reverse-then_by eq p = refl
reverse-then_by gt p = refl

flipped :
    (o p q : Ordering)
    → reverse o then_by reverse p then_by reverse q ≡ reverse (o then_by p then_by q)
flipped lt p q = refl
flipped eq p q = reverse-then_by p q
flipped gt p q = refl

-- The wanted filter of a guest's interface, compared with one that was read for the same place, whose
-- burst and latency leave room for the margins: the rates are compared first, then the bursts with a
-- margin of 500 and the latencies with one of 70000. Neither way round panics, and the two ways
-- agree.
pub compare_qdisc-tbf_qdisc :
    (rate_mbps rate burst latency : ℕ)
    → Roomy 500 burst
    → Roomy 70_000 latency
    → (compare_qdisc (tbf_qdisc rate_mbps) (tbf tbf_base rate burst latency)
        ≡ some (
            compare (tbf_rate rate_mbps) rate
            then_by apart 500 (tbf_burst rate_mbps) burst
            then_by apart 70_000 100_000_000 latency))
      × (compare_qdisc (tbf tbf_base rate burst latency) (tbf_qdisc rate_mbps)
          ≡ some (
              reverse (
                compare (tbf_rate rate_mbps) rate
                then_by apart 500 (tbf_burst rate_mbps) burst
                then_by apart 70_000 100_000_000 latency)))
unfolding tbf_qdisc
compare_qdisc-tbf_qdisc rate_mbps rate burst latency room_b room_l =
    let r = compare (tbf_rate rate_mbps) rate in
    let (b, b') =
      compare_within-flip 500 (tbf_burst rate_mbps) burst (tbf_burst-Roomy rate_mbps) room_b in
    let (l, l') =
      compare_within-flip 70_000 100_000_000 latency (omega arith, omega arith) room_l in
    (
      compare_tbf tbf_base (tbf_rate rate_mbps) (tbf_burst rate_mbps) 100_000_000 rate burst latency
          ∙ rw (b, l) refl,
      compare_tbf tbf_base rate burst latency (tbf_rate rate_mbps) (tbf_burst rate_mbps) 100_000_000
          ∙ rw (compare-IsLawful.flip (tbf_rate rate_mbps) rate, b', l', b, l)
              (ap some (
                flipped r (apart 500 (tbf_burst rate_mbps) burst)
                  (apart 70_000 100_000_000 latency))),
    )
