-- ===== src/Tap/Apart.antt =====
-- pkg/agent/server/tap.go: the names of ports and mirrors tell them apart.
use sdnagent.Base.{
  ℕ, zero, suc, ◌-◌, ◌≤◌, Bool, true, false, some, [], ◌∷◌, ◌++◌, Str, codes, length, print_hex,
  Bool-cases, if◌then◌else◌, ◌≡◌, ◌↔◌, refl, sym, ap, ◌∙◌, arith, inl, inr,
}
use sdnagent.Tc.Handles.{parse_hex16, parse_hex16-print_hex}
use sdnagent.Tap.Names.{
  Mirror, zeros, print_hex4, same_host, mirror_port, tap_port, mirror_name, is_mirror_port,
  has_prefix,
}

parse_hex16-zeros : (n : ℕ) (s : Str) → parse_hex16 0 (zeros n s) ≡ parse_hex16 0 s
unfolding zeros parse_hex16
parse_hex16-zeros zero s = refl
parse_hex16-zeros (suc n) s = parse_hex16-zeros n s

read_back : (n : ℕ) → n ≤ 0xffff → parse_hex16 0 (print_hex4 n) ≡ some n
unfolding print_hex4
read_back n bound =
    parse_hex16-zeros (4 - length (print_hex n)) (print_hex n) ∙ parse_hex16-print_hex n bound

print_hex4_injective : (m n : ℕ) → m ≤ 0xffff → n ≤ 0xffff → print_hex4 m ≡ print_hex4 n → m ≡ n
print_hex4_injective m n p q e =
    let same = sym (read_back m p) ∙ ap (parse_hex16 0) e ∙ read_back n q in cc

-- The text behind the fifth byte, and the third byte.
abbrev behind : Str → Str
behind (a ∷ b ∷ c ∷ d ∷ e ∷ s) = s
behind _ = []

abbrev third : Str → ℕ
third (a ∷ b ∷ c ∷ s) = c
third _ = 0

parts :
    (m : Mirror)
    → (behind (mirror_port m) ≡ print_hex4 m.flow_id)
      × (third (mirror_port m) ≡ (if same_host m then 108 else 103))
      × (is_mirror_port (mirror_port m) ≡ true)
      × (is_mirror_port (tap_port m) ≡ false)
unfolding mirror_port tap_port is_mirror_port has_prefix
parts m = elim (Bool-cases (same_host m)) [
  | inl same ↦
      (ground (arith, same), ground (arith, same), ground (arith, same), ground (arith, same))
  | inr apart ↦
      (ground (arith, apart), ground (arith, apart), ground (arith, apart), ground (arith, apart))
]

same_port :
    (m n : Mirror)
    → m.flow_id ≡ n.flow_id
    → same_host m ≡ same_host n
    → mirror_port m ≡ mirror_port n
unfolding mirror_port
same_port m n e h =
    ap
      (λ b.
        if b
        then (codes "m-loc" ++ print_hex4 m.flow_id)
        else (codes "m-gre" ++ print_hex4 m.flow_id))
      h
    ∙ ap
        (λ k.
          if same_host n then (codes "m-loc" ++ print_hex4 k) else (codes "m-gre" ++ print_hex4 k))
        e

third_differs : (a b : Bool) → Path ℕ (if a then 108 else 103) (if b then 108 else 103) → a ≡ b
third_differs a b e = ground (arith, e)

after_m : Str → Str
after_m [] = []
after_m (c ∷ s) = s

name_parts :
    (m n : Mirror) → mirror_name m ≡ mirror_name n → print_hex4 m.flow_id ≡ print_hex4 n.flow_id
unfolding mirror_name after_m
name_parts m n e = ap after_m e

same_name : (m n : Mirror) → m.flow_id ≡ n.flow_id → mirror_name m ≡ mirror_name n
unfolding mirror_name
same_name m n e = ap (λ k. (codes "m" ++ print_hex4 k)) e

-- For flow ids of 16 bits: two mirrors have the same port exactly if they have the same flow id and both
-- or neither have their ends on one host; they have the same name exactly if they have the same flow
-- id; and the test for the ports of mirrors holds of the port of every mirror and of no port of a tap.
pub mirror_port-mirror_name :
    (m n : Mirror)
    → m.flow_id ≤ 0xffff
    → n.flow_id ≤ 0xffff
    → (mirror_port m ≡ mirror_port n ↔ ((m.flow_id ≡ n.flow_id) × (same_host m ≡ same_host n)))
      × (mirror_name m ≡ mirror_name n ↔ m.flow_id ≡ n.flow_id)
      × (is_mirror_port (mirror_port m) ≡ true)
      × (is_mirror_port (tap_port m) ≡ false)
mirror_port-mirror_name m n p q =
    let (flow_m, host_m, yes_m, no_m) = parts m in
    let (flow_n, host_n, yes_n, no_n) = parts n in
    (
      (
        λ e. (
          print_hex4_injective m.flow_id n.flow_id p q (sym flow_m ∙ ap behind e ∙ flow_n),
          third_differs (same_host m) (same_host n) (sym host_m ∙ ap third e ∙ host_n),
        ),
        λ (e, h). same_port m n e h,
      ),
      (λ e. print_hex4_injective m.flow_id n.flow_id p q (name_parts m n e), λ e. same_name m n e),
      yes_m,
      no_m,
    )
