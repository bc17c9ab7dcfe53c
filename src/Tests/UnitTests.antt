-- ===== src/Tests/UnitTests.antt =====
-- Runs of the units of pkg/tc, and the round trip of sizes applied at a concrete reader of numbers.
use sdnagent.Base.{
  ℕ, zero, suc, ◌+◌, ◌-◌, ◌*◌, ◌/◌, ◌%◌, ◌<◌, Option, some, [], ◌∷◌, Str, codes, if◌then◌else◌, ap,
  ltb, print_digits, print_dec, ◌≡◌, refl, arith, Bool-cases, inl, inr, ◌∙◌,
}
use sdnagent.Tc.Units.{parse_size, print_size, print_rate, print_rate_loop, print_time}
use sdnagent.Tc.Handles.{parse_handle, sprint_handle, parse_handle-sprint_handle}
use sdnagent.Tc.RoundTrip.{parse_size-print_size}

read_digits : ℕ → Str → ℕ
read_digits n [] = n
read_digits n (c ∷ s) = read_digits (n * 10 + (c - 48)) s

abbrev read_dec : Str → Option ℕ
read_dec s = some (read_digits 0 s)

small_digit : (n : ℕ) → 0 + (48 + n - 48) ≡ n
small_digit n = omega arith

last_digit :
    (n : ℕ) → n / 10 * 10 + ((if ltb (n % 10) 10 then 48 + n % 10 else 87 + n % 10) - 48) ≡ n
last_digit n = ground arith

read-print :
    (fuel n : ℕ) (acc : Str)
    → n < fuel
    → read_digits 0 (print_digits fuel 10 n acc) ≡ read_digits n acc
unfolding read_digits print_digits
read-print zero n acc h = absurd (omega arith)
read-print (suc fuel) n acc h = elim (Bool-cases (ltb n 10)) [
  | inl small ↦ rw small (ap (λ x. read_digits x acc) (small_digit n))
  | inr large ↦
      rw large
        (read-print fuel (n / 10) _ (ground arith) ∙ ap (λ x. read_digits x acc) (last_digit n))
]

read_dec_Exact : (m : ℕ) → m < 0x20_0000_0000_0000 → read_dec (print_dec m) ≡ some m
unfolding read_digits print_dec
read_dec_Exact m h = rw (read-print (suc m) m [] (omega arith)) refl

parse_size-print_size_example : parse_size read_dec (print_size 12500) ≡ some 12500
parse_size-print_size_example =
    parse_size-print_size read_dec 0x20_0000_0000_0000 12500 read_dec_Exact (omega arith)
      (omega arith)

size_run : print_size 3000000 ≡ codes "3Mb"
unfolding print_size print_dec print_digits
size_run = refl

rate_run : print_rate 1234567 ≡ codes "1234Kbit"
unfolding print_rate print_rate_loop print_dec print_digits
rate_run = refl

time_run : print_time 100000 ≡ codes "100ms"
unfolding print_time print_dec print_digits
time_run = refl

parse_handle-sprint_handle_example : parse_handle (sprint_handle 0x1_0010) ≡ some 0x1_0010
parse_handle-sprint_handle_example = parse_handle-sprint_handle 0x1_0010 (omega arith)
