-- ===== src/Tc/RoundTrip.antt =====
-- pkg/tc/unit.go: what PrintSize prints, ParseSize reads back.
use native.Mathlib.Nat.{div-le_self}
use sdnagent.Base.{
  ℕ, zero, suc, ◌*◌, ◌/◌, ◌%◌, ◌≤◌, ◌<◌, Bool, true, false, not, ◌&&◌, Option, some, [], ◌∷◌, ◌++◌,
  Str, codes, str_eq, compare_str, ltb, leb, ◌==◌, print_digits, print_dec, str_eq_instance, lookup,
  ◌≡◌, refl, arith, Bool-cases, inl, inr,
}
use sdnagent.Tc.Units.{
  is_letter, cut_at_letter, to_lower, size_suffixes, uint64, parse_num_suffix, scaled, parse_size,
  print_size,
}

no_letter : Str → Bool
no_letter [] = true
no_letter (c ∷ s) = not (is_letter c) && no_letter s

digits-no_letter :
    (fuel n : ℕ) (acc : Str) → no_letter acc ≡ true → no_letter (print_digits fuel 10 n acc) ≡ true
unfolding print_digits no_letter
digits-no_letter zero n acc h = h
digits-no_letter (suc fuel) n acc h = elim (Bool-cases (ltb n 10)) [
  | inl small ↦ rw small (ground arith)
  | inr large ↦ rw large (digits-no_letter fuel (n / 10) _ (ground arith))
]

print_dec-no_letter : (n : ℕ) → no_letter (print_dec n) ≡ true
unfolding print_dec no_letter
print_dec-no_letter n = digits-no_letter (suc n) n [] refl

cut-append :
    (num : Str) (c : ℕ) (s : Str)
    → no_letter num ≡ true
    → is_letter c ≡ true
    → cut_at_letter (num ++ c ∷ s) ≡ (num, c ∷ s)
unfolding cut_at_letter no_letter
cut-append [] c s h l = rw l refl
cut-append (d ∷ num) c s h l =
    let plain : is_letter d ≡ false = ground arith in
    let ih = cut-append num c s (ground arith) l in rw (plain, ih) refl

module _ (parse_number : Str → Option ℕ) (limit : ℕ) where
  -- The decimal numbers below the limit are read exactly.
  abbrev Exact : Type 0
  Exact = (m : ℕ) → m < limit → parse_number (print_dec m) ≡ some m

  read_num :
      (m c : ℕ) (s : Str)
      → Exact
      → m < limit
      → is_letter c ≡ true
      → parse_num_suffix parse_number (print_dec m ++ c ∷ s) ≡ some (m, c ∷ s)
  unfolding parse_num_suffix
  read_num m c s exact h l =
      let cut = cut-append (print_dec m) c s (print_dec-no_letter m) l in
      rw (parse_num_suffix, cut, cut, exact m h) refl

  -- The size of `m` times one unit.
  read_unit :
      (n m scale c : ℕ) (s : Str)
      → Exact
      → n < limit
      → n < uint64
      → m ≤ n
      → m * scale ≡ n
      → is_letter c ≡ true
      → lookup (to_lower (c ∷ s)) size_suffixes ≡ some scale
      → parse_size parse_number (print_dec m ++ c ∷ s) ≡ some n
  unfolding parse_size scaled
  read_unit n m scale c s exact h k le e l look =
      let num = read_num m c s exact (omega arith) l in
      let fits : m * scale % uint64 ≡ n = omega arith in
      rw (parse_size, scaled, num, look, fits) refl

  -- What PrintSize prints of a number, ParseSize reads back as the same number, if ParseFloat reads
  -- the decimal numbers below a limit exactly and the number is below that limit and `2 ^ 64`.
  pub parse_size-print_size :
      (n : ℕ) → Exact → n < limit → n < uint64 → parse_size parse_number (print_size n) ≡ some n
  unfolding print_size lookup to_lower str_eq compare_str
  parse_size-print_size n exact h k =
      (elim (Bool-cases (leb 1000000000000 n && (n / 1000000000000 * 1000000000000 == n))) [
        | inl tera ↦ rw tera (
            read_unit n (n / 1000000000000) 1000000000000 84 (codes "b") exact h k
              (div-le_self n 1000000000000) (ground arith) refl refl)
        | inr no_tera ↦
            rw no_tera (elim (Bool-cases (leb 1000000000 n && (n / 1000000000 * 1000000000 == n))) [
              | inl giga ↦ rw giga (
                  read_unit n (n / 1000000000) 1000000000 71 (codes "b") exact h k
                    (div-le_self n 1000000000) (ground arith) refl refl)
              | inr no_giga ↦
                  rw no_giga (elim (Bool-cases (leb 1000000 n && (n / 1000000 * 1000000 == n))) [
                    | inl mega ↦ rw mega (
                        read_unit n (n / 1000000) 1000000 77 (codes "b") exact h k
                          (div-le_self n 1000000) (ground arith) refl refl)
                    | inr no_mega ↦
                        rw no_mega (elim (Bool-cases (leb 1000 n && (n / 1000 * 1000 == n))) [
                          | inl kilo ↦ rw kilo (
                              read_unit n (n / 1000) 1000 75 (codes "b") exact h k
                                (div-le_self n 1000) (ground arith) refl refl)
                          | inr no_kilo ↦ rw no_kilo (
                              read_unit n n 1 98 [] exact h k (omega arith) (omega arith) refl refl)
                        ])
                  ])
            ])
      ])
