-- ===== src/Tc/Handles.antt =====
-- pkg/tc/handle.go: the texts of traffic control handles.
use sdnagent.Base.{
  ℕ, zero, suc, ◌+◌, ◌*◌, ◌/◌, ◌%◌, ◌≤◌, ◌<◌, Bool, true, false, ◌&&◌, ◌||◌, Option, none, some, [],
  ◌∷◌, ◌++◌, Str, codes, str_eq, eq_of_str_eq, ltb, leb, ◌==◌, if◌then◌else◌, bit_and, bit_and_low,
  cut, lacks, cut-append, cut_lacking, lacks-append, print_digits, print_hex, ◌≡◌, refl, sym, ap,
  ◌∙◌, arith, Bool-cases, inl, inr,
}
use sdnagent.Tc.Objects.{hex_value}

abbrev tc_h_unspec : ℕ
tc_h_unspec = 0

abbrev tc_h_root : ℕ
tc_h_root = 0xFFFF_FFFF

-- strconv.ParseUint(v, 16, 16) of the digits that are left, after a number.
unfoldable pub parse_hex16 : ℕ → Str → Option ℕ
parse_hex16 n [] = some n
parse_hex16 n (c ∷ s) =
    let rest = parse_hex16 (n * 16 + hex_value c) s in
    if hex_value c == 16 then none else if ltb 0xffff (n * 16 + hex_value c) then none else rest

-- One half of a handle; the empty text is 0.
unfoldable pub parse_half : Str → Option ℕ
unfolding parse_hex16
parse_half [] = some 0
parse_half (c ∷ s) = parse_hex16 0 (c ∷ s)

-- What follows the first '#', if there is one.
unfoldable pub after_hash : Str → Str
unfolding cut
after_hash s = elim (cut 35 s) [ none ↦ s | some (name, handle) ↦ handle ]

-- The two halves as one number: shifted by 16 bits, in 32 bits, and joined.
unfoldable pub parse_halves : Option (Str × Str) → Option ℕ
unfolding parse_half
parse_halves none = none
parse_halves (some (major, minor)) = elim (parse_half major) [
  | none ↦ none
  | some m ↦ elim (parse_half minor) [
    | none ↦ none
    | some n ↦ some (m * 0x1_0000 % 0x1_0000_0000 + n)
  ]
]

-- parseHandle: `none` is an error.
unfoldable pub parse_handle : Str → Option ℕ
unfolding str_eq
parse_handle s =
    if str_eq s (codes "root")
    then some tc_h_root
    else if str_eq s (codes "none")
    then some tc_h_unspec
    else parse_halves (cut 58 (after_hash s))

unfoldable pub sprint_minor : ℕ → Str
unfolding print_hex
sprint_minor n = if n == 0 then [] else print_hex n

-- sprintHandle
unfoldable pub sprint_handle : ℕ → Str
unfolding print_hex sprint_minor
sprint_handle h = print_hex (h / 0x1_0000) ++ 58 ∷ sprint_minor (bit_and h 0xffff)

hex_value_digit : (d : ℕ) → d < 16 → hex_value (if ltb d 10 then 48 + d else 87 + d) ≡ d
hex_value_digit d h = ground arith

parse_digit :
    (n d : ℕ) (acc : Str)
    → d < 16
    → n * 16 + d ≤ 0xffff
    → parse_hex16 n ((if ltb d 10 then 48 + d else 87 + d) ∷ acc) ≡ parse_hex16 (n * 16 + d) acc
unfolding parse_hex16
parse_digit n d acc small bound = rw (hex_value_digit d small) (ground arith)

-- Reading the printed digits of a number before others is reading the others after the number.
parse_hex16-print_digits :
    (fuel n : ℕ) (acc : Str)
    → n < fuel
    → n ≤ 0xffff
    → parse_hex16 0 (print_digits fuel 16 n acc) ≡ parse_hex16 n acc
unfolding print_digits
parse_hex16-print_digits zero n acc h bound = absurd (omega arith)
parse_hex16-print_digits (suc fuel) n acc h bound = elim (Bool-cases (ltb n 16)) [
  | inl small ↦
      rw (small, print_digits)
        (parse_digit 0 n acc (ground arith) (omega arith)
          ∙ ap (λ k. parse_hex16 k acc) (omega arith))
  | inr large ↦
      rw (large, print_digits)
        (parse_hex16-print_digits fuel (n / 16) _ (ground arith) (omega arith)
          ∙ parse_digit (n / 16) (n % 16) acc (omega arith) (omega arith)
          ∙ ap (λ k. parse_hex16 k acc) (omega arith))
]

parse_half_lem : (s : Str) → parse_half s ≡ parse_hex16 0 s
unfolding parse_half parse_hex16
parse_half_lem [] = refl
parse_half_lem (c ∷ s) = refl

pub parse_hex16-print_hex : (n : ℕ) → n ≤ 0xffff → parse_hex16 0 (print_hex n) ≡ some n
unfolding print_hex parse_hex16
parse_hex16-print_hex n bound = parse_hex16-print_digits (suc n) n [] (omega arith) bound

parse_half-print_hex : (n : ℕ) → n ≤ 0xffff → parse_half (print_hex n) ≡ some n
parse_half-print_hex n bound = parse_half_lem (print_hex n) ∙ parse_hex16-print_hex n bound

parse_half-sprint_minor : (n : ℕ) → n ≤ 0xffff → parse_half (sprint_minor n) ≡ some n
unfolding sprint_minor parse_half
parse_half-sprint_minor n bound = elim (Bool-cases (n == 0)) [
  | inl none_left ↦ rw (none_left, sprint_minor) (ap some (ground arith))
  | inr some_left ↦ rw (some_left, sprint_minor) (parse_half-print_hex n bound)
]

abbrev no_digit : ℕ → Bool
no_digit c = leb c 47 || (leb 58 c && leb c 96)

digit_differs :
    (d sep : ℕ)
    → d < 16
    → no_digit sep ≡ true
    → ((if ltb d 10 then 48 + d else 87 + d) == sep) ≡ false
digit_differs d sep h k = ground arith

lacks-print_digits :
    (fuel sep n : ℕ) (acc : Str)
    → no_digit sep ≡ true
    → lacks sep (print_digits fuel 16 n acc) ≡ lacks sep acc
unfolding print_digits lacks
lacks-print_digits zero sep n acc k = refl
lacks-print_digits (suc fuel) sep n acc k = elim (Bool-cases (ltb n 16)) [
  | inl small ↦ rw (small, print_digits) (ground (arith, digit_differs n sep (ground arith) k))
  | inr large ↦
      rw (large, print_digits)
        (lacks-print_digits fuel sep (n / 16) _ k
          ∙ ground (arith, digit_differs (n % 16) sep (omega arith) k))
]

-- Neither ':' nor '#' is a digit.
lacks-print_hex : (sep n : ℕ) → no_digit sep ≡ true → lacks sep (print_hex n) ≡ true
unfolding print_hex lacks
lacks-print_hex sep n k = lacks-print_digits (suc n) sep n [] k

lacks-sprint_minor : (sep n : ℕ) → no_digit sep ≡ true → lacks sep (sprint_minor n) ≡ true
unfolding sprint_minor lacks
lacks-sprint_minor sep n k = ground (arith, lacks-print_hex sep n k)

lacks_hash : (h : ℕ) → lacks 35 (sprint_handle h) ≡ true
unfolding sprint_handle lacks
lacks_hash h =
    lacks-append 35 (print_hex (h / 0x1_0000)) (58 ∷ sprint_minor (bit_and h 0xffff))
    ∙ ground (
      arith,
      lacks-print_hex 35 (h / 0x1_0000) refl,
      lacks-sprint_minor 35 (bit_and h 0xffff) refl,
    )

no_hash : (h : ℕ) → after_hash (sprint_handle h) ≡ sprint_handle h
unfolding after_hash
no_hash h =
    ap (λ o. elim o [ none ↦ sprint_handle h | some w ↦ w.1 ])
      (cut_lacking 35 (sprint_handle h) (lacks_hash h))

cut-sprint_handle :
    (h : ℕ)
    → cut 58 (sprint_handle h) ≡ some (print_hex (h / 0x1_0000), sprint_minor (bit_and h 0xffff))
unfolding sprint_handle
cut-sprint_handle h =
    cut-append 58 (print_hex (h / 0x1_0000)) _ (lacks-print_hex 58 (h / 0x1_0000) refl)

-- The printed handle has a colon, the keywords have none.
not_keyword : (h : ℕ) (word : Str) → cut 58 word ≡ none → str_eq (sprint_handle h) word ≡ false
not_keyword h word e = elim (Bool-cases (str_eq (sprint_handle h) word)) [
  | inr other ↦ other
  | inl same ↦
      let as_word = eq_of_str_eq (sprint_handle h) word same in
      let clash = sym e ∙ ap (cut 58) (sym as_word) ∙ cut-sprint_handle h in cc
]

low_half : (h : ℕ) → bit_and h 0xffff ≡ h % 0x1_0000
low_half h = bit_and_low h 16

parse_halves_of :
    (major minor : Str) (m n : ℕ)
    → parse_half major ≡ some m
    → parse_half minor ≡ some n
    → parse_halves (some (major, minor)) ≡ some (m * 0x1_0000 % 0x1_0000_0000 + n)
unfolding parse_halves
parse_halves_of major minor m n p q = ground (arith, p, q)

parse_halves_lem :
    (h : ℕ)
    → h < 0x1_0000_0000
    → parse_halves (some (print_hex (h / 0x1_0000), sprint_minor (bit_and h 0xffff))) ≡ some h
parse_halves_lem h bound =
    parse_halves_of _ _ (h / 0x1_0000) (h % 0x1_0000)
      (parse_half-print_hex (h / 0x1_0000) (omega arith))
      (ap (λ n. parse_half (sprint_minor n)) (low_half h)
        ∙ parse_half-sprint_minor (h % 0x1_0000) (omega arith))
    ∙ ap some (omega arith)

no_colon : (cut 58 (codes "root") ≡ none) × (cut 58 (codes "none") ≡ none)
unfolding cut
no_colon = (refl, refl)

parse_text :
    (s : Str)
    → str_eq s (codes "root") ≡ false
    → str_eq s (codes "none") ≡ false
    → parse_handle s ≡ parse_halves (cut 58 (after_hash s))
unfolding parse_handle
parse_text s r n = rw (r, parse_handle) (rw (n) refl)

-- Reading the text of a 32-bit handle gives the handle.
pub parse_handle-sprint_handle :
    (h : ℕ) → h < 0x1_0000_0000 → parse_handle (sprint_handle h) ≡ some h
parse_handle-sprint_handle h bound =
    parse_text (sprint_handle h) (not_keyword h (codes "root") no_colon.0)
      (not_keyword h (codes "none") no_colon.1)
    ∙ ap (λ s. parse_halves (cut 58 s)) (no_hash h)
    ∙ ap parse_halves (cut-sprint_handle h)
    ∙ parse_halves_lem h bound
