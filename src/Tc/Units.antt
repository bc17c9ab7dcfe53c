-- ===== src/Tc/Units.antt =====
-- pkg/tc/unit.go: sizes, rates and times as tc prints and reads them. A uint64 is its value.
-- `uint64(f)` of the number `f` that strconv.ParseFloat reads is the parameter `parse_number`.
use sdnagent.Base.{
  ℕ, ◌+◌, ◌*◌, ◌/◌, ◌%◌, Bool, not, ◌&&◌, ◌||◌, Option, none, some, List, [], ◌∷◌, ◌++◌, Str, codes,
  str_eq, ltb, leb, ◌==◌, if◌then◌else◌, print_dec, str_eq_instance, lookup,
}

abbrev pub is_letter : ℕ → Bool
is_letter c = (leb 97 c && leb c 122) || (leb 65 c && leb c 90)

-- The loop of parseNumSuffix: what stands before the first letter, and from it on.
unfoldable pub cut_at_letter : Str → Str × Str
cut_at_letter [] = ([], [])
cut_at_letter (c ∷ s) =
    let (num, suffix) = cut_at_letter s in if is_letter c then ([], c ∷ s) else (c ∷ num, suffix)

-- strings.ToLower, on ASCII.
abbrev lower_code : ℕ → ℕ
lower_code c = if leb 65 c && leb c 90 then c + 32 else c

unfoldable pub to_lower : Str → Str
to_lower [] = []
to_lower (c ∷ s) = lower_code c ∷ to_lower s

-- rateSuffixes, as `init` leaves it.
abbrev pub rate_suffixes : List (Str × ℕ)
rate_suffixes =
    (codes "bit", 1)
    ∷ (codes "kibit", 1024)
    ∷ (codes "kbit", 1000)
    ∷ (codes "mibit", 1024 * 1024)
    ∷ (codes "mbit", 1000000)
    ∷ (codes "gibit", 1024 * 1024 * 1024)
    ∷ (codes "gbit", 1000000000)
    ∷ (codes "tibit", 1024 * 1024 * 1024 * 1024)
    ∷ (codes "tbit", 1000000000000)
    ∷ (codes "bps", 8)
    ∷ (codes "kibps", 8 * 1024)
    ∷ (codes "kbps", 8000)
    ∷ (codes "mibps", 8 * 1024 * 1024)
    ∷ (codes "mbps", 8000000)
    ∷ (codes "gibps", 8 * 1024 * 1024 * 1024)
    ∷ (codes "gbps", 8000000000)
    ∷ (codes "tibps", 8 * 1024 * 1024 * 1024 * 1024)
    ∷ (codes "tbps", 8000000000000)
    ∷ []

-- The scales of the switch in ParseSize.
abbrev pub size_suffixes : List (Str × ℕ)
size_suffixes =
    (codes "b", 1)
    ∷ (codes "", 1)
    ∷ (codes "kb", 1000)
    ∷ (codes "k", 1000)
    ∷ (codes "mb", 1000 * 1000)
    ∷ (codes "m", 1000 * 1000)
    ∷ (codes "gb", 1000 * 1000 * 1000)
    ∷ (codes "g", 1000 * 1000 * 1000)
    ∷ (codes "tb", 1000 * 1000 * 1000 * 1000)
    ∷ (codes "t", 1000 * 1000 * 1000 * 1000)
    ∷ (codes "kbit", 1000 / 8)
    ∷ (codes "mbit", 1000 * 1000 / 8)
    ∷ (codes "gbit", 1000 * 1000 * 1000 / 8)
    ∷ (codes "tbit", 1000 * 1000 * 1000 * 1000 / 8)
    ∷ []

abbrev pub uint64 : ℕ
uint64 = 0x1_0000_0000_0000_0000

module _ (parse_number : Str → Option ℕ) where
  -- parseNumSuffix: no letter at all is an error, as is an empty text.
  unfoldable pub parse_num_suffix : Str → Option (ℕ × Str)
  unfolding cut_at_letter
  parse_num_suffix s =
      let (num, suffix) = cut_at_letter s in
      elim suffix [
        | [] ↦ none
        | c ∷ rest ↦ elim (parse_number num) [ none ↦ none | some n ↦ some (n, c ∷ rest) ]
      ]

  -- `n * scale`, in 64 bits, for the scale of the suffix.
  unfoldable pub scaled : List (Str × ℕ) → Str → Option ℕ
  unfolding parse_num_suffix lookup to_lower
  scaled table s = elim (parse_num_suffix s) [
    | none ↦ none
    | some (n, suffix) ↦ elim (lookup (to_lower suffix) table) [
      | none ↦ none
      | some scale ↦ some (n * scale % uint64)
    ]
  ]

  unfoldable pub parse_rate : Str → Option ℕ
  unfolding scaled
  parse_rate s = scaled rate_suffixes s

  unfoldable pub parse_size : Str → Option ℕ
  unfolding scaled
  parse_size s = scaled size_suffixes s

  -- ParseTime, in microseconds.
  unfoldable pub parse_time : Str → Option ℕ
  unfolding parse_num_suffix str_eq to_lower
  parse_time s = elim (parse_num_suffix s) [
    | none ↦ none
    | some (n, suffix) ↦
        let unit = to_lower suffix in
        if str_eq unit (codes "s") || str_eq unit (codes "sec")
        then some (n * 1000000 % uint64)
        else if str_eq unit (codes "ms")
            || str_eq unit (codes "msec")
            || str_eq unit (codes "msecs")
        then some (n * 1000000 % uint64 / 1000)
        else if str_eq unit (codes "us")
            || str_eq unit (codes "usec")
            || str_eq unit (codes "usecs")
        then some (n * 1000000 % uint64 / 1000000)
        else none
  ]

-- PrintSize: the largest unit that divides the number.
unfoldable pub print_size : ℕ → Str
print_size bytes =
    if leb 1000000000000 bytes && (bytes / 1000000000000 * 1000000000000 == bytes)
    then print_dec (bytes / 1000000000000) ++ codes "Tb"
    else if leb 1000000000 bytes && (bytes / 1000000000 * 1000000000 == bytes)
    then print_dec (bytes / 1000000000) ++ codes "Gb"
    else if leb 1000000 bytes && (bytes / 1000000 * 1000000 == bytes)
    then print_dec (bytes / 1000000) ++ codes "Mb"
    else if leb 1000 bytes && (bytes / 1000 * 1000 == bytes)
    then print_dec (bytes / 1000) ++ codes "Kb"
    else print_dec bytes ++ codes "b"

-- The loop of PrintRate over the units that are left, which are never none.
unfoldable pub print_rate_loop : ℕ → List Str → Str
print_rate_loop bps [] = []
print_rate_loop bps (unit ∷ []) = print_dec bps ++ unit ++ codes "bit"
print_rate_loop bps (unit ∷ unit' ∷ units) =
    let rest = print_rate_loop (bps / 1000) (unit' ∷ units) in
    if ltb bps 1000 || (not (bps % 1000 == 0) && ltb bps 1000000)
    then print_dec bps ++ unit ++ codes "bit"
    else rest

abbrev pub units : List Str
units = codes "" ∷ codes "K" ∷ codes "M" ∷ codes "G" ∷ codes "T" ∷ []

unfoldable pub print_rate : ℕ → Str
unfolding print_rate_loop
print_rate bytes_per_sec = print_rate_loop bytes_per_sec units

-- PrintTime: seconds, milliseconds or microseconds.
unfoldable pub print_time : ℕ → Str
print_time us =
    if leb 1000000 us
    then (if not (us % 1000000 == 0) && ltb us 1000000000
        then print_dec (us / 1000) ++ codes "ms"
        else print_dec (us / 1000000) ++ codes "s")
    else if leb 1000 us
    then (if not (us % 1000 == 0) && ltb us 1000000
        then print_dec us ++ codes "us"
        else print_dec (us / 1000) ++ codes "ms")
    else print_dec us ++ codes "us"
