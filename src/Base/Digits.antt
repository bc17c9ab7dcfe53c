-- ===== src/Base/Digits.antt =====
-- Numbers printed in a base, as `%d` and `%x` print an unsigned integer.
use Prim.Native.Nat.{ℕ, zero, suc, ◌+◌, ◌/◌, ◌%◌}
use mathlib.Core.List.{[], ◌∷◌}
use sdnagent.Base.Tests.{ltb, if◌then◌else◌}
use sdnagent.Base.Int.{ℤ, pos, negsuc}
use sdnagent.Base.Text.{Str}

-- '0'..'9', then 'a'..
abbrev digit : ℕ → ℕ
digit d = if ltb d 10 then 48 + d else 87 + d

-- The digits of `n` before those of `acc`; the fuel `suc n` is enough for a base above 1.
unfoldable pub print_digits : ℕ → ℕ → ℕ → Str → Str
print_digits zero base n acc = acc
print_digits (suc fuel) base n acc =
    let rest = print_digits fuel base (n / base) (digit (n % base) ∷ acc) in
    if ltb n base then digit n ∷ acc else rest

unfoldable pub print_dec : ℕ → Str
unfolding print_digits
print_dec n = print_digits (suc n) 10 n []

unfoldable pub print_hex : ℕ → Str
unfolding print_digits
print_hex n = print_digits (suc n) 16 n []

-- `%d` of an int.
unfoldable pub print_int : ℤ → Str
unfolding print_dec
print_int (pos n) = print_dec n
print_int (negsuc n) = 45 ∷ print_dec (suc n)
