-- ===== src/ZoneMan/Defs.antt =====
-- pkg/agent/utils/ct_zone.go: ZoneMan and its operations. `uint16` and `uint32` values are natural
-- numbers with their wrap-around written out.
use Prim.Native.Nat.{bit_xor}
use sdnagent.Base.{
  ℕ, zero, suc, ◌+◌, ◌-◌, ◌*◌, ◌%◌, Bool, true, false, none, some, List, [], ◌∷◌, Str, nat_eq,
  str_eq_instance, lookup, insert, delete, length, leb, ◌==◌, if◌then◌else◌,
}

pub record ZoneMan : Type 0 where
  pub zm : List (Str × ℕ)
  pub zmr : List (ℕ × Str)
  pub base : ℕ

unfoldable pub new_zone_man : ℕ → ZoneMan
new_zone_man base = record { zm = []; zmr = []; base = base }

-- What AllocateZoneId ends with: an id, the error "id depleted", the error "error that never
-- returns", the panic of a
-- division by zero, or no end at all.
pub data Outcome : Type 0 where
  allocated : ℕ → Outcome
  depleted : Outcome
  never_returns : Outcome
  division_by_zero : Outcome
  diverges : Outcome

-- hash/fnv: the 32-bit FNV-1 hash.
unfoldable pub fnv32 : ℕ → Str → ℕ
fnv32 h [] = h
fnv32 h (b ∷ rest) = fnv32 (bit_xor (h * 16_777_619 % 0x1_0000_0000) b) rest

abbrev pub total_of : ZoneMan → ℕ
total_of z = 0x1_0000 - z.base

pub data Probe : Type 0 where
  found : ℕ → Probe
  exhausted : Probe
  panics : Probe
  out_of_fuel : Probe

-- The `for` loop, from the index `i`; `j` is where it began. A round that finds no free index goes
-- on at `(i + 1) % uint16(total)`, which divides by zero if the total is 65536.
unfoldable pub probe : ℕ → ℕ → List (ℕ × Str) → ℕ → ℕ → Probe
unfolding lookup
probe zero total zmr i j = out_of_fuel
probe (suc fuel) total zmr i j =
    let total16 = total % 0x1_0000 in
    let i' = (i + 1) % total16 in
    let rest = probe fuel total zmr i' j in
    elim (lookup i zmr) [
      | none ↦ found i
      | some mac ↦ if total16 == 0 then panics else if i' == j then exhausted else rest
    ]

-- The end of AllocateZoneId, by what the loop came to.
unfoldable pub finish : ZoneMan → Str → Probe → ZoneMan × Outcome
unfolding insert
finish z mac (found i) = (
  record z { zm = insert mac i z.zm; zmr = insert i mac z.zmr },
  allocated ((z.base + i) % 0x1_0000),
)
finish z mac exhausted = (z, never_returns)
finish z mac panics = (z, division_by_zero)
finish z mac out_of_fuel = (z, diverges)

-- AllocateZoneId
unfoldable pub allocate_zone_id : ZoneMan → Str → ZoneMan × Outcome
unfolding lookup fnv32 finish
allocate_zone_id z mac = elim (lookup mac z.zm) [
  | some i ↦ (z, allocated ((z.base + i) % 0x1_0000))
  | none ↦
      if leb (total_of z) (length z.zm)
      then (z, depleted)
      else (let i = fnv32 2_166_136_261 mac % total_of z % 0x1_0000 in
          finish z mac (probe (total_of z) (total_of z) z.zmr i i))
]

-- FreeZoneId
unfoldable pub free_zone_id : ZoneMan → Str → ZoneMan × Bool
unfolding lookup delete
free_zone_id z mac = elim (lookup mac z.zm) [
  | some i ↦ (record z { zm = delete mac z.zm; zmr = delete i z.zmr }, true)
  | none ↦ (z, false)
]
