-- ===== src/SecRules/Ports.antt =====
-- pkg/agent/utils/securityrules.go: PortRangeToMasks, which covers a range of ports by masks. A
-- uint16 or uint32 is its value, and what the source does modulo `2 ^ 16` or `2 ^ 32` is written out.
use sdnagent.Base.{
  ℕ, zero, suc, ◌+◌, ◌-◌, ◌/◌, ◌*◌, ◌%◌, bit_and, Option, none, some, List, [], ◌∷◌, ◌&&◌, leb, ltb,
  ◌==◌, if◌then◌else◌,
}

-- The loop that doubles `b`: `none` is fuel that ran out.
unfoldable pub grow : ℕ → ℕ → ℕ → ℕ → Option ℕ
grow zero sp ep b = none
grow (suc fuel) sp ep b =
    let rest = grow fuel sp ep (b * 2 % 0x1_0000_0000) in
    if leb ((sp + b) % 0x1_0000_0000) ep && (bit_and sp ((b + 0xffff_ffff) % 0x1_0000_0000) == 0)
    then rest
    else some b

-- `uint16(^(b - 1))`
unfoldable pub mask_of : ℕ → ℕ
mask_of b = (0xffff_ffff - (b + 0xffff_ffff) % 0x1_0000_0000) % 0x1_0000

-- The outer loop; the pairs are (value, mask).
unfoldable pub cover : ℕ → ℕ → ℕ → Option (List (ℕ × ℕ))
cover zero sp ep = none
cover (suc fuel) sp ep =
    if ltb sp ep
    then (elim (grow 33 sp ep 1) [
      | none ↦ none
      | some b ↦
          let b' = b / 2 in
          elim (cover fuel ((sp + b') % 0x1_0000_0000) ep) [
            | none ↦ none
            | some r ↦ some ((sp % 0x1_0000, mask_of b') ∷ r)
          ]
    ])
    else some []

unfoldable pub port_range_to_masks : ℕ → ℕ → Option (List (ℕ × ℕ))
port_range_to_masks s e =
    if s == e then some ((s, 0xffff) ∷ []) else cover (suc (e + 1 - s)) s (e + 1)
