-- ===== src/Routes/Table.antt =====
-- pkg/agent/utils/route.go: the routes and Lookup, with the parts of net.IPNet that it calls. An
-- IPv4 address or mask is its four bytes.
use sdnagent.Base.{
  ℕ, zero, suc, ◌+◌, ◌*◌, ◌%◌, bit_and, Bool, true, false, ◌&&◌, Option, none, some, List, [], ◌∷◌,
  ℤ, pos, negsuc, compare_int, is_lt, is_gt, Str, ltb, ◌==◌, if◌then◌else◌,
}

pub record Route : Type 0 where
  pub net_ip : List ℕ
  pub net_mask : List ℕ
  pub gateway : List ℕ
  pub dev : Str
  pub metric : ℕ

-- net.IPNet.Contains: addresses of different lengths never match.
unfoldable pub contains_bytes : List ℕ → List ℕ → List ℕ → Bool
contains_bytes [] [] [] = true
contains_bytes (n ∷ ns) (m ∷ ms) (x ∷ xs) = (bit_and n m == bit_and x m) && contains_bytes ns ms xs
contains_bytes _ _ _ = false

unfoldable pub contains_ip : Route → List ℕ → Bool
unfolding contains_bytes
contains_ip r ip = contains_bytes r.net_ip r.net_mask ip

-- The ones that a byte begins with, and what is left of it, shifted out: the fuel 8 is enough.
unfoldable pub leading_ones : ℕ → ℕ → ℕ × ℕ
leading_ones zero v = (0, v)
leading_ones (suc fuel) v =
    let (n, rest) = leading_ones fuel (v * 2 % 0x100) in
    if bit_and v 0x80 == 0 then (0, v) else (suc n, rest)

unfoldable pub all_zero : List ℕ → Bool
all_zero [] = true
all_zero (m ∷ ms) = (m == 0) && all_zero ms

-- The ones of a mask whose ones all come first.
unfoldable pub mask_length : List ℕ → Option ℕ
unfolding leading_ones all_zero
mask_length [] = some 0
mask_length (m ∷ ms) =
    let rest = mask_length ms in
    let (n, left) = leading_ones 8 m in
    if m == 0xff
    then (elim rest [ none ↦ none | some k ↦ some (8 + k) ])
    else if (left == 0) && all_zero ms
    then some n
    else none

-- net.IPMask.Size: 0 for other masks.
unfoldable pub mask_size : Route → ℕ
unfolding mask_length
mask_size r = elim (mask_length r.net_mask) [ none ↦ 0 | some n ↦ n ]

-- The variables of the loop of Lookup; `found` is the route at `ri`, if that is not -1.
pub record Search : Type 0 where
  pub found : Option Route
  pub pl : ℤ
  pub best_metric : ℕ

unfoldable pub lookup_step : List ℕ → Search → Route → Search
lookup_step ip st r =
    if is_gt (compare_int st.pl (pos (mask_size r)))
    then st
    else if contains_ip r ip
    then (if is_lt (compare_int st.pl (pos (mask_size r)))
        then record { found = some r; pl = pos (mask_size r); best_metric = r.metric }
        else if ltb r.metric st.best_metric
        then record st { found = some r; best_metric = r.metric }
        else st)
    else st

unfoldable pub lookup_loop : List ℕ → Search → List Route → Search
lookup_loop ip st [] = st
lookup_loop ip st (r ∷ rs) = lookup_loop ip (lookup_step ip st r) rs

-- Lookup of a parsed address: `none` is the error that there is no route.
unfoldable pub lookup_route : List Route → List ℕ → Option Route
lookup_route rs ip =
    (lookup_loop ip record { found = none; pl = negsuc 0; best_metric = 10000000 } rs).found
