-- ===== src/Base/Split.antt =====
-- The parts of the package strings that cut a string: Split at a byte, and TrimSpace.
use Prim.Native.Nat.{ℕ}
use mathlib.Core.Path.{◌≡◌, refl}
use mathlib.Core.Bool.{Bool, true, not, ◌&&◌, ◌||◌}
use mathlib.Core.Option.{Option, none, some}
use mathlib.Core.List.{List, [], ◌∷◌, ◌++◌}
use native.Mathlib.Omega.{arith}
use sdnagent.Base.Tests.{leb, ◌==◌, if◌then◌else◌}
use sdnagent.Base.Text.{Str}

abbrev onto_first : ℕ → List Str → List Str
onto_first c [] = (c ∷ []) ∷ []
onto_first c (w ∷ ws) = (c ∷ w) ∷ ws

-- strings.Split(s, sep), for a separator of one byte.
unfoldable pub split : ℕ → Str → List Str
split sep [] = [] ∷ []
split sep (c ∷ s) = let rest = split sep s in if c == sep then [] ∷ rest else onto_first c rest

-- The white space of ASCII.
abbrev is_space : ℕ → Bool
is_space c = (c == 32) || (leb 9 c && leb c 13)

unfoldable pub trim_left : Str → Str
trim_left [] = []
trim_left (c ∷ s) = let rest = trim_left s in if is_space c then rest else c ∷ s

unfoldable pub trim_right : Str → Str
trim_right [] = []
trim_right (c ∷ s) = elim (trim_right s) [
  | [] ↦ if is_space c then [] else c ∷ []
  | d ∷ t ↦ c ∷ d ∷ t
]

-- strings.TrimSpace, on ASCII.
unfoldable pub trim_space : Str → Str
unfolding trim_left trim_right
trim_space s = trim_left (trim_right s)

abbrev pub onto_before : ℕ → Option (Str × Str) → Option (Str × Str)
onto_before c none = none
onto_before c (some (before, after)) = some (c ∷ before, after)

-- The text before the first such byte and the one behind it, as strings.SplitN(s, sep, 2) and
-- strings.IndexByte find it.
unfoldable pub cut : ℕ → Str → Option (Str × Str)
cut sep [] = none
cut sep (c ∷ s) = let rest = onto_before c (cut sep s) in if c == sep then some ([], s) else rest

-- No such byte is in the string.
unfoldable pub lacks : ℕ → Str → Bool
lacks sep [] = true
lacks sep (c ∷ s) = not (c == sep) && lacks sep s

pub cut-append : (sep : ℕ) (a b : Str) → lacks sep a ≡ true → cut sep (a ++ sep ∷ b) ≡ some (a, b)
unfolding cut lacks
cut-append sep [] b h = ground arith
cut-append sep (c ∷ a) b h = ground (arith, cut-append sep a b)

pub cut_lacking : (sep : ℕ) (s : Str) → lacks sep s ≡ true → cut sep s ≡ none
unfolding cut lacks
cut_lacking sep [] h = refl
cut_lacking sep (c ∷ s) h = ground (arith, cut_lacking sep s)

pub lacks-append : (sep : ℕ) (a b : Str) → lacks sep (a ++ b) ≡ (lacks sep a && lacks sep b)
unfolding lacks
lacks-append sep [] b = refl
lacks-append sep (c ∷ a) b = ground (arith, lacks-append sep a b)
