-- ===== src/SecFlows/Order.antt =====
-- pkg/agent/utils/flowsource.go: which flow of a table a packet meets, and the priorities of the flows of
-- security rules.
use sdnagent.Base.{
  ◌⊎◌, ℕ, ◌<◌, ◌≤◌, Bool, false, Option, none, some, List, [], ◌∷◌, ◌++◌, Str, ℤ, pos, compare_int,
  is_gt, if◌then◌else◌, ◌≡◌, refl, sym, ◌∙◌, ap, arith, Bool-cases, inl, inr,
}
use sdnagent.SecFlows.Defs.{FlowSpec}

unfoldable pub better : FlowSpec → Option FlowSpec → FlowSpec
better f none = f
better f (some g) = if is_gt (compare_int g.priority f.priority) then g else f

-- The flow with the highest priority of those that a packet satisfies; `sat` is whether the packet
-- satisfies the text of a match.
unfoldable pub winner : (Str → Bool) → List FlowSpec → Option FlowSpec
winner sat [] = none
winner sat (f ∷ fs) =
    let rest = winner sat fs in if sat f.matches then some (better f rest) else rest

-- The first flow that a packet satisfies.
unfoldable pub first_match : (Str → Bool) → List FlowSpec → Option FlowSpec
first_match sat [] = none
first_match sat (f ∷ fs) = let rest = first_match sat fs in if sat f.matches then some f else rest

abbrev pub or_else : {A : Type 0} → Option A → Option A → Option A
or_else none o = o
or_else (some a) o = some a

-- Every priority is a natural number below `n`.
abbrev pub Below : ℕ → List FlowSpec → Type 0
Below n [] = Unit {0}
Below n (f ∷ fs) = ((k : ℕ) × (f.priority ≡ pos k) × (k < n)) × Below n fs

-- Each flow of the first list has a higher priority than all that follow it, in both lists.
abbrev pub Falls : List FlowSpec → List FlowSpec → Type 0
Falls [] tail = Unit {0}
Falls (f ∷ fs) tail = ((k : ℕ) × (f.priority ≡ pos k) × Below k (fs ++ tail)) × Falls fs tail

pub Below-le : (m n : ℕ) (fs : List FlowSpec) → m ≤ n → Below m fs → Below n fs
Below-le m n [] h b = tt
Below-le m n (f ∷ fs) h ((k, e, low), b) = ((k, e, omega arith), Below-le m n fs h b)

better_cases : (f : FlowSpec) (o : Option FlowSpec) → (better f o ≡ f) ⊎ (o ≡ some (better f o))
unfolding better
better_cases f none = inl refl
better_cases f (some g) = elim (Bool-cases (is_gt (compare_int g.priority f.priority))) [
  | inl above ↦ inr (rw above refl)
  | inr under ↦ inl (rw under refl)
]

winner-Below :
    (sat : Str → Bool) (n : ℕ) (fs : List FlowSpec) (g : FlowSpec)
    → Below n fs
    → winner sat fs ≡ some g
    → (k : ℕ) × (g.priority ≡ pos k) × (k < n)
unfolding winner
winner-Below sat n [] g b h = absurd (ground (arith, h))
winner-Below sat n (f ∷ fs) g ((k, e, low), b) h = elim (Bool-cases (sat f.matches)) [
  | inl hit ↦
      let taken : better f (winner sat fs) ≡ g = ground (arith, h, hit) in
      elim (better_cases f (winner sat fs)) [
        | inl own ↦ (k, ap (λ (x : FlowSpec). x.priority) (sym taken ∙ own) ∙ e, low)
        | inr other ↦ winner-Below sat n fs g b (other ∙ ap (λ (x : FlowSpec). some x) taken)
      ]
  | inr missed ↦ winner-Below sat n fs g b (ground (arith, h, missed))
]

not_above : (p q : ℤ) (k j : ℕ) → p ≡ pos k → q ≡ pos j → j < k → is_gt (compare_int q p) ≡ false
not_above p q k j e at less = ground (arith, e, at, less)

better_than_lower :
    (f : FlowSpec) (k : ℕ) (o : Option FlowSpec)
    → f.priority ≡ pos k
    → ((g : FlowSpec) → o ≡ some g → (j : ℕ) × (g.priority ≡ pos j) × (j < k))
    → better f o ≡ f
unfolding better
better_than_lower f k none e low = refl
better_than_lower f k (some g) e low =
    let (j, at, less) = low g refl in rw (not_above f.priority g.priority k j e at less) refl

-- Where the priorities fall, the flow that wins is the first that the packet satisfies.
pub winner_first :
    (sat : Str → Bool) (fs tail : List FlowSpec)
    → Falls fs tail
    → winner sat (fs ++ tail) ≡ or_else (first_match sat fs) (winner sat tail)
unfolding winner first_match
winner_first sat [] tail h = refl
winner_first sat (f ∷ fs) tail ((k, e, b), h) = elim (Bool-cases (sat f.matches)) [
  | inl hit ↦
      rw
        (
          hit,
          better_than_lower f k (winner sat (fs ++ tail)) e
              (λ g at. winner-Below sat k (fs ++ tail) g b at),
        )
        refl
  | inr missed ↦ rw missed (winner_first sat fs tail h)
]
