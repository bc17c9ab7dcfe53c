-- ===== src/Base/Sorted.antt =====
-- Lists ordered by a three-way comparison, read as sets of its equivalence classes; the package
-- sort of the Go library as an insertion sort.
use Prim.Native.Nat.{Ordering}
use Prim.Native.Nat.Ordering.{lt, eq, gt}
use mathlib.Core.Path.{◌≡◌, refl, ◌∙◌}
use mathlib.Core.Bool.{Bool, false, ◌||◌}
use mathlib.Core.List.{List, [], ◌∷◌, ◌++◌}
use native.Mathlib.Omega.{arith}
use sdnagent.Base.Order.{is_eq, is_gt, IsLawful}

module _ {ℓ} {A : Type ℓ} (cmp : A → A → Ordering) where
  -- Some element of the list compares equal.
  unfoldable pub has : A → List A → Bool
  has x [] = false
  has x (y ∷ l) = is_eq (cmp x y) || has x l

  -- Every element of the list is greater.
  abbrev pub Below : A → List A → Type 0
  Below x [] = Unit {0}
  Below x (y ∷ l) = (cmp x y ≡ lt) × Below x l

  -- No element of the list is less.
  abbrev pub NotAbove : A → List A → Type 0
  NotAbove x [] = Unit {0}
  NotAbove x (y ∷ l) = (is_gt (cmp x y) ≡ false) × NotAbove x l

  -- Ascending, and no two elements are equal.
  abbrev pub IsStrict : List A → Type 0
  IsStrict [] = Unit {0}
  IsStrict (x ∷ l) = Below x l × IsStrict l

  -- Ascending, with equal neighbours allowed.
  abbrev pub IsSorted : List A → Type 0
  IsSorted [] = Unit {0}
  IsSorted (x ∷ l) = NotAbove x l × IsSorted l

  unfoldable pub insert_sorted : A → List A → List A
  insert_sorted x [] = x ∷ []
  insert_sorted x (y ∷ l) =
      let rest = insert_sorted x l in elim (cmp x y) [ gt ↦ y ∷ rest | _ ↦ x ∷ y ∷ l ]

  unfoldable pub sort : List A → List A
  unfolding insert_sorted
  sort [] = []
  sort (x ∷ l) = insert_sorted x (sort l)

  pub has-append : (x : A) (l r : List A) → has x (l ++ r) ≡ (has x l || has x r)
  unfolding has
  has-append x [] r = refl
  has-append x (y ∷ l) r = ground (arith, has-append x l r)

  pub has-insert_sorted :
      (x y : A) (l : List A) → has x (insert_sorted y l) ≡ (is_eq (cmp x y) || has x l)
  unfolding has insert_sorted
  has-insert_sorted x y [] = refl
  has-insert_sorted x y (z ∷ l) = ground (arith, has-insert_sorted x y l)

  pub has-sort : (x : A) (l : List A) → has x (sort l) ≡ has x l
  unfolding has sort
  has-sort x [] = refl
  has-sort x (y ∷ l) = ground (arith, has-sort x l, has-insert_sorted x y (sort l))

  module _ (law : IsLawful cmp) where
    pub has-cong : (x y : A) (l : List A) → cmp x y ≡ eq → has x l ≡ has y l
    unfolding has
    has-cong x y [] h = refl
    has-cong x y (z ∷ l) h = ground (arith, law.cong x y z h, has-cong x y l h)

    pub not-has_of_Below : (x y : A) (l : List A) → cmp x y ≡ eq → Below y l → has x l ≡ false
    unfolding has
    not-has_of_Below x y [] e b = refl
    not-has_of_Below x y (z ∷ l) e b =
        ground (arith, law.cong x y z e, not-has_of_Below x y l e b.1)

    pub not-has_of_lt : (x y : A) (l : List A) → cmp x y ≡ lt → Below y l → has x l ≡ false
    unfolding has
    not-has_of_lt x y [] e b = refl
    not-has_of_lt x y (z ∷ l) e b = ground (arith, law.trans x y z e, not-has_of_lt x y l e b.1)

    pub Below-trans : (x y : A) (l : List A) → cmp x y ≡ lt → Below y l → Below x l
    Below-trans x y [] e b = tt
    Below-trans x y (z ∷ l) e b = (law.trans x y z e b.0, Below-trans x y l e b.1)

    pub Below-cong : (x y : A) (l : List A) → cmp x y ≡ eq → Below y l → Below x l
    Below-cong x y [] e b = tt
    Below-cong x y (z ∷ l) e b = (ground (arith, law.cong x y z e), Below-cong x y l e b.1)

    pub NotAbove-trans :
        (x y : A) (l : List A) → is_gt (cmp x y) ≡ false → NotAbove y l → NotAbove x l
    NotAbove-trans x y [] e b = tt
    NotAbove-trans x y (z ∷ l) e b = (
      ground (
        arith,
        law.trans x y z,
        law.cong x y z,
        law.cong z y x,
        law.flip x y,
        law.flip y z,
        law.flip x z,
      ),
      NotAbove-trans x y l e b.1,
    )

    NotAbove-insert_sorted :
        (x y : A) (l : List A)
        → is_gt (cmp x y) ≡ false
        → NotAbove x l
        → NotAbove x (insert_sorted y l)
    unfolding insert_sorted
    NotAbove-insert_sorted x y [] e b = (e, tt)
    NotAbove-insert_sorted x y (z ∷ l) e b = ground (arith, NotAbove-insert_sorted x y l e b.1)

    pub insert_sorted-IsSorted : (x : A) (l : List A) → IsSorted l → IsSorted (insert_sorted x l)
    unfolding insert_sorted
    insert_sorted-IsSorted x [] s = (tt, tt)
    insert_sorted-IsSorted x (y ∷ l) s = ground (
      arith,
      insert_sorted-IsSorted x l s.1,
      NotAbove-insert_sorted y x l,
      NotAbove-trans x y l,
      law.flip x y,
    )

    pub sort-IsSorted : (l : List A) → IsSorted (sort l)
    unfolding sort
    sort-IsSorted [] = tt
    sort-IsSorted (x ∷ l) = insert_sorted-IsSorted x (sort l) (sort-IsSorted l)

  -- No two elements are equal.
  abbrev pub NoDup : List A → Type 0
  NoDup [] = Unit {0}
  NoDup (x ∷ l) = (has x l ≡ false) × NoDup l

  module _ (law : IsLawful cmp) where
    Below-of_NotAbove : (x : A) (l : List A) → NotAbove x l → has x l ≡ false → Below x l
    unfolding has
    Below-of_NotAbove x [] a n = tt
    Below-of_NotAbove x (y ∷ l) a n = (ground arith, Below-of_NotAbove x l a.1 (ground arith))

    IsStrict-of_IsSorted : (l : List A) → IsSorted l → NoDup l → IsStrict l
    IsStrict-of_IsSorted [] s n = tt
    IsStrict-of_IsSorted (x ∷ l) s n =
        (Below-of_NotAbove x l s.0 n.0, IsStrict-of_IsSorted l s.1 n.1)

    insert_sorted-NoDup :
        (x : A) (l : List A) → has x l ≡ false → NoDup l → NoDup (insert_sorted x l)
    unfolding insert_sorted has
    insert_sorted-NoDup x [] h n = (refl, tt)
    insert_sorted-NoDup x (y ∷ l) h n =
        ground (arith, insert_sorted-NoDup x l, has-insert_sorted y x l, law.flip x y)

    sort-NoDup : (l : List A) → NoDup l → NoDup (sort l)
    unfolding sort
    sort-NoDup [] n = tt
    sort-NoDup (x ∷ l) n = insert_sorted-NoDup x (sort l) (has-sort x l ∙ n.0) (sort-NoDup l n.1)

    -- A list with no two equal elements is sorted into a strictly ascending one.
    pub sort-IsStrict : (l : List A) → NoDup l → IsStrict (sort l)
    sort-IsStrict l n = IsStrict-of_IsSorted (sort l) (sort-IsSorted law l) (sort-NoDup l n)
