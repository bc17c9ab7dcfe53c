-- ===== src/Tc/Commands.antt =====
-- pkg/tc/tree.go: when Delta has no command to run.
use sdnagent.Base.{Bool, true, false, ◌&&◌, List, [], ◌∷◌, ◌++◌, Str, ◌≡◌, refl, arith, is_eq}
use sdnagent.Tc.Tree.{TcObj, split_by, delete_lines, add_lines, replace_lines, QdiscTree, delta}

-- The two lists have one length and are related in step.
unfoldable pub in_step {ℓ} : {A : Type ℓ} → (A → A → Bool) → List A → List A → Bool
in_step same [] [] = true
in_step same [] (y ∷ ys) = false
in_step same (x ∷ xs) [] = false
in_step same (x ∷ xs) (y ∷ ys) = same x y && in_step same xs ys

abbrev pub is_nil {ℓ} : {A : Type ℓ} → List A → Bool
is_nil [] = true
is_nil (x ∷ xs) = false

is_nil-append {ℓ} : {A : Type ℓ} (l r : List A) → is_nil (l ++ r) ≡ (is_nil l && is_nil r)
is_nil-append [] r = refl
is_nil-append (x ∷ l) r = refl

-- Whether two objects have one place and the same settings.
abbrev pub unchanged : (kind : TcObj) → kind.Obj → kind.Obj → Bool
unchanged kind x y = is_eq (kind.compare_base x y) && kind.equals y x

module _ (kind : TcObj) (ifname : Str) where
  open kind use {Obj, compare_base}

  is_nil-delete_lines : (l : List Obj) → is_nil (delete_lines kind ifname l) ≡ is_nil l
  unfolding delete_lines
  is_nil-delete_lines [] = refl
  is_nil-delete_lines (x ∷ l) =
      ground (arith, is_nil-append (delete_lines kind ifname l) (kind.delete_line ifname x ∷ []))

  is_nil-add_lines : (l : List Obj) → is_nil (add_lines kind ifname l) ≡ is_nil l
  unfolding add_lines
  is_nil-add_lines [] = refl
  is_nil-add_lines (x ∷ l) = refl

  -- The commands for objects that are removed, changed and added are none exactly if the two lists are
  -- the same in step.
  changes_lem :
      (a b : List Obj)
      → in_step (unchanged kind) a b ≡ (
          is_nil (split_by compare_base a b).b_no_a
          && is_nil (
              replace_lines kind ifname
                (split_by compare_base a b).a_and_b
                (split_by compare_base a b).b_and_a)
          && is_nil (split_by compare_base a b).a_no_b)
  unfolding split_by replace_lines in_step
  changes_lem [] [] = refl
  changes_lem [] (y ∷ b) = refl
  changes_lem (x ∷ a) [] = refl
  changes_lem (x ∷ a) (y ∷ b) = ground (arith, changes_lem a b)

module _ (kind : TcObj) where
  open kind use {Obj, compare}

  filters_lem :
      (a b : List Obj)
      → in_step (λ x y. is_eq (compare x y)) a b
        ≡ (is_nil (split_by compare a b).b_no_a && is_nil (split_by compare a b).a_no_b)
  unfolding split_by in_step
  filters_lem [] [] = refl
  filters_lem [] (y ∷ b) = refl
  filters_lem (x ∷ a) [] = refl
  filters_lem (x ∷ a) (y ∷ b) = ground (arith, filters_lem a b)

module _ (qdiscs classes filters : TcObj) where
  -- Delta has no command exactly if the trees are the same in step: their disciplines and classes by
  -- CompareBase and Equals, their filters by Compare.
  pub is_nil-delta :
      (qt qt2 : QdiscTree qdiscs classes filters) (ifname : Str)
      → is_nil (delta qdiscs classes filters qt qt2 ifname) ≡ (
          in_step (unchanged qdiscs) qt.qdisc qt2.qdisc
          && in_step (unchanged classes) qt.class qt2.class
          && in_step (λ x y. is_eq (filters.compare x y)) qt.filter qt2.filter)
  unfolding delta
  is_nil-delta qt qt2 ifname =
      let q = changes_lem qdiscs ifname qt.qdisc qt2.qdisc in
      let c = changes_lem classes ifname qt.class qt2.class in
      let f = filters_lem filters qt.filter qt2.filter in
      rw (q, c, f) (simp (is_nil-append, is_nil-delete_lines, is_nil-add_lines) (ground arith))
