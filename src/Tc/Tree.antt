-- ===== src/Tc/Tree.antt =====
-- pkg/tc/compare.go and pkg/tc/tree.go: Sort, Split, and the tree of queueing disciplines, classes and
-- filters with its root search, Merge and Delta.
use sdnagent.Base.{
  Ordering, lt, eq, gt, Bool, Option, none, some, List, [], ◌∷◌, ◌++◌, Str, sort, if◌then◌else◌,
}

-- pkg/tc/tcobj.go: the methods that a tree calls of its objects, and IsRoot.
pub record TcObj : Type 1 where
  pub Obj : Type 0
  pub compare_base : Obj → Obj → Ordering
  pub compare : Obj → Obj → Ordering
  pub equals : Obj → Obj → Bool
  pub is_root : Obj → Bool
  pub delete_line : Str → Obj → List Str
  pub add_line : Str → Obj → List Str
  pub replace_line : Str → Obj → List Str

-- The four results of Split.
pub record Parts {ℓ} (A : Type ℓ) : Type ℓ where
  pub a_no_b : List A
  pub a_and_b : List A
  pub b_and_a : List A
  pub b_no_a : List A

-- Split by one of the two comparisons, over the suffixes that are left.
unfoldable pub split_by {ℓ} : {A : Type ℓ} → (A → A → Ordering) → List A → List A → Parts A
split_by cmp [] b = record { a_no_b = []; a_and_b = []; b_and_a = []; b_no_a = b }
split_by cmp (x ∷ a) [] = record { a_no_b = x ∷ a; a_and_b = []; b_and_a = []; b_no_a = [] }
split_by cmp (x ∷ a) (y ∷ b) = elim (cmp x y) [
  | eq ↦ let p = split_by cmp a b in record p { a_and_b = x ∷ p.a_and_b; b_and_a = y ∷ p.b_and_a }
  | lt ↦ let p = split_by cmp a (y ∷ b) in record p { a_no_b = x ∷ p.a_no_b }
  | gt ↦ let p = split_by cmp (x ∷ a) b in record p { b_no_a = y ∷ p.b_no_a }
]

module _ (kind : TcObj) (ifname : Str) where
  open kind use {Obj, equals, delete_line, add_line, replace_line}

  -- The loop that runs backwards over the removed objects.
  unfoldable pub delete_lines : List Obj → List (List Str)
  delete_lines [] = []
  delete_lines (x ∷ removed) = delete_lines removed ++ delete_line ifname x ∷ []

  unfoldable pub add_lines : List Obj → List (List Str)
  add_lines [] = []
  add_lines (x ∷ added) = add_line ifname x ∷ add_lines added

  -- The loop over the objects of both trees, which have one length.
  unfoldable pub replace_lines : List Obj → List Obj → List (List Str)
  replace_lines [] updated2 = []
  replace_lines (x ∷ updated1) [] = []
  replace_lines (x ∷ updated1) (y ∷ updated2) =
      let rest = replace_lines updated1 updated2 in
      if equals y x then rest else replace_line ifname x ∷ rest

-- The first object that IsRoot; `none` is nil.
unfoldable pub find_root : (kind : TcObj) → List kind.Obj → Option kind.Obj
find_root kind [] = none
find_root kind (x ∷ objs) =
    let rest = find_root kind objs in if kind.is_root x then some x else rest

module _ (qdiscs classes filters : TcObj) where
  pub record QdiscTree : Type 0 where
    pub qdisc : List qdiscs.Obj
    pub class : List classes.Obj
    pub filter : List filters.Obj

  unfoldable pub root_qdisc : QdiscTree → Option qdiscs.Obj
  unfolding find_root
  root_qdisc qt = find_root qdiscs qt.qdisc

  unfoldable pub root_class : QdiscTree → Option classes.Obj
  unfolding find_root
  root_class qt = find_root classes qt.class

  unfoldable pub new_qdisc_tree : List qdiscs.Obj → List classes.Obj → List filters.Obj → QdiscTree
  unfolding sort
  new_qdisc_tree qs cls fs = record {
    qdisc = sort qdiscs.compare qs;
    class = sort classes.compare cls;
    filter = sort filters.compare fs;
  }

  -- Merge: append, then sort.
  unfoldable pub merge_tree : QdiscTree → QdiscTree → QdiscTree
  unfolding new_qdisc_tree
  merge_tree qt qt2 =
      new_qdisc_tree (qt.qdisc ++ qt2.qdisc) (qt.class ++ qt2.class) (qt.filter ++ qt2.filter)

  -- Delta: the commands that turn the tree `qt2` into `qt`.
  unfoldable pub delta : QdiscTree → QdiscTree → Str → List (List Str)
  unfolding split_by delete_lines replace_lines add_lines
  delta qt qt2 ifname =
      let q = split_by qdiscs.compare_base qt.qdisc qt2.qdisc in
      let c = split_by classes.compare_base qt.class qt2.class in
      let f = split_by filters.compare qt.filter qt2.filter in
      delete_lines filters ifname f.b_no_a
      ++ delete_lines classes ifname c.b_no_a
      ++ delete_lines qdiscs ifname q.b_no_a
      ++ replace_lines qdiscs ifname q.a_and_b q.b_and_a
      ++ replace_lines classes ifname c.a_and_b c.b_and_a
      ++ add_lines qdiscs ifname q.a_no_b
      ++ add_lines classes ifname c.a_no_b
      ++ add_lines filters ifname f.a_no_b
