-- ===== src/Tests/TcTests.antt =====
-- Runs of the trees of pkg/tc, and the theorems of Tc applied at concrete inputs.
use sdnagent.Base.{
  ℕ, ◌&&◌, List, [], ◌∷◌, Str, codes, compare, Ordering, is_eq, ◌==◌, ◌then_by◌, print_dec, ◌≡◌,
  refl,
}
use sdnagent.Tc.Tree.{TcObj, split_by, QdiscTree, delta, delete_lines, add_lines, replace_lines}
use sdnagent.FlowSet.{diff}
use sdnagent.Tc.Parts.{Interleaved, Matched, split_by-Interleaved}
use sdnagent.Tc.Commands.{is_nil, in_step, unchanged, is_nil-delta}

-- Objects with a handle and a setting.
abbrev by_handle : ℕ × ℕ → ℕ × ℕ → Ordering
by_handle (a, x) (b, y) = compare a b

abbrev words : Str → ℕ × ℕ → List Str
words action (a, x) = action ∷ print_dec a ∷ print_dec x ∷ []

abbrev sample_kind : TcObj
sample_kind = record {
  Obj = ℕ × ℕ;
  compare_base = by_handle;
  compare = λ p q. compare p.0 q.0 then_by compare p.1 q.1;
  equals = λ p q. (p.0 == q.0) && (p.1 == q.1);
  is_root = λ p. p.0 == 1;
  delete_line = λ ifname p. words (codes "delete") p;
  add_line = λ ifname p. words (codes "add") p;
  replace_line = λ ifname p. words (codes "replace") p;
}

abbrev wanted : List (ℕ × ℕ)
wanted = (1, 10) ∷ (2, 20) ∷ (4, 40) ∷ []

abbrev present : List (ℕ × ℕ)
present = (1, 10) ∷ (2, 25) ∷ (3, 30) ∷ []

abbrev wanted_tree : QdiscTree sample_kind sample_kind sample_kind
wanted_tree = record { qdisc = wanted; class = []; filter = [] }

abbrev present_tree : QdiscTree sample_kind sample_kind sample_kind
present_tree = record { qdisc = present; class = []; filter = [] }

delta_run :
    delta sample_kind sample_kind sample_kind wanted_tree present_tree []
    ≡ words (codes "delete") (3, 30)
      ∷ words (codes "replace") (2, 20)
      ∷ words (codes "add") (4, 40)
      ∷ []
unfolding delta split_by delete_lines add_lines replace_lines
delta_run = refl

is_nil-delta_example :
    is_nil (delta sample_kind sample_kind sample_kind wanted_tree present_tree []) ≡ (
      in_step (unchanged sample_kind) wanted present
      && in_step (unchanged sample_kind) [] []
      && in_step (λ x y. is_eq (sample_kind.compare x y)) [] [])
is_nil-delta_example = is_nil-delta sample_kind sample_kind sample_kind wanted_tree present_tree []

split_by-Interleaved_example :
    Interleaved compare
      (split_by compare (1 ∷ 2 ∷ 4 ∷ []) (1 ∷ 2 ∷ 3 ∷ [])).a_no_b
      (split_by compare (1 ∷ 2 ∷ 4 ∷ []) (1 ∷ 2 ∷ 3 ∷ [])).a_and_b
      (1 ∷ 2 ∷ 4 ∷ [])
    × Interleaved compare
        (split_by compare (1 ∷ 2 ∷ 4 ∷ []) (1 ∷ 2 ∷ 3 ∷ [])).b_no_a
        (split_by compare (1 ∷ 2 ∷ 4 ∷ []) (1 ∷ 2 ∷ 3 ∷ [])).b_and_a
        (1 ∷ 2 ∷ 3 ∷ [])
    × Matched compare
        (split_by compare (1 ∷ 2 ∷ 4 ∷ []) (1 ∷ 2 ∷ 3 ∷ [])).a_and_b
        (split_by compare (1 ∷ 2 ∷ 4 ∷ []) (1 ∷ 2 ∷ 3 ∷ [])).b_and_a
    × ((split_by compare (1 ∷ 2 ∷ 4 ∷ []) (1 ∷ 2 ∷ 3 ∷ [])).b_no_a
        ≡ (diff compare (1 ∷ 2 ∷ 4 ∷ []) (1 ∷ 2 ∷ 3 ∷ [])).0)
    × ((split_by compare (1 ∷ 2 ∷ 4 ∷ []) (1 ∷ 2 ∷ 3 ∷ [])).a_no_b
        ≡ (diff compare (1 ∷ 2 ∷ 4 ∷ []) (1 ∷ 2 ∷ 3 ∷ [])).1)
split_by-Interleaved_example = split_by-Interleaved compare (1 ∷ 2 ∷ 4 ∷ []) (1 ∷ 2 ∷ 3 ∷ [])
