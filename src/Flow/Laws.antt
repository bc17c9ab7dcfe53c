-- ===== src/Flow/Laws.antt =====
-- pkg/agent/utils/utils.go: CompareOVSFlow orders the rules.
use sdnagent.Base.{
  Str, List, compare, eq, eq_of_compare_int, ◌≡◌, arith, compare_str, compare_list, length,
  ◌then_by◌, IsLawful, compare-IsLawful, compare_int-IsLawful, compare_str-IsLawful,
  compare_list-IsLawful, key-IsLawful, reverse-IsLawful, then_by-IsLawful,
}
use sdnagent.Flow.Defs.{
  OvsText, Flow, ovs_match_strings, cmp_ovs_matches, ovs_action_strings, cmp_ovs_actions,
  compare_ovs_flow,
}

-- Shorter lists first, then element by element.
compare_strings-IsLawful :
    IsLawful
      (λ (a b : List Str). compare (length a) (length b) then_by compare_list compare_str a b)
compare_strings-IsLawful =
    then_by-IsLawful (key-IsLawful compare-IsLawful length)
      (compare_list-IsLawful compare_str compare_str-IsLawful)

module _ (t : OvsText) where
  open t use {Match, Action}

  cmp_ovs_matches-IsLawful : IsLawful (cmp_ovs_matches t)
  unfolding cmp_ovs_matches
  cmp_ovs_matches-IsLawful = key-IsLawful compare_strings-IsLawful (ovs_match_strings t)

  cmp_ovs_actions-IsLawful : IsLawful (cmp_ovs_actions t)
  unfolding cmp_ovs_actions
  cmp_ovs_actions-IsLawful = key-IsLawful compare_strings-IsLawful (ovs_action_strings t)

  -- CompareOVSFlow is a total preorder: swapping its arguments reverses the answer, `lt` is
  -- transitive, and rules that compare equal compare alike with every other rule.
  pub compare_ovs_flow-IsLawful : IsLawful (compare_ovs_flow t)
  unfolding compare_ovs_flow
  compare_ovs_flow-IsLawful = then_by-IsLawful (key-IsLawful compare_int-IsLawful (λ f. f.table)) (
      then_by-IsLawful (key-IsLawful (reverse-IsLawful compare_int-IsLawful) (λ f. f.priority)) (
        then_by-IsLawful (key-IsLawful compare_int-IsLawful (λ f. f.in_port)) (
          then_by-IsLawful (key-IsLawful compare_str-IsLawful (λ f. f.protocol)) (
            then_by-IsLawful (key-IsLawful cmp_ovs_matches-IsLawful (λ f. f.matches)) (
              then_by-IsLawful (key-IsLawful cmp_ovs_actions-IsLawful (λ f. f.actions)) (
                then_by-IsLawful (key-IsLawful compare_int-IsLawful (λ f. f.idle_timeout))
                  (key-IsLawful compare-IsLawful (λ f. f.cookie))))))))

  -- Rules that compare equal are in one table.
  pub compare_ovs_flow-table :
      (f g : Flow Match Action) → compare_ovs_flow t f g ≡ eq → f.table ≡ g.table
  unfolding compare_ovs_flow
  compare_ovs_flow-table f g h = eq_of_compare_int f.table g.table (ground arith)
