-- ===== src/Flow/Defs.antt =====
-- pkg/agent/utils/utils.go: CompareOVSFlow and its helpers.
use sdnagent.Base.{
  ℕ, Ordering, compare, Bool, false, Option, none, some, List, [], ◌∷◌, ◌||◌, Str, codes, str_eq,
  compare_str, compare_list, sort, length, ltb, is_eq, if◌then◌else◌, ◌then_by◌, ℤ, compare_int,
}

-- What go-openvswitch gives: the interfaces Match and Action, their MarshalText (`none` is an
-- error) and GoString.
pub record OvsText : Type 1 where
  pub Match : Type 0
  pub Action : Type 0
  pub match_text : Match → Option Str
  pub match_go_string : Match → Str
  pub action_text : Action → Option Str
  pub action_go_string : Action → Str

-- ovs.Flow, over the types of its matches and actions.
pub record Flow (M A : Type 0) : Type 0 where
  pub priority : ℤ
  pub protocol : Str
  pub in_port : ℤ
  pub matches : List M
  pub table : ℤ
  pub idle_timeout : ℤ
  pub cookie : ℕ
  pub actions : List A

-- The matches that say nothing.
abbrev pub wildcard_matches : List Str
wildcard_matches =
    codes "nw_src=0.0.0.0/0"
    ∷ codes "nw_dst=0.0.0.0/0"
    ∷ codes "ipv6_src=::/0"
    ∷ codes "ipv6_dst=::/0"
    ∷ []

-- utils.IsInArray
unfoldable pub is_in_array : Str → List Str → Bool
unfolding str_eq
is_in_array s [] = false
is_in_array s (x ∷ xs) = str_eq s x || is_in_array s xs

abbrev pub non_empty : Str → List Str → List Str
non_empty s rest = if ltb 0 (length s) then s ∷ rest else rest

module _ (t : OvsText) where
  open t use {Match, Action, match_text, match_go_string, action_text, action_go_string}

  unfoldable pub ovs_match_string : Match → Str
  unfolding is_in_array
  ovs_match_string m = elim (match_text m) [
    | none ↦ match_go_string m
    | some str ↦ if is_in_array str wildcard_matches then [] else str
  ]

  -- The loop of ovsMatchStrings, before the sort.
  unfoldable pub ovs_match_texts : List Match → List Str
  unfolding ovs_match_string
  ovs_match_texts [] = []
  ovs_match_texts (m ∷ ms) = non_empty (ovs_match_string m) (ovs_match_texts ms)

  unfoldable pub ovs_match_strings : List Match → List Str
  unfolding ovs_match_texts sort compare_str
  ovs_match_strings ms = sort compare_str (ovs_match_texts ms)

  unfoldable pub cmp_ovs_matches : List Match → List Match → Ordering
  unfolding ovs_match_strings compare_list
  cmp_ovs_matches m1 m2 =
      let s1 = ovs_match_strings m1 in
      let s2 = ovs_match_strings m2 in
      compare (length s1) (length s2) then_by compare_list compare_str s1 s2

  unfoldable pub ovs_action_string : Action → Str
  ovs_action_string a = elim (action_text a) [ none ↦ action_go_string a | some str ↦ str ]

  unfoldable pub ovs_action_strings : List Action → List Str
  unfolding ovs_action_string
  ovs_action_strings [] = []
  ovs_action_strings (a ∷ rest) = non_empty (ovs_action_string a) (ovs_action_strings rest)

  unfoldable pub cmp_ovs_actions : List Action → List Action → Ordering
  unfolding ovs_action_strings compare_list compare_str
  cmp_ovs_actions m1 m2 =
      let s1 = ovs_action_strings m1 in
      let s2 = ovs_action_strings m2 in
      compare (length s1) (length s2) then_by compare_list compare_str s1 s2

  -- The priority is compared the other way round: the higher, the less.
  unfoldable pub compare_ovs_flow : Flow Match Action → Flow Match Action → Ordering
  unfolding cmp_ovs_matches cmp_ovs_actions compare_str
  compare_ovs_flow f1 f2 =
      compare_int f1.table f2.table
      then_by compare_int f2.priority f1.priority
      then_by compare_int f1.in_port f2.in_port
      then_by compare_str f1.protocol f2.protocol
      then_by cmp_ovs_matches f1.matches f2.matches
      then_by cmp_ovs_actions f1.actions f2.actions
      then_by compare_int f1.idle_timeout f2.idle_timeout
      then_by compare f1.cookie f2.cookie

  unfoldable pub ovs_flow_equal : Flow Match Action → Flow Match Action → Bool
  unfolding compare_ovs_flow
  ovs_flow_equal f1 f2 = is_eq (compare_ovs_flow f1 f2)
