-- ===== src/Tests/FilterTests.antt =====
-- Runs of the commands of classes and filters, and the theorems on their comparisons applied.
use sdnagent.Base.{
  ℕ, false, some, [], ◌∷◌, Str, codes, compare_str, str_eq, print_digits, print_dec, ◌≡◌, refl,
}
use sdnagent.Tc.Units.{print_rate, print_rate_loop}
use sdnagent.Tc.Classes.{HtbClass, htb_line_elements, class_line_elements, parents_differ}
use sdnagent.Tc.Filters.{BaseFilter, Filter, fw, u32, filter_line_elements, filter_delete_line}
use sdnagent.Tc.Total.{Parsed}

abbrev class : Str → ℕ → HtbClass
class id rate = record {
  class_base = record {
    class_kind = codes "htb";
    class_id = id;
    class_parent = some (codes "1:1");
  };
  class_rate = rate;
  class_ceil = rate;
}

class_line_run :
    htb_line_elements (class (codes "1:3") 100000000) (codes "add") (codes "br0")
    ≡ codes "class"
      ∷ codes "add"
      ∷ codes "dev"
      ∷ codes "br0"
      ∷ codes "parent"
      ∷ codes "1:1"
      ∷ codes "classid"
      ∷ codes "1:3"
      ∷ codes "htb"
      ∷ codes "rate"
      ∷ codes "100Mbit"
      ∷ codes "ceil"
      ∷ codes "100Mbit"
      ∷ []
unfolding htb_line_elements class_line_elements print_rate print_rate_loop print_dec print_digits
class_line_run = refl

abbrev base : Str → BaseFilter
base kind = record {
  filter_parent = some (codes "1:");
  filter_kind = kind;
  protocol = codes "ip";
  prio = 1;
}

abbrev by_mark : Filter
by_mark = fw (base (codes "fw")) (codes "1:3") 599

abbrev redirect : Filter
redirect = u32 (base (codes "u32")) (codes "ifb0") (codes "800::800")

delete_line_run :
    filter_delete_line redirect (codes "br0")
    ≡ codes "filter"
      ∷ codes "delete"
      ∷ codes "dev"
      ∷ codes "br0"
      ∷ codes "root"
      ∷ codes "parent"
      ∷ codes "1:"
      ∷ codes "protocol"
      ∷ codes "ip"
      ∷ codes "prio"
      ∷ codes "1"
      ∷ codes "handle"
      ∷ codes "800::800"
      ∷ codes "u32"
      ∷ []
unfolding filter_delete_line filter_line_elements print_dec print_digits str_eq compare_str
delete_line_run = refl

same_parents : parents_differ (some (codes "1:")) (some (codes "1:")) ≡ false
unfolding parents_differ str_eq compare_str
same_parents = refl

by_mark-Parsed : Parsed by_mark
unfolding Parsed
by_mark-Parsed = refl

redirect-Parsed : Parsed redirect
unfolding Parsed
redirect-Parsed = refl
