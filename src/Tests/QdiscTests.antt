-- ===== src/Tests/QdiscTests.antt =====
-- Runs of the comparison and the commands of queueing disciplines, and their theorems applied.
use sdnagent.Base.{
  true, some, [], ◌∷◌, codes, lt, eq, gt, compare_str, str_eq, print_digits, print_dec, ◌≡◌, refl,
  arith, split,
}
use sdnagent.Tc.Units.{print_rate, print_rate_loop, print_size, print_time}
use sdnagent.Tc.Objects.{
  BaseQdisc, tbf, basic_line, basic_line_elements, compare_qdisc, compare_class_id,
  convert_class_id, parse_hex, parse_hex_loop,
}
use sdnagent.Tc.Margin.{compare_qdisc_wraps}

abbrev root_base : BaseQdisc
root_base = record { kind = codes "tbf"; handle = codes "1:"; parent = []; root = true }

line_run :
    basic_line (tbf root_base 30000000 32000 100000) (codes "replace") (codes "eth0")
    ≡ codes "qdisc"
      ∷ codes "replace"
      ∷ codes "dev"
      ∷ codes "eth0"
      ∷ codes "root"
      ∷ codes "handle"
      ∷ codes "1:"
      ∷ codes "tbf"
      ∷ codes "rate"
      ∷ codes "30Mbit"
      ∷ codes "burst"
      ∷ codes "32Kb"
      ∷ codes "latency"
      ∷ codes "100ms"
      ∷ []
unfolding basic_line basic_line_elements print_rate print_rate_loop print_size print_time print_dec
    print_digits str_eq compare_str
line_run = refl

class_run : compare_class_id (codes "1:a") (codes "1:10") ≡ lt
unfolding compare_class_id convert_class_id parse_hex parse_hex_loop split
class_run = refl

compare_qdisc_wraps_example :
    (compare_qdisc (tbf root_base 1000 300 70) (tbf root_base 1000 200 70) ≡ some gt)
    × (compare_qdisc (tbf root_base 1000 200 70) (tbf root_base 1000 300 70) ≡ some eq)
compare_qdisc_wraps_example =
    compare_qdisc_wraps root_base 1000 300 200 70 (omega arith) (omega arith)
