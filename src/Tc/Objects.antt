-- ===== src/Tc/Objects.antt =====
-- pkg/tc/class.go and pkg/tc/qdisc*.go: the comparison of class identifiers and of queueing
-- disciplines, and the commands for the disciplines.
use sdnagent.Base.{
  ℕ, ◌+◌, ◌-◌, ◌*◌, ◌%◌, Ordering, lt, eq, gt, Bool, not, ◌&&◌, Option, none, some, List, [], ◌∷◌,
  ◌++◌, Str, codes, str_eq, compare_str, compare, ltb, leb, ◌==◌, if◌then◌else◌, split, print_hex,
  ◌then_by◌,
}
use sdnagent.Tc.Units.{print_rate, print_size, print_time, uint64}

abbrev pub hex_value : ℕ → ℕ
hex_value c =
    if leb 48 c && leb c 57
    then c - 48
    else if leb 97 c && leb c 102
    then c - 87
    else if leb 65 c && leb c 70
    then c - 55
    else 16

-- The value that strconv.ParseUint(s, 16, 64) returns beside its error: 0 for a text that is no
-- number, the largest value for a number that is too large.
unfoldable pub parse_hex_loop : ℕ → Str → ℕ
parse_hex_loop n [] = n
parse_hex_loop n (c ∷ s) =
    let rest = parse_hex_loop (n * 16 + hex_value c) s in
    if hex_value c == 16 then 0 else if leb uint64 (n * 16 + hex_value c) then uint64 - 1 else rest

unfoldable pub parse_hex : Str → ℕ
unfolding parse_hex_loop
parse_hex s = parse_hex_loop 0 s

-- convertClassId: the texts before the first colon and between it and the next.
unfoldable pub convert_class_id : Str → ℕ × ℕ
unfolding parse_hex split
convert_class_id class_id = elim (split 58 class_id) [
  | [] ↦ (0, 0)
  | major ∷ rest ↦ (parse_hex major, elim rest [ [] ↦ 0 | minor ∷ more ↦ parse_hex minor ])
]

unfoldable pub compare_class_id : Str → Str → Ordering
unfolding convert_class_id
compare_class_id a b =
    let (major1, minor1) = convert_class_id a in
    let (major2, minor2) = convert_class_id b in compare major1 major2 then_by compare minor1 minor2

-- SBaseTcQdisc
pub record BaseQdisc : Type 0 where
  pub kind : Str
  pub handle : Str
  pub parent : Str
  pub root : Bool

unfoldable pub compare_base_qdisc : BaseQdisc → BaseQdisc → Ordering
compare_base_qdisc q q2 =
    if not q.root && q2.root
    then gt
    else if q.root && not q2.root
    then lt
    else if not (str_eq q.handle q2.handle)
    then compare_class_id q.handle q2.handle
    else if not (str_eq q.kind q2.kind)
    then compare_str q.kind q2.kind
    else compare_str q.parent q2.parent

-- QdiscHtb, QdiscTbf and QdiscIngress.
pub data Qdisc : Type 0 where
  htb : BaseQdisc → ℕ → Qdisc
  tbf : BaseQdisc → ℕ → ℕ → ℕ → Qdisc
  ingress : BaseQdisc → Qdisc

unfoldable pub base_of : Qdisc → BaseQdisc
base_of (htb base default_class) = base
base_of (tbf base rate burst latency) = base
base_of (ingress base) = base

-- One of the two comparisons of QdiscTbf.Compare with a margin, in 64 bits.
unfoldable pub compare_within : ℕ → ℕ → ℕ → Ordering
compare_within margin a b =
    if ltb a b && ltb ((a + margin) % uint64) b
    then lt
    else if ltb b a && ltb b ((a + uint64 - margin) % uint64)
    then gt
    else eq

-- What Compare does once the bases are equal: `none` is the panic of the type assertion.
unfoldable pub compare_settings : Qdisc → Qdisc → Option Ordering
unfolding compare_within
compare_settings (htb base default_class) (htb base2 default_class2) =
    some (compare default_class default_class2)
compare_settings (tbf base rate burst latency) (tbf base2 rate2 burst2 latency2) = some (
    compare rate rate2
    then_by compare_within 500 burst burst2
    then_by compare_within 70000 latency latency2)
compare_settings (ingress base) q2 = some eq
compare_settings (htb base default_class) _ = none
compare_settings (tbf base rate burst latency) _ = none

unfoldable pub compare_qdisc : Qdisc → Qdisc → Option Ordering
compare_qdisc q q2 = elim (compare_base_qdisc (base_of q) (base_of q2)) [
  | eq ↦ compare_settings q q2
  | other ↦ some other
]

unfoldable pub basic_line_elements : BaseQdisc → Str → Str → List Str
unfolding str_eq
basic_line_elements q action ifname =
    codes "qdisc"
    ∷ action
    ∷ codes "dev"
    ∷ ifname
    ∷ ((if q.root
          then codes "root" ∷ []
          else if not (str_eq q.parent []) && not (str_eq q.kind (codes "ingress"))
          then codes "parent" ∷ q.parent ∷ []
          else [])
        ++ codes "handle" ∷ q.handle ∷ [])

-- basicLine of each kind; AddLine and ReplaceLine give the actions "add" and "replace".
unfoldable pub basic_line : Qdisc → Str → Str → List Str
unfolding basic_line_elements print_hex print_rate print_size print_time
basic_line (htb base default_class) action ifname =
    basic_line_elements base action ifname
    ++ base.kind ∷ codes "default" ∷ (codes "0x" ++ print_hex default_class) ∷ []
basic_line (tbf base rate burst latency) action ifname =
    basic_line_elements base action ifname
    ++ base.kind
      ∷ codes "rate"
      ∷ print_rate rate
      ∷ codes "burst"
      ∷ print_size burst
      ∷ (if latency == 0 then [] else codes "latency" ∷ print_time latency ∷ [])
basic_line (ingress base) action ifname = basic_line_elements base action ifname ++ base.kind ∷ []
