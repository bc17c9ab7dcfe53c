-- ===== src/Tests/PortCacheTests.antt =====
-- The cache of port statistics over a switch that counts time and has one bridge.
use sdnagent.Base.{
  ℕ, ◌+◌, Option, none, some, List, [], ◌∷◌, Str, codes, str_eq, lacks, true, if◌then◌else◌, ◌-◌,
  ◌<◌, ◌≡◌, refl,
}
use sdnagent.PortCache.Defs.{Op, ask, clean, dump_port, run_ops, stale_period}
use sdnagent.PortCache.Fresh.{AllPlain, dump_port-fresh}

counter : ℕ → Str → Str → Option ℕ
counter now bridge port = if str_eq bridge (codes "br0") then some (now + 7) else none

abbrev asks : List (Op counter)
asks =
    ask 1_000 (codes "br0") (codes "vnet1")
    ∷ ask 2_000 (codes "br1") (codes "vnet1")
    ∷ clean 3_000
    ∷ []

from_cache :
    (dump_port counter 2_000_000_000 (codes "br0") (codes "vnet1") (run_ops counter asks [])).0
    ≡ some 1_007
unfolding counter dump_port run_ops str_eq
from_cache = refl

after_period :
    (dump_port counter 3_000_001_000 (codes "br0") (codes "vnet1") (run_ops counter asks [])).0
    ≡ some 3_000_001_007
unfolding counter dump_port run_ops str_eq
after_period = refl

no_commas : AllPlain counter asks
unfolding lacks
no_commas = (refl, (refl, tt))

no_comma : lacks 44 (codes "br0") ≡ true
unfolding lacks
no_comma = refl

dump_port-fresh_example :
    (t : ℕ) × (2_000_000_000 - t < stale_period)
    × (counter t (codes "br0") (codes "vnet1") ≡ some 1_007)
dump_port-fresh_example =
    dump_port-fresh counter asks 2_000_000_000 (codes "br0") (codes "vnet1") 1_007 no_commas
      no_comma from_cache
