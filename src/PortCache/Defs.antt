-- ===== src/PortCache/Defs.antt =====
-- pkg/agent/utils/cache_port_stats.go: PortStatsCache. The switch is what it answers for a bridge and a
-- port at a time, `none` for an error; times are in nanoseconds.
use sdnagent.Base.{
  ℕ, ◌-◌, Bool, Option, none, some, List, [], ◌∷◌, ◌++◌, Str, str_eq_instance, lookup, insert, leb,
  if◌then◌else◌,
}

abbrev pub stale_period : ℕ
stale_period = 3_000_000_000

-- portStatsData
pub record PortData (Stats : Type 0) : Type 0 where
  pub port_stats : Stats
  pub created : ℕ

module _ {Stats : Type 0} (dump : ℕ → Str → Str → Option Stats) where
  abbrev pub Store : Type 0
  Store = List (Str × PortData Stats)

  unfoldable pub staled : ℕ → PortData Stats → Bool
  staled now data' = leb stale_period (now - data'.created)

  -- The key of a bridge and a port.
  unfoldable pub key_of : Str → Str → Str
  key_of bridge port = bridge ++ 44 ∷ port

  unfoldable pub clean_stales : ℕ → Store → Store
  unfolding staled
  clean_stales now [] = []
  clean_stales now ((k, v) ∷ store) =
      let rest = clean_stales now store in if staled now v then rest else (k, v) ∷ rest

  -- What the cache has that is not stale.
  unfoldable pub cached : ℕ → Str → Store → Option Stats
  unfolding lookup staled
  cached now key store = elim (lookup key store) [
    | none ↦ none
    | some v ↦ if staled now v then none else some v.port_stats
  ]

  -- DumpPort, without the cleaning that it starts.
  unfoldable pub dump_port : ℕ → Str → Str → Store → Option Stats × Store
  unfolding cached insert key_of
  dump_port now bridge port store = elim (cached now (key_of bridge port) store) [
    | some stats ↦ (some stats, store)
    | none ↦ elim (dump now bridge port) [
      | none ↦ (none, store)
      | some stats ↦ (
        some stats,
        insert (key_of bridge port) (record { port_stats = stats; created = now }) store,
      )
    ]
  ]

  -- A call of DumpPort, or a cleaning, which another goroutine does at its own time.
  pub data Op : Type 0 where
    ask : ℕ → Str → Str → Op
    clean : ℕ → Op

  unfoldable pub run_op : Op → Store → Store
  unfolding dump_port clean_stales
  run_op (ask now bridge port) store = (dump_port now bridge port store).1
  run_op (clean now) store = clean_stales now store

  unfoldable pub run_ops : List Op → Store → Store
  unfolding run_op
  run_ops [] store = store
  run_ops (op ∷ ops) store = run_ops ops (run_op op store)
