-- ===== src/PortCache/Fresh.antt =====
-- pkg/agent/utils/cache_port_stats.go: what DumpPort answers is what the switch has lately said.
use sdnagent.Base.{
  ℕ, ◌-◌, ◌<◌, true, Option, some, List, [], ◌∷◌, Str, str_eq, str_eq_instance, eq_of_str_eq,
  lookup, insert, lacks, cut, cut-append, leb, ◌≡◌, refl, sym, ap, ◌∙◌, arith, Bool-cases,
  Option-cases, inl, inr,
}
use sdnagent.PortCache.Defs.{
  PortData, Store, staled, stale_period, key_of, clean_stales, cached, dump_port, Op, ask, clean,
  run_op, run_ops,
}

-- No bridge that is asked for has a comma in its name.
abbrev pub AllPlain :
    {Stats : Type 0} (dump : ℕ → Str → Str → Option Stats) → List (Op dump) → Type 0
AllPlain dump [] = Unit {0}
AllPlain dump (ask now bridge port ∷ ops) = (lacks 44 bridge ≡ true) × AllPlain dump ops
AllPlain dump (clean now ∷ ops) = AllPlain dump ops

module _ {Stats : Type 0} (dump : ℕ → Str → Str → Option Stats) where
  -- The entry is what the switch said of its bridge and port when it was made.
  abbrev pub Says : Str → PortData Stats → Type 0
  Says k v =
      (b p : Str) → lacks 44 b ≡ true → key_of dump b p ≡ k → dump v.created b p ≡ some v.port_stats

  abbrev pub Sound : Store dump → Type 0
  Sound [] = Unit {0}
  Sound ((k, v) ∷ store) = Says k v × Sound store

  key_of_injective :
      (b p b' p' : Str)
      → lacks 44 b ≡ true
      → lacks 44 b' ≡ true
      → key_of dump b p ≡ key_of dump b' p'
      → (b ≡ b') × (p ≡ p')
  unfolding key_of
  key_of_injective b p b' p' h h' e =
      let same = sym (cut-append 44 b p h) ∙ ap (cut 44) e ∙ cut-append 44 b' p' h' in (cc, cc)

  said-Says :
      (now : ℕ) (b p : Str) (stats : Stats)
      → lacks 44 b ≡ true
      → dump now b p ≡ some stats
      → Says (key_of dump b p) (record { port_stats = stats; created = now })
  said-Says now b p stats plain said b' p' plain' e =
      let (eb, ep) = key_of_injective b' p' b p plain' plain e in
      ap (λ x. dump now x p') eb ∙ ap (λ x. dump now b x) ep ∙ said

  insert-Sound :
      (k : Str) (v : PortData Stats) (store : Store dump)
      → Says k v
      → Sound store
      → Sound (insert k v store)
  unfolding insert
  insert-Sound k v [] said sound = (said, tt)
  insert-Sound k v ((j, w) ∷ store) said (first, sound) = elim (Bool-cases (str_eq j k)) [
    | inl same ↦ rw (same, insert) (said, sound)
    | inr other ↦ rw (other, insert) (first, insert-Sound k v store said sound)
  ]

  clean_stales-Sound :
      (now : ℕ) (store : Store dump) → Sound store → Sound (clean_stales dump now store)
  unfolding clean_stales
  clean_stales-Sound now [] sound = tt
  clean_stales-Sound now ((k, v) ∷ store) (first, sound) = elim (Bool-cases (staled dump now v)) [
    | inl old ↦ rw (old, clean_stales) (clean_stales-Sound now store sound)
    | inr new ↦ rw (new, clean_stales) (first, clean_stales-Sound now store sound)
  ]

  lookup-Says :
      (k : Str) (v : PortData Stats) (store : Store dump)
      → Sound store
      → lookup k store ≡ some v
      → Says k v
  unfolding lookup
  lookup-Says k v [] sound found b p plain e = absurd (ground (arith, found))
  lookup-Says k v ((j, w) ∷ store) (first, sound) found b p plain e =
      elim (Bool-cases (str_eq j k)) [
        | inl same ↦
            let own : w ≡ v = ground (arith, found, same) in
            let said = first b p plain (e ∙ sym (eq_of_str_eq j k same)) in
            ap (λ (x : PortData Stats). dump x.created b p) (sym own)
            ∙ said
            ∙ ap (λ (x : PortData Stats). some x.port_stats) own
        | inr other ↦ lookup-Says k v store sound (ground (arith, found, other)) b p plain e
      ]

  soon : (now : ℕ) → now - now < stale_period
  soon now = omega arith

  cached-fresh :
      (now : ℕ) (k : Str) (store : Store dump) (stats : Stats)
      → cached dump now k store ≡ some stats
      → (v : PortData Stats) × (lookup k store ≡ some v)
        × (now - v.created < stale_period)
        × (v.port_stats ≡ stats)
  unfolding cached staled
  cached-fresh now k store stats hit = elim (Option-cases (lookup k store)) [
    | inl none' ↦ absurd (ground (arith, hit, none'))
    | inr (v, found) ↦ elim (Bool-cases (leb stale_period (now - v.created))) [
      | inl old ↦ absurd (ground (arith, hit, found, old))
      | inr new ↦ (v, found, ground (arith, new), ground (arith, hit, found, new))
    ]
  ]

  -- A call of DumpPort on a sound cache: the cache stays sound, and an answer is what the switch said
  -- of the port, not three seconds ago or more.
  asked :
      (now : ℕ) (b p : Str) (store : Store dump)
      → lacks 44 b ≡ true
      → Sound store
      → Sound (dump_port dump now b p store).1
        × ((stats : Stats)
            → (dump_port dump now b p store).0 ≡ some stats
            → (t : ℕ) × (now - t < stale_period) × (dump t b p ≡ some stats))
  unfolding dump_port
  asked now b p store plain sound = elim (Option-cases (cached dump now (key_of dump b p) store)) [
    | inr (stats, hit) ↦
        rw (hit, dump_port)
          (
            sound,
            λ stats' e.
                let (v, found, fresh, own) = cached-fresh now (key_of dump b p) store stats hit in
                (
                  v.created,
                  fresh,
                  lookup-Says (key_of dump b p) v store sound found b p plain refl
                      ∙ ap some own
                      ∙ e,
                ),
          )
    | inl missed ↦ elim (Option-cases (dump now b p)) [
      | inl failed ↦ rw (missed, failed, dump_port) (sound, λ stats e. absurd (ground (arith, e)))
      | inr (stats, said) ↦
          rw (missed, said, dump_port)
            (
              insert-Sound (key_of dump b p) _ store (said-Says now b p stats plain said) sound,
              λ stats' e. (now, soon now, said ∙ e),
            )
    ]
  ]

  run_op-Sound :
      (op : Op dump) (ops : List (Op dump)) (store : Store dump)
      → AllPlain dump (op ∷ ops)
      → Sound store
      → (Sound (run_op dump op store)) × AllPlain dump ops
  unfolding run_op
  run_op-Sound (ask now b p) ops store (plain, rest) sound =
      ((asked now b p store plain sound).0, rest)
  run_op-Sound (clean now) ops store plain sound = (clean_stales-Sound now store sound, plain)

  run_ops-Sound :
      (ops : List (Op dump)) (store : Store dump)
      → AllPlain dump ops
      → Sound store
      → Sound (run_ops dump ops store)
  unfolding run_ops
  run_ops-Sound [] store plain sound = sound
  run_ops-Sound (op ∷ ops) store plain sound =
      let (next, rest) = run_op-Sound op ops store plain sound in
      run_ops-Sound ops (run_op dump op store) rest next

  -- From the empty cache, after calls of DumpPort and cleanings at any times: what DumpPort answers of a
  -- port, where no bridge asked for has a comma in its name, is what the switch said of that very port,
  -- at a time that does not lie three seconds or more before the call.
  pub dump_port-fresh :
      (ops : List (Op dump)) (now : ℕ) (b p : Str) (stats : Stats)
      → AllPlain dump ops
      → lacks 44 b ≡ true
      → (dump_port dump now b p (run_ops dump ops [])).0 ≡ some stats
      → (t : ℕ) × (now - t < stale_period) × (dump t b p ≡ some stats)
  dump_port-fresh ops now b p stats plains plain answer =
      (asked now b p (run_ops dump ops []) plain (run_ops-Sound ops [] plains tt)).1 stats answer
