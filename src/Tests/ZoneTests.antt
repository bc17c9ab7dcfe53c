-- ===== src/Tests/ZoneTests.antt =====
-- The allocator of zone ids at concrete addresses.
use native.Mathlib.Omega.{arith}
use sdnagent.Base.{
  ℕ, ◌+◌, ◌%◌, ◌<◌, some, [], ◌∷◌, Str, codes, lookup, str_eq, nat_eq, str_eq_instance, ◌≡◌, refl,
}
use sdnagent.ZoneMan.{
  ZoneMan, new_zone_man, allocated, depleted, fnv32, allocate_zone_id, free_zone_id, probe, run,
  allocate, free, IsValid, new_zone_man-IsValid, Goes, allocate_zone_id-Goes,
  allocate_zone_id-IsValid, run_unique,
}

abbrev pub mac_a : Str
mac_a = codes "00:22:1b:04:95:b3"

abbrev pub mac_b : Str
mac_b = codes "00:22:68:f7:fe:5b"

-- The state of the agent's allocator after its first address.
abbrev one : ZoneMan
one = (allocate_zone_id (new_zone_man 65_534) mac_a).0

-- Two ids, and then no more.
two_ids :
    ((allocate_zone_id one mac_b).1 ≡ allocated 65_534)
    × ((allocate_zone_id (allocate_zone_id one mac_b).0 (codes "c")).1 ≡ depleted)
unfolding allocate_zone_id new_zone_man probe str_eq
two_ids = (refl, refl)

start : IsValid (new_zone_man 65_534) × (0 < (new_zone_man 65_534).base)
unfolding new_zone_man
start = (new_zone_man-IsValid 65_534 (omega arith), omega arith)

one-IsValid : IsValid one
one-IsValid = allocate_zone_id-IsValid start.0 mac_a start.1

one_base : 0 < one.base
unfolding allocate_zone_id new_zone_man probe str_eq
one_base = omega arith

allocate_zone_id-Goes_example : Goes one mac_b
allocate_zone_id-Goes_example = allocate_zone_id-Goes one-IsValid mac_b one_base

-- The second call for an address returns what the first returned.
one_again : (allocate_zone_id one mac_a).1 ≡ allocated 65_535
unfolding allocate_zone_id new_zone_man probe str_eq
one_again = refl

first : (allocate_zone_id (new_zone_man 65_534) mac_a).1 ≡ allocated 65_535
unfolding allocate_zone_id new_zone_man probe str_eq
first = refl

run_held :
    lookup mac_a (run (allocate mac_a ∷ allocate mac_b ∷ free mac_b ∷ []) (new_zone_man 65_534)).zm
    ≡ some 1
unfolding run allocate_zone_id free_zone_id new_zone_man probe str_eq
run_held = refl

run_unique_example :
    ((run (allocate mac_a ∷ allocate mac_b ∷ free mac_b ∷ []) (new_zone_man 65_534)).base + 1
      < 0x1_0000)
    × (lookup mac_b
            (run (allocate mac_a ∷ allocate mac_b ∷ free mac_b ∷ []) (new_zone_man 65_534)).zm
          ≡ some 1
        → mac_a ≡ mac_b)
run_unique_example =
    run_unique 65_534 (allocate mac_a ∷ allocate mac_b ∷ free mac_b ∷ []) mac_a mac_b 1
      (omega arith) (omega arith) run_held

-- Another address holds the index that the first address hashes to.
abbrev taken_index : ℕ
taken_index = 0xb005

taken_at : lookup (fnv32 2_166_136_261 mac_a % 0x1_0000) ((taken_index, mac_b) ∷ []) ≡ some mac_b
unfolding lookup fnv32
taken_at = refl
