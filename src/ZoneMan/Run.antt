-- ===== src/ZoneMan/Run.antt =====
-- pkg/agent/utils/ct_zone.go: sequences of calls, as the agent makes them for its guests.
use sdnagent.Base.{
  ℕ, suc, ◌+◌, ◌%◌, ◌<◌, none, some, List, [], ◌∷◌, Str, nat_eq, str_eq_instance, lookup,
  lookup-insert, lookup-insert_self, eq_of_str_eq, length, ◌≡◌, inl, inr, arith,
}
use sdnagent.ZoneMan.Defs.{
  ZoneMan, probe, panics, new_zone_man, allocated, division_by_zero, fnv32, total_of,
  allocate_zone_id, free_zone_id,
}
use sdnagent.ZoneMan.Laws.{
  IsValid, new_zone_man-IsValid, allocate_zone_id-Goes, allocate_zone_id-IsValid,
  free_zone_id-IsValid,
}

pub data Op : Type 0 where
  allocate : Str → Op
  free : Str → Op

-- The state after a sequence of calls.
unfoldable pub run : List Op → ZoneMan → ZoneMan
run [] z = z
run (allocate mac ∷ ops) z = run ops (allocate_zone_id z mac).0
run (free mac ∷ ops) z = run ops (free_zone_id z mac).0

pub allocate_zone_id-base :
    {z : ZoneMan} (v : IsValid z) (mac : Str)
    → 0 < z.base
    → (allocate_zone_id z mac).0.base ≡ z.base
allocate_zone_id-base {z} v mac b = elim (allocate_zone_id-Goes v mac b) [
  | inl (i, known, low, e) ↦ rw e
  | inr (inl (w, fresh, room, low, unused, e)) ↦ rw e
  | inr (inr (fresh, full, e)) ↦ rw e
]

pub free_zone_id-base : (z : ZoneMan) (mac : Str) → (free_zone_id z mac).0.base ≡ z.base
unfolding free_zone_id
free_zone_id-base z mac = ground arith

pub run-IsValid :
    (ops : List Op) {z : ZoneMan}
    → IsValid z
    → 0 < z.base
    → IsValid (run ops z) × (0 < (run ops z).base)
unfolding run
run-IsValid [] v b = (v, b)
run-IsValid (allocate mac ∷ ops) v b =
    run-IsValid ops (allocate_zone_id-IsValid v mac b)
      (omega (arith, allocate_zone_id-base v mac b))
run-IsValid (free mac ∷ ops) {z} v b =
    run-IsValid ops (free_zone_id-IsValid v mac).0 (omega (arith, free_zone_id-base z mac))

pub allocated_known :
    {z : ZoneMan} (v : IsValid z) (mac : Str) (k : ℕ)
    → 0 < z.base
    → (allocate_zone_id z mac).1 ≡ allocated k
    → (i : ℕ) × (k ≡ z.base + i)
      × (i < total_of z)
      × (lookup mac (allocate_zone_id z mac).0.zm ≡ some i)
allocated_known {z} v mac k b h = elim (allocate_zone_id-Goes v mac b) [
  | inl (i, known, low, e) ↦ (i, ground (arith, e), low, rw e known)
  | inr (inl (w, fresh, room, low, unused, e)) ↦
      (w, ground (arith, e), low, rw e (lookup-insert_self mac w z.zm))
  | inr (inr (fresh, full, e)) ↦ absurd (ground (arith, e))
]

same_index :
    {z : ZoneMan}
    → IsValid z
    → (mac mac' : Str) (i : ℕ) → lookup mac z.zm ≡ some i
    → lookup mac' z.zm ≡ some i
    → mac ≡ mac'
same_index v mac mac' i p q = ground (arith, v.forward mac i p, v.forward mac' i q)

-- A call leaves every index that is held in its place.
pub allocate_zone_id_kept :
    {z : ZoneMan} (v : IsValid z)
    → 0 < z.base
    → (mac mac' : Str) (i : ℕ) → lookup mac' z.zm ≡ some i
    → lookup mac' (allocate_zone_id z mac).0.zm ≡ some i
allocate_zone_id_kept {z} v b mac mac' i at = elim (allocate_zone_id-Goes v mac b) [
  | inl (w, known, low, e) ↦ rw e at
  | inr (inl (w, fresh, room, low, unused, e)) ↦
      rw e (ground (arith, lookup-insert mac mac' w z.zm, eq_of_str_eq mac mac'))
  | inr (inr (fresh, full, e)) ↦ rw e at
]

-- A zone id that an address holds after a call is granted to no other address by the next call.
allocated_unique :
    {z : ZoneMan}
    → IsValid z
    → (mac mac' : Str) (k : ℕ) → 0 < z.base
    → (allocate_zone_id z mac).1 ≡ allocated k
    → (allocate_zone_id (allocate_zone_id z mac).0 mac').1 ≡ allocated k
    → mac ≡ mac'
allocated_unique {z} v mac mac' k b h h' =
    let v1 = allocate_zone_id-IsValid v mac b in
    let b1 : 0 < (allocate_zone_id z mac).0.base = omega (arith, allocate_zone_id-base v mac b) in
    let (i, e, low, at) = allocated_known v mac k b h in
    let v2 = allocate_zone_id-IsValid v1 mac' b1 in
    let (i', e', low', at') = allocated_known v1 mac' k b1 h' in
    same_index v2 mac mac' i (allocate_zone_id_kept v1 b1 mac' mac i at)
      (rw (same_offset (allocate_zone_id-base v mac b) e e') at')
  where
    same_offset : {a b c i i' : ℕ} → a ≡ b → c ≡ b + i → c ≡ a + i' → i ≡ i'
    same_offset p q r = omega arith

-- On a new allocator with a base from 1 to 65535, after any sequence of calls, an index that an address
-- holds is held by it alone, and the zone id, which is the base and the index, is at most 65535.
pub run_unique :
    (base : ℕ) (ops : List Op) (mac mac' : Str) (i : ℕ)
    → 0 < base
    → base < 0x1_0000
    → lookup mac (run ops (new_zone_man base)).zm ≡ some i
    → ((run ops (new_zone_man base)).base + i < 0x1_0000)
      × (lookup mac' (run ops (new_zone_man base)).zm ≡ some i → mac ≡ mac')
unfolding new_zone_man
run_unique base ops mac mac' i p q at =
    let (v, b) = run-IsValid ops (new_zone_man-IsValid base q) (start base p) in
    (omega (arith, (v.forward mac i at).0), same_index v mac mac' i at)
  where
    start : (base : ℕ) → 0 < base → 0 < (new_zone_man base).base
    start base p = p

probe_panics :
    (fuel : ℕ) (zmr : List (ℕ × Str)) (i j : ℕ) (other : Str)
    → lookup i zmr ≡ some other
    → probe (suc fuel) 0x1_0000 zmr i j ≡ panics
unfolding probe
probe_panics fuel zmr i j other taken = rw (taken, probe)

-- With base 0 the total is 65536, which is 0 as a `uint16`: if the index that a new address hashes
-- to is taken, while the map is not full, AllocateZoneId panics.
allocate_zone_id_base_zero :
    (zm : List (Str × ℕ)) (zmr : List (ℕ × Str)) (mac other : Str)
    → length zm < 0x1_0000
    → lookup mac zm ≡ none
    → lookup (fnv32 2_166_136_261 mac % 0x1_0000) zmr ≡ some other
    → allocate_zone_id (record { zm = zm; zmr = zmr; base = 0 }) mac
      ≡ (record { zm = zm; zmr = zmr; base = 0 }, division_by_zero)
unfolding allocate_zone_id
allocate_zone_id_base_zero zm zmr mac other room fresh taken =
    let i = fnv32 2_166_136_261 mac % 0x1_0000 % 0x1_0000 in
    let hit : lookup i zmr ≡ some other = rw (at_same (fnv32 2_166_136_261 mac)) taken in
    ground (arith, fresh, probe_panics 65_535 zmr i i other hit)
  where
    at_same : (h : ℕ) → h % 0x1_0000 % 0x1_0000 ≡ h % 0x1_0000
    at_same h = omega arith
