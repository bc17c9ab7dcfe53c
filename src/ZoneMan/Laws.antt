-- ===== src/ZoneMan/Laws.antt =====
-- pkg/agent/utils/ct_zone.go: the two maps stay inverse to one another, so that no two addresses
-- share a zone id.
use sdnagent.Base.{
  ℕ, ◌+◌, ◌%◌, ◌≤◌, ◌<◌, false, none, some, Str, nat_eq, str_eq_instance, str_eq, lookup, insert,
  delete, length, ◌≡◌, refl, ◌⊎◌, inl, inr, arith, leb, if◌then◌else◌, Option-cases, Bool-cases,
  leb→le, ◌↔◌, IsMap, lookup-insert, lookup-delete, length-insert_new, insert-IsMap, delete-IsMap,
  length-delete, eq_of_str_eq, str_eq_refl,
}
use sdnagent.ZoneMan.Defs.{
  ZoneMan, new_zone_man, allocated, depleted, found, finish, fnv32, total_of, allocate_zone_id,
  free_zone_id,
}
use sdnagent.ZoneMan.Probe.{probe_found}

-- The maps are inverse to one another, and every index is below the total.
pub record IsValid (z : ZoneMan) : Type 0 where
  pub small : z.base < 0x1_0000
  pub forward :
      (mac : Str) (i : ℕ)
      → lookup mac z.zm ≡ some i
      → (i < total_of z) × (lookup i z.zmr ≡ some mac)
  pub backward : (i : ℕ) (mac : Str) → lookup i z.zmr ≡ some mac → lookup mac z.zm ≡ some i
  pub zm_map : IsMap z.zm
  pub zmr_map : IsMap z.zmr
  pub sizes : length z.zmr ≡ length z.zm

pub new_zone_man-IsValid : (base : ℕ) → base < 0x1_0000 → IsValid (new_zone_man base)
unfolding new_zone_man lookup
new_zone_man-IsValid base h = record {
  small = h;
  forward = λ mac i e. ground arith;
  backward = λ i mac e. ground arith;
  zm_map = tt;
  zmr_map = tt;
  sizes = refl;
}

-- The state with the index recorded for the address.
abbrev pub recorded : ZoneMan → Str → ℕ → ZoneMan
recorded z mac w = record z { zm = insert mac w z.zm; zmr = insert w mac z.zmr }

-- How a call of AllocateZoneId may go: the address has an id, gets a free one, or there is none.
abbrev pub Goes : ZoneMan → Str → Type 0
Goes z mac =
    ((i : ℕ) × (lookup mac z.zm ≡ some i)
      × (i < total_of z)
      × (allocate_zone_id z mac ≡ (z, allocated (z.base + i))))
    ⊎ ((w : ℕ) × (lookup mac z.zm ≡ none)
        × (length z.zm < total_of z)
        × (w < total_of z)
        × (lookup w z.zmr ≡ none)
        × (allocate_zone_id z mac ≡ (recorded z mac w, allocated (z.base + w))))
    ⊎ (lookup mac z.zm ≡ none)
      × (total_of z ≤ length z.zm)
      × (allocate_zone_id z mac ≡ (z, depleted))

module _ {z : ZoneMan} (v : IsValid z) (mac : Str) where
  record-IsValid :
      (w : ℕ)
      → lookup mac z.zm ≡ none
      → w < total_of z
      → lookup w z.zmr ≡ none
      → IsValid (recorded z mac w)
  record-IsValid w fresh low free = record {
    small = v.small;
    forward = λ mac' i e. ground (
      arith,
      lookup-insert mac mac' w z.zm,
      lookup-insert w i mac z.zmr,
      eq_of_str_eq mac mac',
      v.forward mac' i,
    );
    backward = λ i mac' e. ground (
      arith,
      lookup-insert mac mac' w z.zm,
      lookup-insert w i mac z.zmr,
      eq_of_str_eq mac mac',
      str_eq_refl mac,
      v.backward i mac',
    );
    zm_map = insert-IsMap mac w z.zm v.zm_map;
    zmr_map = insert-IsMap w mac z.zmr v.zmr_map;
    sizes =
        omega
          (arith, length-insert_new mac w z.zm fresh, length-insert_new w mac z.zmr free, v.sizes);
  }

  goes_on :
      0 < z.base
      → lookup mac z.zm ≡ none
      → length z.zm < total_of z
      → (w : ℕ) × (w < total_of z)
        × (lookup w z.zmr ≡ none)
        × (allocate_zone_id z mac ≡ (recorded z mac w, allocated (z.base + w)))
  unfolding allocate_zone_id
  goes_on b fresh room =
      let n = total_of z in
      let i = fnv32 2_166_136_261 mac % n % 0x1_0000 in
      let (w, run, low, free) =
        probe_found n z.zmr i (omega arith) (start n (fnv32 2_166_136_261 mac) room)
          (omega (arith, v.sizes)) in
      (w, low, free, ground (arith, fresh, run, finish_found w, v.small))
    where
      start : (n h : ℕ) {k : ℕ} → k < n → h % n % 0x1_0000 < n
      start n h p = grind arith

      finish_found :
          (w : ℕ) → finish z mac (found w) ≡ (recorded z mac w, allocated ((z.base + w) % 0x1_0000))
      finish_found w = refl

  -- On a valid state whose base is positive, AllocateZoneId returns the address's id if it has one;
  -- else it records a free index and returns its id, if the map is not full; else it fails with
  -- "id depleted". It never panics, never loops for ever, and never comes to its last line.
  pub allocate_zone_id-Goes : 0 < z.base → Goes z mac
  unfolding allocate_zone_id
  allocate_zone_id-Goes b = elim (Option-cases (lookup mac z.zm)) [
    | inr (i, known) ↦
        let (low, back) = v.forward mac i known in
        inl (i, known, low, ground (arith, known, v.small))
    | inl fresh ↦ elim (Bool-cases (leb (total_of z) (length z.zm))) [
      | inl full ↦ inr (
          inr (
            fresh,
            omega (arith, leb→le (total_of z) (length z.zm) full),
            ground (arith, fresh, full),
          ))
      | inr room ↦
          let r : length z.zm < total_of z = ground (arith, room) in
          let (w, low, free, run) = goes_on b fresh r in inr (inl (w, fresh, r, low, free, run))
    ]
  ]

  -- AllocateZoneId keeps the maps inverse to one another.
  pub allocate_zone_id-IsValid : 0 < z.base → IsValid (allocate_zone_id z mac).0
  allocate_zone_id-IsValid b = elim (allocate_zone_id-Goes b) [
    | inl (i, known, low, e) ↦ rw e v
    | inr (inl (w, fresh, room, low, free, e)) ↦ rw e (record-IsValid w fresh low free)
    | inr (inr (fresh, full, e)) ↦ rw e v
  ]

  free-IsValid :
      (i : ℕ)
      → lookup mac z.zm ≡ some i
      → IsValid (record z { zm = delete mac z.zm; zmr = delete i z.zmr })
  free-IsValid i known = record {
    small = v.small;
    forward = λ mac' i' e. ground (
      arith,
      lookup-delete mac mac' z.zm,
      lookup-delete i i' z.zmr,
      v.forward mac i known,
      v.forward mac' i',
      str_eq_refl mac,
    );
    backward = λ i' mac' e. ground (
      arith,
      lookup-delete mac mac' z.zm,
      lookup-delete i i' z.zmr,
      v.backward i' mac',
      eq_of_str_eq mac mac',
      str_eq_refl mac,
    );
    zm_map = delete-IsMap mac z.zm v.zm_map;
    zmr_map = delete-IsMap i z.zmr v.zmr_map;
    sizes = omega (
      arith,
      length-delete mac z.zm i v.zm_map known,
      length-delete i z.zmr mac v.zmr_map (v.forward mac i known).1,
      v.sizes,
    );
  }

  -- FreeZoneId keeps the maps inverse to one another; it returns true exactly if the address had
  -- an id; after it the address has none, and every other address has what it had.
  pub free_zone_id-IsValid :
      IsValid (free_zone_id z mac).0
      × ((free_zone_id z mac).1 ≡ false ↔ lookup mac z.zm ≡ none)
      × ((mac' : Str)
          → lookup mac' (free_zone_id z mac).0.zm
            ≡ (if str_eq mac mac' then none else lookup mac' z.zm))
  unfolding free_zone_id
  free_zone_id-IsValid = elim (Option-cases (lookup mac z.zm)) [
    | inl absent ↦ (
      rw (absent, free_zone_id) v,
      (λ h. absent, λ h. rw (absent, free_zone_id)),
      λ mac'. ground (arith, absent, eq_of_str_eq mac mac'),
    )
    | inr (i, known) ↦ (
      rw (known, free_zone_id) (free-IsValid i known),
      (λ h. ground (arith, known), λ h. ground (arith, known)),
      λ mac'. ground (arith, known, lookup-delete mac mac' z.zm),
    )
  ]
