-- ===== src/Watch/Find.antt =====
-- pkg/agent/server/watch.go: the loop's answer to wCmdFindGuestDescByIdIP. `Desc` is a description;
-- hashcache, a copied package, is the parameter `HashCache`.
use sdnagent.Base.{
  Option, none, some, List, [], ◌∷◌, Str, ◌≡◌, refl, ◌∙◌, arith, Option-cases, inl, inr,
}
use sdnagent.Guest.{ServerGuest, find_nic_by_net_id_ip}

-- A cache at one time, with Get and Set.
pub record HashCache (Desc : Type 0) : Type 1 where
  pub Cache : Type 0
  pub get : Cache → Str → Option Desc
  pub set : Cache → Str → Desc → Cache

-- What is set is found again, until it expires after 10 seconds.
abbrev pub Keeps : {Desc : Type 0} → HashCache Desc → Type 0
Keeps {Desc} h = (c : h.Cache) (k : Str) (v : Desc) → h.get (h.set c k v) k ≡ some v

module _ {Rules Desc : Type 0} where
  -- The loop over the guests, in some order: the description of the first that has such a nic; `read`
  -- is GetJSONObjectDesc, `none` its error.
  unfoldable pub find_desc :
      (Str → Option Desc) → Str → Str → List (Str × ServerGuest Rules) → Option Desc
  unfolding find_nic_by_net_id_ip
  find_desc read net_id ip [] = none
  find_desc read net_id ip ((id, s) ∷ guests) =
      let rest = find_desc read net_id ip guests in
      elim (find_nic_by_net_id_ip net_id ip s.guest) [ some nic ↦ read id | none ↦ rest ]

module _ {Rules Desc : Type 0} (h : HashCache Desc) where
  -- The answer, and the cache after it.
  unfoldable pub find_guest_desc :
      (Str → Option Desc)
      → Str
      → Str
      → List (Str × ServerGuest Rules)
      → h.Cache
      → Option Desc × h.Cache
  unfolding find_desc
  find_guest_desc read net_id ip guests c = elim (h.get c net_id) [
    | some d ↦ (some d, c)
    | none ↦ elim (find_desc read net_id ip guests) [
      | some d ↦ (some d, h.set c net_id d)
      | none ↦ (none, c)
    ]
  ]

  cached_answer :
      (read : Str → Option Desc) (net_id ip : Str) (guests : List (Str × ServerGuest Rules))
      (c : h.Cache) (d : Desc)
      → h.get c net_id ≡ some d
      → (find_guest_desc read net_id ip guests c).0 ≡ some d
  unfolding find_guest_desc
  cached_answer read net_id ip guests c d e = rw (find_guest_desc, e) refl

  leaves_cached :
      (read : Str → Option Desc) (net_id ip : Str) (guests : List (Str × ServerGuest Rules))
      (c : h.Cache) (d : Desc)
      → Keeps h
      → (find_guest_desc read net_id ip guests c).0 ≡ some d
      → h.get (find_guest_desc read net_id ip guests c).1 net_id ≡ some d
  unfolding find_guest_desc
  leaves_cached read net_id ip guests c d keeps found = elim (Option-cases (h.get c net_id)) [
    | inl fresh ↦ elim (Option-cases (find_desc read net_id ip guests)) [
      | inl absent ↦ absurd (ground (arith, fresh, absent, found))
      | inr (d', at) ↦
          rw (find_guest_desc, fresh, at) (keeps c net_id d' ∙ ground (arith, fresh, at, found))
    ]
    | inr (d', known) ↦ rw (find_guest_desc, known) (known ∙ ground (arith, known, found))
  ]

  -- Once a description was found for an address of a network, and as long as the cache keeps it, the
  -- answer for any other address of this network is the same description, whichever guests there
  -- are: the key of the cache is the network alone.
  pub find_guest_desc_stale :
      (read : Str → Option Desc) (net_id ip ip' : Str)
      (guests guests' : List (Str × ServerGuest Rules)) (c : h.Cache) (d : Desc)
      → Keeps h
      → (find_guest_desc read net_id ip guests c).0 ≡ some d
      → (find_guest_desc read net_id ip' guests' (find_guest_desc read net_id ip guests c).1).0
        ≡ some d
  find_guest_desc_stale read net_id ip ip' guests guests' c d keeps found =
      cached_answer read net_id ip' guests' (find_guest_desc read net_id ip guests c).1 d
        (leaves_cached read net_id ip guests c d keeps found)
