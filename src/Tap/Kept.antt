-- ===== src/Tap/Kept.antt =====
-- pkg/agent/server/tap.go: which ports are left on the tap bridge.
use sdnagent.Base.{
  Bool, true, false, not, ◌&&◌, ◌||◌, some, List, [], ◌∷◌, Str, str_eq, eq_of_str_eq, ◌≡◌, refl, ap,
  ◌∙◌, arith, Bool-cases, inl, inr,
}
use sdnagent.SecFlows.{FlowSpec}
use sdnagent.Tap.Names.{Tap}
use sdnagent.Tap.Ports.{
  Ovs, ok, err, and_then, in_strings, drop_ports, remove_obsolete, sync_taps, sync_ports,
}

-- What is relied on of the switch: DeletePort of a port of a bridge that can be listed succeeds, and takes
-- this port alone off the bridge.
pub record Deletes (o : Ovs) (bridge : Str) : Type 0 where
  pub deletes :
      (s : o.State) (p : Str) (ports : List Str)
      → o.list_ports s bridge ≡ some ports
      → (s' : o.State) × (ports' : List Str) × (o.delete_port s bridge p ≡ (s', true))
        × (o.list_ports s' bridge ≡ some ports')
        × ((q : Str) → in_strings q ports' ≡ (in_strings q ports && not (str_eq q p)))

module _ (o : Ovs) (tap_bridge vpc_bridge : Str) (law : Deletes o tap_bridge) where
  open o use {State}

  kept_first :
      (keep ps : List Str) (p q : Str)
      → in_strings p keep ≡ true
      → (in_strings q keep || not (in_strings q ps))
        ≡ (in_strings q keep || not (in_strings q (p ∷ ps)))
  unfolding in_strings
  kept_first keep ps p q h = elim (Bool-cases (str_eq q p)) [
    | inl same ↦
        let there : in_strings q keep ≡ true =
          ap (λ x. in_strings x keep) (eq_of_str_eq q p same) ∙ h in
        ground (arith, same, there)
    | inr other ↦ ground (arith, other)
  ]

  dropped_first :
      (l keep ps : List Str) (p q : Str) (b : Bool)
      → in_strings p keep ≡ false
      → b ≡ (in_strings q l && not (str_eq q p))
      → (b && (in_strings q keep || not (in_strings q ps)))
        ≡ (in_strings q l && (in_strings q keep || not (in_strings q (p ∷ ps))))
  unfolding in_strings
  dropped_first l keep ps p q b h e = elim (Bool-cases (str_eq q p)) [
    | inl same ↦
        let gone : in_strings q keep ≡ false =
          ap (λ x. in_strings x keep) (eq_of_str_eq q p same) ∙ h in
        ground (arith, same, gone, e)
    | inr other ↦ ground (arith, other, e)
  ]

  none_dropped :
      (l keep : List Str) (q : Str)
      → in_strings q l ≡ (in_strings q l && (in_strings q keep || not (in_strings q [])))
  unfolding in_strings
  none_dropped l keep q = ground arith

  drop_next :
      (s s1 : State) (keep ps : List Str) (p : Str)
      → in_strings p keep ≡ false
      → o.delete_port s tap_bridge p ≡ (s1, true)
      → drop_ports o tap_bridge vpc_bridge s keep (p ∷ ps)
        ≡ drop_ports o tap_bridge vpc_bridge s1 keep ps
  unfolding drop_ports
  drop_next s s1 keep ps p goes gone =
      rw (goes, drop_ports)
        (ap
          (λ (r : State × Bool). elim r.1 [
            | true ↦ drop_ports o tap_bridge vpc_bridge r.0 keep ps
            | false ↦ err r.0
          ])
          gone)

  drop_ports-kept :
      (keep ps : List Str) (s : State) (l : List Str)
      → o.list_ports s tap_bridge ≡ some l
      → (s' : State) × (l' : List Str) × (drop_ports o tap_bridge vpc_bridge s keep ps ≡ ok s' tt)
        × (o.list_ports s' tap_bridge ≡ some l')
        × ((q : Str)
            → in_strings q l' ≡ (in_strings q l && (in_strings q keep || not (in_strings q ps))))
  unfolding drop_ports
  drop_ports-kept keep [] s l listed = (s, l, refl, listed, λ q. none_dropped l keep q)
  drop_ports-kept keep (p ∷ ps) s l listed = elim (Bool-cases (in_strings p keep)) [
    | inl stays ↦
        let (s', l', e, listed', h) = drop_ports-kept keep ps s l listed in
        (
          s',
          l',
          rw (stays, drop_ports) e,
          listed',
          λ q. h q ∙ ap (λ b. in_strings q l && b) (kept_first keep ps p q stays),
        )
    | inr goes ↦
        let (s1, l1, gone, listed1, h1) = law.deletes s p l listed in
        let (s', l', e, listed', h) = drop_ports-kept keep ps s1 l1 listed1 in
        (
          s',
          l',
          drop_next s s1 keep ps p goes gone ∙ e,
          listed',
          λ q. h q ∙ dropped_first l keep ps p q (in_strings q l1) goes (h1 q),
        )
  ]

  removed :
      (s s' : State) (keep l : List Str)
      → o.list_ports s tap_bridge ≡ some l
      → drop_ports o tap_bridge vpc_bridge s keep l ≡ ok s' tt
      → remove_obsolete o tap_bridge vpc_bridge s keep ≡ ok s' tt
  unfolding remove_obsolete
  removed s s' keep l listed e = rw (listed, remove_obsolete) e

  -- Once the loop over the taps has ended well and the ports of the tap bridge can be listed, the removal of
  -- the obsolete ones succeeds, and leaves on the bridge exactly those of its ports that the loop wants
  -- to keep; the flows are those of the loop.
  pub sync_ports-kept :
      (s s1 : State) (taps : List Tap) (made : List Str × List FlowSpec) (l : List Str)
      → sync_taps o tap_bridge vpc_bridge s taps ≡ ok s1 made
      → o.list_ports s1 tap_bridge ≡ some l
      → (s' : State) × (l' : List Str) × (sync_ports o tap_bridge vpc_bridge s taps ≡ ok s' made.1)
        × (o.list_ports s' tap_bridge ≡ some l')
        × ((q : Str) → in_strings q l' ≡ (in_strings q l && in_strings q made.0))
  unfolding sync_ports and_then
  sync_ports-kept s s1 taps made l looped listed =
      let (s', l', e, listed', h) = drop_ports-kept made.0 l s1 l listed in
      (
        s',
        l',
        ap
              (λ r. and_then r (λ s made.
                and_then (remove_obsolete o tap_bridge vpc_bridge s made.0) (λ s u. ok s made.1)))
              looped
            ∙ ap (λ r. and_then r (λ s u. ok s made.1)) (removed s1 s' made.0 l listed e),
        listed',
        λ q. h q ∙ ground arith,
      )
