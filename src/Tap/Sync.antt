-- ===== src/Tap/Sync.antt =====
-- pkg/agent/server/tap.go: the mirrors, and the whole of syncTapConfig.
use sdnagent.Base.{
  true, false, not, ◌&&◌, none, some, List, [], ◌∷◌, map, Str, codes, str_eq_instance, lookup,
  if◌then◌else◌,
}
use sdnagent.NicFlows.Defs.{panicked, failed, done}
use sdnagent.Tap.Names.{
  Mirror, new_tap_mirror, mirror_port, mirror_name, mirror_port_args, mirror_args, is_mirror_port,
}
use sdnagent.Tap.Fetch.{MirrorConfig, fetch_mirror_list, port_rows}
use sdnagent.Tap.Ports.{
  Ovs, Ended, ok, err, panics, and_then, in_strings, TapConfig, run, claim_port, sync_ports,
}

module _ (o : Ovs) (tap_bridge vpc_bridge : Str) where
  open o use {State}

  -- The loop over the wanted mirrors; `have` is the map of those that there are.
  unfoldable pub make_mirrors : State → List (Str × MirrorConfig) → List Mirror → Ended State Unit
  unfolding claim_port run mirror_port mirror_name mirror_port_args mirror_args lookup and_then
  make_mirrors s have [] = ok s tt
  make_mirrors s have (m ∷ ms) = elim (lookup (mirror_name m) have) [
    | some c ↦ make_mirrors s have ms
    | none ↦
        let (s1, missing) = claim_port o tap_bridge vpc_bridge s m.bridge (mirror_port m) in
        and_then (if missing then run o tap_bridge vpc_bridge s1 (mirror_port_args m) else ok s1 tt)
          (λ s2 u.
            and_then (run o tap_bridge vpc_bridge s2 (mirror_args m))
              (λ s3 u. make_mirrors s3 have ms))
  ]

  -- The loop that removes the mirrors that are not wanted.
  unfoldable pub remove_mirrors : State → List Str → List (Str × MirrorConfig) → Ended State Unit
  unfolding in_strings run and_then
  remove_mirrors s wanted [] = ok s tt
  remove_mirrors s wanted ((name, c) ∷ have) =
      if in_strings name wanted
      then remove_mirrors s wanted have
      else and_then
          (run o tap_bridge vpc_bridge s (
            (codes "ovs-vsctl")
            ∷ (codes "--")
            ∷ (codes "--id=@m")
            ∷ (codes "get")
            ∷ (codes "Mirror")
            ∷ name
            ∷ (codes "--")
            ∷ (codes "remove")
            ∷ (codes "Bridge")
            ∷ c.bridge
            ∷ (codes "mirrors")
            ∷ (codes "@m")
            ∷ []))
          (λ s' u. remove_mirrors s' wanted have)

  -- The loop that deletes the ports of mirrors that are not wanted.
  unfoldable pub remove_mirror_ports : State → List Str → List (Str × Str) → Ended State Unit
  unfolding in_strings is_mirror_port
  remove_mirror_ports s wanted [] = ok s tt
  remove_mirror_ports s wanted ((p, id) ∷ ports) =
      if is_mirror_port p && not (in_strings p wanted)
      then elim (o.port_to_bridge s p) [
        | none ↦ remove_mirror_ports s wanted ports
        | some br ↦
            let (s', good) = o.delete_port s br p in
            elim good [ true ↦ remove_mirror_ports s' wanted ports | false ↦ err s' ]
      ]
      else remove_mirror_ports s wanted ports

  unfoldable pub read_mirrors : State → Ended State (List (Str × MirrorConfig))
  unfolding fetch_mirror_list
  read_mirrors s = elim (fetch_mirror_list (o.mirror_table s) (o.bridge_table s) (o.port_table s)) [
    | panicked ↦ panics
    | failed ↦ err s
    | done ms ↦ ok s ms
  ]

  unfoldable pub read_ports : State → Ended State (List (Str × Str))
  unfolding port_rows
  read_ports s = elim (o.port_table s) [
    | none ↦ err s
    | some rows ↦ elim (port_rows [] rows) [ none ↦ err s | some ports ↦ ok s ports ]
  ]

  -- What follows the flows in syncTapConfig.
  unfoldable pub sync_mirrors : State → List Mirror → Ended State Unit
  unfolding read_mirrors read_ports make_mirrors remove_mirrors remove_mirror_ports and_then
  sync_mirrors s mirrors =
      let wanted = map (new_tap_mirror vpc_bridge) mirrors in
      and_then (read_mirrors s) (λ s have. and_then (read_ports s) (λ s ports.
        and_then (make_mirrors s have wanted) (λ s u.
          and_then (remove_mirrors s (map mirror_name wanted) have)
            (λ s u. remove_mirror_ports s (map mirror_port wanted) ports))))

  -- syncTapConfig. The flows are sent before the mirrors are read, whatever becomes of these.
  unfoldable pub sync_tap_config : State → TapConfig → Ended State Unit
  unfolding sync_ports sync_mirrors and_then
  sync_tap_config s cfg =
      and_then (sync_ports o tap_bridge vpc_bridge s cfg.taps)
        (λ s flows. sync_mirrors s cfg.host_mirrors)
