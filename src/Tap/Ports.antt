-- ===== src/Tap/Ports.antt =====
-- pkg/agent/server/tap.go: the ports of the tap bridge, over a switch.
use sdnagent.Base.{
  Bool, true, false, ◌||◌, Option, none, some, List, [], ◌∷◌, ◌++◌, map, Str, codes, str_eq,
  str_eq_instance, print_int, ℤ, if◌then◌else◌,
}
use sdnagent.SecFlows.{FlowSpec, flow, is_empty}
use sdnagent.Tap.Names.{Mirror, Tap, tap_mirror, tap_port, dest_port_args}
use sdnagent.Tap.Fetch.{JsonList}

-- The switch, as go-openvswitch and ovs-vsctl reach it: `none` is an error, after which the switch may be
-- another. `tables` is a table that ovs-vsctl lists, and `find_dev` the device with an address.
pub record Ovs : Type 1 where
  pub State : Type 0
  pub port_to_bridge : State → Str → Option Str
  pub delete_port : State → Str → Str → State × Bool
  pub exec : State → List Str → State × Bool
  pub list_ports : State → Str → Option (List Str)
  pub dump_port : State → Str → Str → Option ℤ
  pub mirror_table : State → Option JsonList
  pub bridge_table : State → Option JsonList
  pub port_table : State → Option JsonList
  pub find_dev : Str → Option Str

-- How a call ends: well, with a value; with an error; or in a panic.
pub data Ended (S A : Type 0) : Type 0 where
  ok : S → A → Ended S A
  err : S → Ended S A
  panics : Ended S A

unfoldable pub and_then : {S A B : Type 0} → Ended S A → (S → A → Ended S B) → Ended S B
and_then (ok s a) f = f s a
and_then (err s) f = err s
and_then panics f = panics

unfoldable pub in_strings : Str → List Str → Bool
unfolding str_eq
in_strings x [] = false
in_strings x (y ∷ ys) = str_eq x y || in_strings x ys

-- SHostTapConfig
pub record TapConfig : Type 0 where
  pub taps : List Tap
  pub host_mirrors : List Mirror

module _ (o : Ovs) (tap_bridge vpc_bridge : Str) where
  open o use {State}

  unfoldable pub run : State → List Str → Ended State Unit
  run s args = let (s', good) = o.exec s args in if good then ok s' tt else err s'

  unfoldable pub run_all : State → List (List Str) → Ended State Unit
  unfolding run and_then
  run_all s [] = ok s tt
  run_all s (args ∷ rest) = and_then (run s args) (λ s' u. run_all s' rest)

  -- Whether the port has still to be added to the bridge; a port of another bridge is deleted there, and
  -- an error of that is only logged.
  unfoldable pub claim_port : State → Str → Str → State × Bool
  unfolding str_eq
  claim_port s bridge port = elim (o.port_to_bridge s port) [
    | none ↦ (s, true)
    | some br ↦ if str_eq br bridge then (s, false) else ((o.delete_port s br port).0, true)
  ]

  -- portsArgs, for the mirrors and for the tap.
  unfoldable pub mirrors_args : State → List Mirror → State × List (List Str)
  unfolding claim_port dest_port_args tap_port
  mirrors_args s [] = (s, [])
  mirrors_args s (m ∷ ms) =
      let (s1, missing) = claim_port s tap_bridge (tap_port m) in
      let (s2, rest) = mirrors_args s1 ms in
      (s2, if missing then dest_port_args m tap_bridge ∷ rest else rest)

  unfoldable pub ports_args : State → Str → List Mirror → State × List (List Str)
  unfolding mirrors_args
  ports_args s ifname ms =
      let (s1, missing) = claim_port s tap_bridge ifname in
      let (s2, rest) = mirrors_args s1 ms in
      (
        s2,
        if missing
            then ((codes "ovs-vsctl")
                ∷ (codes "--")
                ∷ (codes "--may-exist")
                ∷ (codes "add-port")
                ∷ tap_bridge
                ∷ ifname
                ∷ [])
              ∷ rest
            else rest,
      )

  -- flows of a tap: what comes from the port of a mirror goes to the tap's.
  unfoldable pub mirror_flows : State → ℤ → List Mirror → Option (List FlowSpec)
  unfolding tap_port print_int
  mirror_flows s out [] = some []
  mirror_flows s out (m ∷ ms) =
      let rest = mirror_flows s out ms in
      elim (o.dump_port s tap_bridge (tap_port m)) [
        | none ↦ none
        | some n ↦ elim rest [
          | none ↦ none
          | some fs ↦
              some (
                flow 0 500 (codes "in_port=" ++ print_int n) (codes "output:" ++ print_int out)
                ∷ fs)
        ]
      ]

  unfoldable pub tap_flows : State → Str → List Mirror → Option (List FlowSpec)
  unfolding mirror_flows
  tap_flows s ifname ms = elim (o.dump_port s tap_bridge ifname) [
    | none ↦ none
    | some out ↦ mirror_flows s out ms
  ]

  -- The device of a tap: its name, or that of the device with its address.
  unfoldable pub device_of : Tap → Option Str
  device_of tap = if is_empty tap.ifname then o.find_dev tap.mac_addr else some tap.ifname

  -- A device of a guest, which has an address of none of the host's, that is on no bridge.
  unfoldable pub is_absent : State → Tap → Bool
  is_absent s tap = elim (o.find_dev tap.mac_addr) [
    | some dev ↦ false
    | none ↦ elim (o.port_to_bridge s tap.ifname) [ none ↦ true | some br ↦ false ]
  ]

  abbrev pub mirrors_of : Tap → List Mirror
  mirrors_of tap = map (tap_mirror vpc_bridge tap) tap.mirrors

  -- One round of the loop over the taps: the ports to keep, and the flows.
  unfoldable pub sync_tap : State → Tap → Ended State (List Str × List FlowSpec)
  unfolding is_absent device_of ports_args run_all tap_flows
  sync_tap s tap = if is_absent s tap then ok s ([], []) else elim (device_of tap) [
    | none ↦ err s
    | some dev ↦
        let (s1, args) = ports_args s dev (mirrors_of tap) in
        and_then (run_all s1 args) (λ s2 u. elim (tap_flows s2 dev (mirrors_of tap)) [
          | none ↦ err s2
          | some fs ↦ ok s2 (dev ∷ map tap_port (mirrors_of tap), fs)
        ])
  ]

  unfoldable pub sync_taps : State → List Tap → Ended State (List Str × List FlowSpec)
  unfolding sync_tap and_then
  sync_taps s [] = ok s ([], [])
  sync_taps s (tap ∷ taps) =
      and_then (sync_tap s tap) (λ s1 one.
        and_then (sync_taps s1 taps) (λ s2 rest. ok s2 (one.0 ++ rest.0, one.1 ++ rest.1)))

  -- The ports of the list that are not to be kept are deleted from the bridge.
  unfoldable pub drop_ports : State → List Str → List Str → Ended State Unit
  unfolding in_strings
  drop_ports s keep [] = ok s tt
  drop_ports s keep (p ∷ ps) =
      if in_strings p keep
      then drop_ports s keep ps
      else (let (s', good) = o.delete_port s tap_bridge p in
          elim good [ true ↦ drop_ports s' keep ps | false ↦ err s' ])

  unfoldable pub remove_obsolete : State → List Str → Ended State Unit
  unfolding drop_ports
  remove_obsolete s keep = elim (o.list_ports s tap_bridge) [
    | none ↦ err s
    | some ports ↦ drop_ports s keep ports
  ]

  -- syncTapConfig up to the flows that it sends to the manager of the tap bridge.
  unfoldable pub sync_ports : State → List Tap → Ended State (List FlowSpec)
  unfolding sync_taps remove_obsolete and_then
  sync_ports s taps =
      and_then (sync_taps s taps)
        (λ s made. and_then (remove_obsolete s made.0) (λ s u. ok s made.1))
