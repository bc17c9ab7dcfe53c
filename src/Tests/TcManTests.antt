-- ===== src/Tests/TcManTests.antt =====
-- The manager of traffic control with the host and a guest.
use sdnagent.Base.{
  arith, compare, reverse, ◌then_by◌, some, true, false, none, List, [], ◌∷◌, Str, codes, str_eq,
  str_eq_instance, lookup, pos, ◌≡◌, refl,
}
use sdnagent.Tc.Objects.{tbf, compare_qdisc}
use sdnagent.TcMan.Wanted.{tbf_base, tbf_rate, tbf_burst, tbf_qdisc, apart, compare_qdisc-tbf_qdisc}
use sdnagent.Guest.{TcData}
use sdnagent.TcMan.Defs.{
  host_local_who, TcEvent, add_cmd, del_cmd, sync_cmd, idle_tick, start_tc, do_idle_check,
}
use sdnagent.TcMan.Book.{Agrees, misses_host, has_host, last_told, start_tc-Agrees}

abbrev iface : Str → TcData
iface name = record {
  ifname = name;
  ingress_mbps = 100;
  egress_mbps = 100;
  tc_bridge = codes "br0";
  tc_port_no = pos 3;
}

abbrev host_events : List TcEvent
host_events =
    add_cmd host_local_who ((codes "br0", iface (codes "br0")) ∷ []) false
    ∷ add_cmd (codes "g1") ((codes "v1", iface (codes "v1")) ∷ []) true
    ∷ sync_cmd
    ∷ del_cmd (codes "g1")
    ∷ idle_tick
    ∷ []

-- A tick before the host has told its interfaces.
early_tick : start_tc (idle_tick ∷ host_events) [] ≡ none
unfolding start_tc do_idle_check
early_tick = refl

none_missing : misses_host false host_events ≡ false
unfolding str_eq
none_missing = refl

start_tc-Agrees_example :
    Agrees
      (start_tc host_events [])
      (misses_host (has_host []) host_events)
      (λ who. last_told who (lookup who []) host_events)
start_tc-Agrees_example = start_tc-Agrees host_events []

-- A filter of 50 Mbps was read, 100 are wanted.
compare_qdisc-tbf_qdisc_example :
    (compare_qdisc (tbf_qdisc 100) (tbf tbf_base 50_000_000 6250 100_000_000)
      ≡ some (
          compare (tbf_rate 100) 50_000_000
          then_by apart 500 (tbf_burst 100) 6250
          then_by apart 70_000 100_000_000 100_000_000))
    × (compare_qdisc (tbf tbf_base 50_000_000 6250 100_000_000) (tbf_qdisc 100)
        ≡ some (
            reverse (
              compare (tbf_rate 100) 50_000_000
              then_by apart 500 (tbf_burst 100) 6250
              then_by apart 70_000 100_000_000 100_000_000)))
compare_qdisc-tbf_qdisc_example =
    compare_qdisc-tbf_qdisc 100 50_000_000 6250 100_000_000 (omega arith, omega arith)
      (omega arith, omega arith)
