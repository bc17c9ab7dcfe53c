-- ===== src/Lib.antt =====
-- Verification library of the SDN agent: the logic by which the agent keeps the flow tables of an
-- Open vSwitch bridge, the zones of connection tracking, the matches of security rules, the routes
-- and the traffic control of an interface as they are wanted.
--
-- The parts of the program, and the files that model them:
--
-- - Base: what the other files share. Lists, Boolean tests, options, comparisons and their laws,
--   ordered lists, association lists, byte strings, printing of numbers, and masks of bits. Nothing of
--   it is a model of the program's own code.
-- - Flow (Flow/Defs, Flow/Laws): pkg/agent/utils/utils.go, the comparison of two flows.
--   `compare_ovs_flow` is CompareOVSFlow, `cmp_ovs_matches` is cmpOvsMatches and so on. The types of
--   matches and actions and their texts belong to go-openvswitch, a package that is copied into
--   vendor: they are the parameter `OvsText`.
-- - FlowSet (Defs, Search, Update, Diff, Merge): pkg/agent/utils/flowset.go, the ordered set of flows
--   over a comparison. A set is the slice of its flows; `add`, `remove`, `contains`, `merge` and
--   `diff` are the methods Add, Remove, Contains, Merge and Diff, and `find_flow_index` the binary
--   search that they use. `none` is a panic.
-- - FlowMan (Defs, Loop, Check, Wait, Batch): pkg/agent/server/flowman.go, the manager of the flows of
--   one bridge. The sets that the other parts of the agent ask for come as commands; doCheck merges
--   the sets, dumps the bridge's flows, compares the two with Diff, and commits the difference.
--   `System` is the manager beside the switch, `do_cmd` is doCmd, `round` is one round of the loop of
--   Start, and `start_loop` the loop over a sequence of what the loop meets. The Open vSwitch daemon,
--   reached through go-openvswitch, is the parameter `Switch`, with whether its database's socket is
--   there, without which doDumpFlows ends the process, and Check states what is relied on of it. The
--   timer is that of Go 1.23 and later, where Stop drops a value that was not received. Wait is
--   withWait of watch.go with updateFlows: a call of it is the list of the updates that it makes, and
--   `events_of` what the manager of a bridge meets of them.
-- - ZoneMan (Defs, Probe, Laws, Run): pkg/agent/utils/ct_zone.go, the allocator of zones of connection
--   tracking, with its hash.
-- - SecRules (Ports, Rules, Grow, Cover, Matches, Lists): pkg/agent/utils/securityrules.go.
--   `port_range_to_masks` is PortRangeToMasks, `ovs_matches_of` is OvsMatches with its cache, and
--   `new_security_rules` is NewSecurityRules. The packages secrules, regutils and net are the
--   parameter `SecLib`.
-- - Routes (Table, Best): pkg/agent/utils/route.go, Lookup, on addresses of four bytes.
-- - Tc (Tree, Parts, Commands, Units, RoundTrip, Objects, Margin, Classes, Order, Filters, Total,
--   Handles): pkg/tc. Handles is handle.go. Tree is compare.go and tree.go over the interface of
--   tcobj.go, the parameter `TcObj`; Units is unit.go; Objects is the comparison and the command lines
--   of qdisc.go, qdisc_htb.go, qdisc_tbf.go and qdisc_ingress.go and the comparison of class
--   identifiers of class.go; Classes and Filters are the comparisons and the command lines of class.go
--   and filter.go. Trees are not yet instantiated at these objects, whose comparisons can panic.
-- - Guest (Desc, Zones, Settings; Held, Reload, Pending, Settled, Carry, Sorting and Steps are
--   proofs): a guest, of pkg/agent/utils/guest.go and pkg/agent/server/guest.go. `load_desc` is
--   LoadDesc of a decoded description, `reload_desc` is reloadDesc, and `update_settings` and
--   `clear_settings` are UpdateSettings and ClearSettings; what they send to the flow managers, the
--   traffic control manager and the local VPC managers is a list of `Effect`. NewSecurityRules
--   (modelled in SecRules), FlowsMap and what DumpPort finds are arguments, so that the theorems are
--   about any of them.
-- - Watch (Events, Defs, Find; Steps and Deleted are proofs): pkg/agent/server/watch.go. `watch_event`
--   is watchEvent, `start_watch` the loop of Start over a sequence of what it receives, which calls
--   UpdateSettings and ClearSettings of Guest on one allocator of ZoneMan, and `find_guest_desc` its
--   answer to a search. path.Clean, the regular expression of identifiers and the package hashcache
--   are parameters.
-- - TcMan (Defs, Wanted; Book is a proof): pkg/agent/server/tcman.go. `do_event` is doCmd and the case
--   of the idle timer, `start_tc` the loop of Start; what is done to an interface is an `Action`.
--   Wanted is the queueing disciplines of pkg/agent/utils/tcdata.go.
-- - SecFlows (Defs, Rules; Order, Falling, Tables and Verdict are proofs):
--   pkg/agent/utils/flowsource.go, F and SecurityRules.Flows. A flow is a `FlowSpec`, the text that F
--   prints, by its parts, and `make_flows` is what the calls of F for a list come to, which panic on a
--   text that UnmarshalText refuses; whether a packet satisfies the text of a match is left open,
--   since Open vSwitch reads it. `winner` is the flow that a table takes.
-- - NicFlows (PortMaps, LocalMaps, Md, Defs, Metadata, Nic, Guest, Host; Misses, Spoof, Merge and
--   HostDrop are proofs): pkg/agent/utils/flowsource.go and cls_md.go. `flows_map_for_nic` is
--   FlowsMapForNic, `flows_map` is FlowsMap of a guest, `host_flows_map` that of a host,
--   `port_mapping_flows` the flows of mapped ports, and `fake_md_src_ip_mac` the address that stands
--   for a client of the metadata service. The flows of the security rules are an argument, which
--   SecFlows models. What is asked of the kernel and of other packages is the record `NetLib`, or
--   comes as data: the addresses of a host after its method MAC, and what getMetadataInfo returns.
--   Lists of flows are those of the calls of F; at the end `made` makes them, or panics, which comes
--   to the same since F does nothing else.
-- - Tap (Names, Fetch, Ports, Sync; Apart and Kept are proofs): pkg/agent/server/tap.go.
--   `sync_tap_config` is syncTapConfig, of a decoded configuration, `mirror_port` and `tap_port` the
--   names of ports, and `fetch_mirror_list` reads the tables that ovs-vsctl prints, which come as
--   parsed JSON. The switch, reached through go-openvswitch and ovs-vsctl, is the parameter `Ovs`;
--   DumpPort is a part of it.
-- - PortCache (Defs; Fresh is a proof): pkg/agent/utils/cache_port_stats.go. `dump_port` is DumpPort
--   of the cache and `clean_stales` is cleanStales, which an `Op` may run at any time, for the code
--   starts it beside the call, once the cache has 2048 entries. A call is one step at one time; calls
--   that overlap are not modelled. The switch is the parameter `dump`, a function of the time.
-- - Tests: runs of the models, and the theorems applied at concrete inputs, where each parameter is a
--   concrete function.
--
-- Numbers: an integer of the program is a native natural number, or ℤ of Base/Int where it may be
-- negative, and arithmetic of a machine width is written out with its remainder. Strings are lists
-- of bytes; white space and letters are those of ASCII.
--
-- Loops: those over slices are recursion on the list. The others take fuel, and the theorems show that
-- it is enough: the search of FlowSet takes one round for each flow and one more, the probe of ZoneMan
-- one for each index, the doubling of a block of ports 33 rounds for the 32 bits, and the loop over
-- blocks one for each port and one more. A number is printed with one round for each of its units,
-- and one more.
--
-- sort.Slice, which is not stable, is a stable sort by insertion: the theorems of sorted lists speak
-- of what a list has up to the comparison, which any sort gives.
--
-- Not modelled: log texts; the channels behind a command, so that a command is taken whole; the parsers
-- of what tc and the kernel print; the part of the watcher for hostlocal; where the configuration of a
-- tap comes from; the VPC and configuration parts, the RPC services and the command line, which for the
-- greater part call third-party code.
-- Generated and vendored code is not modelled: what the program uses of it is a parameter.
pub mod Base
pub mod Flow
pub mod FlowSet
pub mod ZoneMan
pub mod FlowMan
pub mod SecRules
pub mod Guest
pub mod SecFlows
pub mod Watch
pub mod NicFlows
pub mod Tap
pub mod PortCache
pub mod TcMan
pub mod Routes
pub mod Tc
mod Tests
