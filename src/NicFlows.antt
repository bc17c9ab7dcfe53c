-- ===== src/NicFlows.antt =====
-- pkg/agent/utils/flowsource.go and cls_md.go: the flows of the nics of a guest and those of a host.
pub mod PortMaps
pub mod LocalMaps
pub mod Md
pub mod Defs
pub mod Metadata
pub mod Nic
pub mod Guest
pub mod Misses
pub mod Spoof
pub mod Merge
pub mod Host
pub mod HostDrop
