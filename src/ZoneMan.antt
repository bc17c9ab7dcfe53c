-- ===== src/ZoneMan.antt =====
-- pkg/agent/utils/ct_zone.go: the allocator of conntrack zone ids.
mod Probe
mod Laws
mod Defs
mod Run
pub use Laws.*
unfoldable pub use Run.*
unfoldable pub use Defs.*
