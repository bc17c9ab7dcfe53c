-- ===== src/Tap.antt =====
-- pkg/agent/server/tap.go: the taps and mirrors of a host.
pub mod Names
pub mod Apart
pub mod Fetch
pub mod Ports
pub mod Sync
pub mod Kept
