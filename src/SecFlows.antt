-- ===== src/SecFlows.antt =====
-- pkg/agent/utils/flowsource.go: the flows of a nic's security rules.
pub mod Defs
pub mod Order
pub mod Falling
pub mod Tables
pub mod Verdict
pub mod Rules
unfoldable pub use Defs.*
