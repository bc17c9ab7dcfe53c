-- ===== src/Guest.antt =====
-- pkg/agent/utils/guest.go and pkg/agent/server/guest.go: a guest, its description, its zones of
-- connection tracking, and what an update of it sends to the managers.
pub mod Desc
pub mod Zones
pub mod Held
pub mod Reload
pub mod Settings
pub mod Pending
pub mod Settled
pub mod Carry
pub mod Sorting
pub mod Steps
unfoldable pub use Desc.*
unfoldable pub use Zones.*
unfoldable pub use Settings.*
