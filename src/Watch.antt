-- ===== src/Watch.antt =====
-- pkg/agent/server/watch.go: the watcher of the directory of servers, and its table of guests.
pub mod Events
pub mod Defs
pub mod Steps
pub mod Deleted
pub mod Find
unfoldable pub use Events.*
unfoldable pub use Defs.*
