-- ===== src/TcMan.antt =====
-- pkg/agent/server/tcman.go: the manager of traffic control.
pub mod Defs
pub mod Book
pub mod Wanted
unfoldable pub use Defs.*
