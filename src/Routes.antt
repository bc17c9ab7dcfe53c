-- ===== src/Routes.antt =====
-- pkg/agent/utils/route.go: the lookup of a route.
pub mod Table
pub mod Best
unfoldable pub use Table.*
