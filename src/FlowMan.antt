-- ===== src/FlowMan.antt =====
-- pkg/agent/server/flowman.go: the flow manager of one bridge.
mod Defs
mod Loop
mod Check
mod Wait
mod Batch
unfoldable pub use Check.*
unfoldable pub use Loop.*
unfoldable pub use Defs.*
unfoldable pub use Wait.*
unfoldable pub use Batch.*
