-- ===== src/FlowSet.antt =====
-- pkg/agent/utils/flowset.go: the ordered set of flows, over the comparison of its elements.
mod Search
mod Update
mod Diff
mod Merge
mod Defs
unfoldable pub use Search.{rank}
pub use Search.{find_flow_index-rank}
pub use Update.{add-has, remove-has}
pub use Diff.*
pub use Merge.*
unfoldable pub use Defs.*
