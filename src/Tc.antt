-- ===== src/Tc.antt =====
-- pkg/tc: the trees of traffic control objects and the commands that turn one into another.
pub mod Tree
pub mod Units
pub mod RoundTrip
pub mod Objects
pub mod Margin
pub mod Classes
pub mod Filters
pub mod Total
pub mod Order
pub mod Parts
pub mod Commands
pub mod Handles
unfoldable pub use Tree.*
