-- ===== src/SecRules.antt =====
-- pkg/agent/utils/securityrules.go: security rules and their Open vSwitch matches.
pub mod Ports
pub mod Rules
pub mod Grow
pub mod Cover
pub mod Matches
pub mod Lists
unfoldable pub use Ports.*
unfoldable pub use Rules.*
