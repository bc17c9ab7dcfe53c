-- ===== src/Tests.antt =====
-- Runs of the models and instances of their theorems at concrete inputs.
mod Sample
mod FlowTests
mod ZoneTests
mod SwitchSample
mod ManTests
mod WaitTests
mod RuleTests
mod RouteTests
mod TcTests
mod UnitTests
mod FilterTests
mod QdiscTests
mod GuestTests
mod SecFlowTests
mod WatchTests
mod TcManTests
mod NicTests
mod TapTests
mod PortCacheTests
