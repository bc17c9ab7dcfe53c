-- ===== src/PortCache.antt =====
-- pkg/agent/utils/cache_port_stats.go: the cache of what the switch says of its ports.
pub mod Defs
pub mod Fresh
