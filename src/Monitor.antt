-- ===== src/Monitor.antt =====
-- internal/monitor/monitor.go: metrics for Prometheus.
pub mod Metrics
pub mod Text
pub mod Publish
pub mod Job
pub mod Families
pub mod Atomic
pub mod Pools
