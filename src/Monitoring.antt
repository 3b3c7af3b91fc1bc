-- ===== src/Monitoring.antt =====
-- monitoring_service/: the metrics and their registry.
pub mod New
pub mod Metrics
pub mod Registry
pub mod Readings
pub mod Kinds
pub mod Gauge
mod Tests
