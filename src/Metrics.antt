-- ===== src/Metrics.antt =====
-- packages/system-metrics: the producer that reports on the host.
pub mod Block
pub mod Chrony
