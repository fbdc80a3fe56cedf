-- ===== src/Bms.antt =====
-- packages/bms-monitoring: the producer that listens to a JK BMS.
pub mod Frame
pub mod Parse
pub mod Serial
