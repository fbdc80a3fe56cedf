-- ===== src/Inverter.antt =====
-- packages/inverter-monitoring: the producer that polls a Voltronic inverter.
pub mod Crc
pub mod Protocol
pub mod Parse
pub mod Serial
