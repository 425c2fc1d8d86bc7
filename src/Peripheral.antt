-- ===== src/Peripheral.antt =====
-- crates/syauth-transport/src/peripheral.rs: the daemon's side of Bluetooth. `PairAgent` is who may
-- pair, and for how long.
pub mod PairAgent
