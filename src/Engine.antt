-- ===== src/Engine.antt =====
-- crates/syauth-transport/src/pair_engine.rs: the daemon's side of a pairing. `Framing` cuts
-- control writes into frames, `Service` is the state that the GATT callbacks and the engine share,
-- `Actions` is what the engine does for the transaction, and `Drive` is one pairing attempt.
pub mod Framing
pub mod Service
pub mod Actions
pub mod Drive
