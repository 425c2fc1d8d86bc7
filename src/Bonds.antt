-- ===== src/Bonds.antt =====
-- crates/syauth-core/src/bond.rs, the record of the bonded phones, and pair_recovery.rs, which takes
-- a new phone up into it.
pub mod Store
pub mod Laws
pub mod Contract
pub mod Journal
pub mod Recovery
