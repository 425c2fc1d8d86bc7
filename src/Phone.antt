-- ===== src/Phone.antt =====
-- crates/syauth-mobile/src/implementation.rs: what the phone's app calls. `Challenge` answers the
-- frames of an unlock, `Pairing` keeps the transaction of a pairing as serialized bytes.
pub mod Challenge
pub mod Pairing
