-- ===== src/Auth.antt =====
-- crates/syauth-core/src/frame.rs, mac.rs and sign.rs: the challenge frames of an unlock, their tags
-- and their signatures. `Frame` is the wire format, `Crypto` the two primitives and what the program
-- makes of them.
pub mod Frame
pub mod Crypto
