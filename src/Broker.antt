-- ===== src/Broker.antt =====
-- crates/syauth-transport/src/pairing.rs: the channel between the daemon and the confirmation dialog.
-- `Messages` are its byte formats, `Session` is the broker of one dialog and one open question.
pub mod Messages
pub mod Session
