-- ===== src/Presence.antt =====
-- crates/syauth-presenced/src/orchestrator.rs: the daemon that challenges the bonded phones.
-- `NonceCache` remembers accepted nonces, `Outcome` is what a challenge ends in, `Peers` is the
-- table of bonded phones, `Challenge` is one challenge, from the request to the outcome and the
-- audit record, and `Reload` is how the table follows the bond file.
pub mod NonceCache
pub mod Outcome
pub mod Peers
pub mod Challenge
pub mod Reload
pub mod Commits
pub mod Lock
pub mod Rotation
