-- ===== src/Pam.antt =====
-- crates/syauth-pam/src/auth.rs with the daemon's reply of crates/syauth-presenced/src/server.rs: an
-- unlock as the PAM stack sees it.
pub mod Auth
pub mod Choice
pub mod Config
pub mod Unlock
