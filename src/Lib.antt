-- ===== src/Lib.antt =====
-- A verification library for DeskUnlock, which unlocks a Linux desktop with a paired phone.
--
-- The program and its files
--
-- * Pairing. `crates/syauth-core/src/pair_transaction.rs` is the state machine of one pairing attempt,
--   a two-phase commit between the desktop (coordinator) and the phone (participant). `Pairing/Types`
--   holds its enums and messages, `Pairing/State` the `Transaction` with `validate`, its recovery
--   status and `reconcile_status`, `Pairing/Transaction` the events `local`, `remote` and
--   `apply_status_response`, `Pairing/Codec` the wire formats and the recovery metadata.
-- * Engine. `crates/syauth-transport/src/pair_engine.rs` runs an attempt on the desktop.
--   `Engine/Framing` is `frame_control_payload`, `Engine/Service` the `PairServiceState` that the GATT
--   callbacks share with the engine, `Engine/Actions` and `Engine/Drive` are `drive_pair_transaction`.
-- * Frames. `crates/syauth-core/src/frame.rs`, `mac.rs` and `sign.rs` are `Auth/Frame` and `Auth/Crypto`.
-- * Phone. `crates/syauth-mobile/src/implementation.rs`: `Phone/Challenge` answers a challenge,
--   `Phone/Pairing` keeps a transaction as serialized bytes between two calls of the app.
-- * Broker. `crates/syauth-transport/src/pairing.rs` asks the operator: `Broker/Messages` holds the
--   messages to the dialog and their frames, `Broker/Session` the `PairingBroker`.
-- * Peripheral. `crates/syauth-transport/src/peripheral.rs`: `Peripheral/PairAgent` is the session of the
--   pairing agent, `acquire_pair_agent_with` and `release_pair_agent_with`.
-- * Bonds. `crates/syauth-core/src/bond.rs` is `Bonds/Store`; `pair_recovery.rs` beside it, which
--   stages and promotes the bond of a new phone, is `Bonds/Recovery`, and the text of its journal
--   `Bonds/Journal`.
-- * Reconcile. `crates/syauth-cli/src/reconcile.rs`, the command that finishes an interrupted pairing, is
--   `Reconcile`.
-- * Presence. `crates/syauth-presenced/src/orchestrator.rs` is the daemon: `Presence/NonceCache`,
--   `Presence/Outcome`, `Presence/Peers`, `Presence/Challenge` (`issue_challenge`) and
--   `Presence/Reload` (`reload_bonds`) and `Presence/Rotation` (`rotate_once` and `peers_snapshot`).
--   `pair_commit_consumer` of `runtime.rs` beside it is `Presence/Commits`, and `PidFileLock` of `lock.rs`
--   is `Presence/Lock`.
-- * Code. `oob_code_for_bond` of `crates/syauth-cli/src/oob.rs` and of the phone's `implementation.rs`, the
--   number that the operator compares, are `Code/Desktop` and `Code/Phone`, each with its own constants.
-- * Fragments. `reassemble` of `crates/syauth-transport/src/bluez.rs` is `Fragments`.
-- * Revoke. `crates/syauth-cli/src/revoke.rs`, the command that revokes a bond, is `Revoke`.
-- * RPC. The frames of `crates/syauth-presenced/src/rpc.rs` are `Rpc`.
-- * PAM. `crates/syauth-pam/src/auth.rs` and the daemon's reply in
--   `crates/syauth-presenced/src/server.rs` are `Pam/Auth`; `crates/syauth-pam/src/config.rs`, which says
--   where the daemon's socket is, is `Pam/Config`, with `resolve_runtime_dir` of the daemon's `main.rs`.
--
-- The parts meet as in the program: the engine applies messages to a `Transaction` and frames writes
-- for the service state; its storage requests are what `Presence/Commits` carries out on the files of
-- `Bonds/Recovery`, and what those leave of an interrupted attempt is what `Reconcile` starts from, with
-- the phone's status and the same `Transaction`; the phone applies it too; the daemon takes its peers from the
-- bond store, sends frames that the phone verifies and signs, and its outcome becomes the PAM code.
--
-- How the code is modelled
--
-- A method that takes `&mut self` returns the new state with its result. Bytes and machine integers
-- are natural numbers; a `[u8; n]` is a list whose length a theorem names where it needs it; a `u64` is
-- below 256 ^ 8. Records and data types follow the structs and enums; an error is a value of `Result`
-- without its text. A map is an association list.
--
-- One pairing attempt is a function of a `Schedule`: what the link carries at each poll up to each
-- deadline, the operator's decision and the daemon's answers. So the theorems on `drive` hold for any
-- peer, any timing and any failure of storage. What the link carries while the operator or the daemon is
-- asked stands with the next wait. A challenge is a function of an `Attempt`: whether the
-- peer's slot admits it, the clock, the random nonce and what the peripheral does with each frame.
-- Each call of the file system in `Bonds/Recovery` fails or not as a list says, which also gives what a
-- failed write of the journal leaves, so its theorems cover a stop at any write. In
-- `Presence/Commits` the two reads of a revocation are such calls too; elsewhere a file that cannot be read
-- is a case of `Disk`. A text, as the journal's,
-- is the list of its UTF-8 bytes, and a slice of it within a character panics. The broker's lock makes
-- steps: what others do while a request waits is any list of them, and so are the calls of the instances in
-- `Presence/Lock`.
-- Challenges of one peer do not overlap, as the semaphore with one permit ensures. Sequences of calls
-- and of challenges are lists.
--
-- The framing loop runs on fuel, the payload's length: each round takes a byte at least, so it ends at
-- the end of the payload. The retries of the pair agent count down from the code's bound of 10. No other
-- loop needs fuel. A user id has 32 bits, so the ten digits that `Pam/Config` prints are enough.
--
-- Parameters: BLAKE3 and Ed25519 are the record `Crypto`; what is assumed of them is `IsCrypto`,
-- the lengths and that a seed's signature verifies under its public key. Nothing is assumed on
-- forgeries: the theorems say which signature was verified. The identifier of a public key is a
-- function that `load` takes, and HKDF one that `Code`, with its info string and length, and `Presence/Rotation` take; the CBOR
-- library is the record `Cbor`, and what `pair_commit_consumer` calls outside the repository the
-- record `Machine`. `Examples/Toy` shows primitives that satisfy the hypotheses.
--
-- Not modelled: BlueZ and D-Bus with the GATT application, sockets and timeouts, the atomic write
-- of the bond file and its TOML, HKDF itself, the command line but for the reconciliation and the
-- revocation, the Android app in Kotlin, the desktop's scripts and the packaging: they are I/O,
-- other languages, or apart from what decides on trust.
pub mod Prelude
pub mod Pairing
pub mod Engine
pub mod Broker
pub mod Auth
pub mod Phone
pub mod Bonds
pub mod Presence
pub mod Reconcile
pub mod Revoke
pub mod Code
pub mod Fragments
pub mod Peripheral
pub mod Rpc
pub mod Pam
pub mod Examples
