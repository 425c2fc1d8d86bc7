-- ===== src/Pairing.antt =====
-- crates/syauth-core/src/pair_transaction.rs: the pairing protocol, version 2. `Types` holds its
-- enums and messages, `State` the record of a transaction with its status, `Transaction` the events
-- of the state machine, `Codec` the wire and storage formats.
pub mod Types
pub mod State
pub mod Transaction
pub mod Codec
