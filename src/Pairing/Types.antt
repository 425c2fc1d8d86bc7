-- ===== src/Pairing/Types.antt =====
-- The enums and constants of crates/syauth-core/src/pair_transaction.rs, with their wire codes.
use desk_unlock.Prelude.{ℕ, Bool, true, false, ◌&&◌, Option, List}

abbrev pub version : ℕ
version = 2

abbrev pub message_len : ℕ
message_len = 18

abbrev pub status_message_len : ℕ
status_message_len = 27

abbrev pub status_query_state : ℕ
status_query_state = 0

pub data Operation : Type 0 where
  capability confirm reject cancel timeout prepared commit commit_ack committed : Operation
  status error status_query status_response revoke : Operation

-- The discriminants of `#[repr(u8)]`.
abbrev pub operation_code : Operation → ℕ
operation_code Operation.capability = 1
operation_code Operation.confirm = 2
operation_code Operation.reject = 3
operation_code Operation.cancel = 4
operation_code Operation.timeout = 5
operation_code Operation.prepared = 6
operation_code Operation.commit = 7
operation_code Operation.commit_ack = 8
operation_code Operation.committed = 9
operation_code Operation.status = 10
operation_code Operation.error = 11
operation_code Operation.status_query = 12
operation_code Operation.status_response = 13
operation_code Operation.revoke = 14

pub data TransactionError : Type 0 where
  incompatible wrong_transaction invalid_transition : TransactionError

pub data StatusState : Type 0 where
  pre_commit commit_pending committed bonded aborted unknown : StatusState

abbrev pub status_code : StatusState → ℕ
status_code StatusState.pre_commit = 1
status_code StatusState.commit_pending = 2
status_code StatusState.committed = 3
status_code StatusState.bonded = 4
status_code StatusState.aborted = 5
status_code StatusState.unknown = 6

pub data Phase : Type 0 where
  negotiating oob_pending preparing prepared commit_pending committed bonded uncertain : Phase
  aborted : Operation → Phase

pub data Role : Type 0 where
  coordinator participant : Role

pub data LocalEvent : Type 0 where
  verified_exchange capability confirm prepared commit commit_ack committed disconnected :
      LocalEvent
  abort : Operation → LocalEvent

-- The index of a `[bool; 2]`: 0 is this side, 1 the peer.
pub data Side : Type 0 where
  here there : Side

-- A `[bool; 2]`, with `self.flags[side]` and the comparisons with `[true; 2]` and `[false; 2]`.
pub record Flags : Type 0 where
  pub mine : Bool
  pub peer : Bool

abbrev pub flag : Flags → Side → Bool
flag f Side.here = f.mine
flag f Side.there = f.peer

abbrev pub raise : Flags → Side → Flags
raise f Side.here = record f { mine = true }
raise f Side.there = record f { peer = true }

abbrev pub both : Flags
both = record { mine = true; peer = true }

abbrev pub neither : Flags
neither = record { mine = false; peer = false }

abbrev pub is_both : Flags → Bool
is_both f = f.mine && f.peer

-- `transaction` is `[u8; 16]`.
pub record Message : Type 0 where
  pub transaction : List ℕ
  pub operation : Operation

-- `nonce` is a `u64`; no state for a query, some for a response.
pub record StatusMessage : Type 0 where
  pub transaction : List ℕ
  pub nonce : ℕ
  pub state : Option StatusState
