-- ===== src/Engine/Service.antt =====
-- `PairServiceState` of crates/syauth-transport/src/pair_engine.rs, and the v2-control reader that
-- feeds it. Locks are not poisoned, so each `if let Ok(guard)` takes its branch.
pub mod Laws
use desk_unlock.Prelude.{
  ℕ, Bool, true, false, ◌&&◌, Option, none, some, List, [], ◌∷◌, ◌++◌, if◌then◌else◌, Result, ok,
  err, drop, bytes_eq,
}
use desk_unlock.Pairing.Types.{Operation, Message, StatusMessage, StatusState}
use desk_unlock.Pairing.Codec.{
  encode_message, decode_message, encode_status_message, decode_status_message,
}
use desk_unlock.Engine.Framing.{frame_control_payload}

pub record ServiceState : Type 0 where
  pub host_pubkey : List ℕ
  pub host_name : List ℕ
  pub status : List ℕ
  pub unread : Bool
  pub inbox : List (List ℕ)
  pub session : Option (List ℕ × StatusState)

unfoldable pub new : List ℕ → List ℕ → ServiceState
new host_pubkey host_name = record {
  host_pubkey = host_pubkey;
  host_name = host_name;
  status = [];
  unread = false;
  inbox = [];
  session = none;
}

unfoldable pub publish : ServiceState → Message → ServiceState
publish s m = record s { status = encode_message m; unread = true }

unfoldable pub publish_status : ServiceState → StatusMessage → ServiceState
publish_status s r = record s { status = encode_status_message r; unread = true }

-- A read consumes the unread mark; past the end it is empty.
unfoldable pub status_snapshot : ServiceState → ℕ → ServiceState × List ℕ
status_snapshot s offset = (record s { unread = false }, drop offset s.status)

unfoldable pub begin_session : ServiceState → ServiceState
begin_session s = record s { status = []; unread = false; inbox = []; session = none }

unfoldable pub remember_session : ServiceState → List ℕ → StatusState → ServiceState
remember_session s id st = record s { session = some (id, st) }

abbrev pub query : List ℕ → ℕ → StatusMessage
query id nonce = record { transaction = id; nonce = nonce; state = none }

abbrev pub response : List ℕ → ℕ → StatusState → StatusMessage
response id nonce st = record { transaction = id; nonce = nonce; state = some st }

-- The answer to a status message: only a query of the current session has one.
answer :
    ServiceState → StatusMessage → Option (List ℕ × StatusState) → Option StatusState → ServiceState
answer s q (some (id, st)) none =
    if bytes_eq id q.transaction then publish_status s (response id q.nonce st) else s
answer s q none none = s
answer s q _ (some _) = s

unfoldable pub accept_control : ServiceState → List ℕ → ServiceState
unfolding answer
accept_control s bytes = elim (decode_status_message bytes) [
  | ok q ↦ answer s q s.session q.state
  | err _ ↦ record s { inbox = s.inbox ++ bytes ∷ [] }
]

-- Whether an inbox entry is a message of the transaction.
unfoldable pub is_of : List ℕ → List ℕ → Bool
is_of id bytes = elim (decode_message bytes) [ ok m ↦ bytes_eq m.transaction id | err _ ↦ false ]

-- `position` and `remove` in one pass: the entry and the inbox without it.
unfoldable pub take_first : List ℕ → List (List ℕ) → Option (List ℕ × List (List ℕ))
take_first id [] = none
take_first id (bytes ∷ inbox) =
    let rest : Option (List ℕ × List (List ℕ)) = elim (take_first id inbox) [
      | none ↦ none
      | some (found, left) ↦ some (found, bytes ∷ left)
    ] in
    if is_of id bytes then some (bytes, inbox) else rest

abbrev operation_of : List ℕ → Option Operation
operation_of bytes = elim (decode_message bytes) [ ok m ↦ some m.operation | err _ ↦ none ]

unfoldable pub take_message : ServiceState → List ℕ → ServiceState × Option Operation
unfolding take_first
take_message s id = elim (take_first id s.inbox) [
  | none ↦ (s, none)
  | some (bytes, left) ↦ (record s { inbox = left }, operation_of bytes)
]

-- The closure that the reader hands to `frame_control_payload`: a revocation goes to the daemon,
-- by the identifier in its transaction field, all else to the session.
abbrev revoked : List ℕ → Option (List ℕ)
revoked frame = elim (decode_message frame) [
  | ok m ↦ elim m.operation [ Operation.revoke ↦ some m.transaction | _ ↦ none ]
  | err _ ↦ none
]

unfoldable control_frames : ServiceState → List (List ℕ) → ServiceState × List (List ℕ)
control_frames s [] = (s, [])
control_frames s (f ∷ fs) = elim (revoked f) [
  | none ↦ control_frames (accept_control s f) fs
  | some id ↦ let (s', ids) = control_frames s fs in (s', id ∷ ids)
]

-- One write on the control characteristic: the state, and the bonds that it asks to revoke.
unfoldable pub control_write : ServiceState → List ℕ → ServiceState × List (List ℕ)
unfolding control_frames
control_write s payload = control_frames s (frame_control_payload payload)
