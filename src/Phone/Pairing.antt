-- ===== src/Phone/Pairing.antt =====
-- The `pair_transaction_*` functions of crates/syauth-mobile/src/implementation.rs. An `i64` that the
-- app passes as a nonce is a natural number or `none`, which stands for a negative one.
pub mod Laws
use desk_unlock.Prelude.{
  ℕ, Bool, true, false, not, Option, none, some, List, ◌==◌, if◌then◌else◌, Result, ok, err, ◌>>=◌,
  ◌>>◌, refuse_if, ok_or, length,
}
use desk_unlock.Pairing.Types.{
  Operation, Role, coordinator, participant, LocalEvent, TransactionError, Phase, Message,
  StatusMessage,
}
use desk_unlock.Pairing.State.{Transaction, new}
use desk_unlock.Pairing.Transaction.{local, remote, apply_status_response}
use desk_unlock.Pairing.Codec.{
  decode_message, encode_status_message, decode_status_message, phase_code, serialize, restore,
}
use desk_unlock.Engine.Service.{query}
use desk_unlock.Phone.Challenge.{MobileError, or_error}

abbrev role_of : ℕ → Result MobileError Role
role_of b =
    if b == 0
    then ok coordinator
    else if b == 1
    then ok participant
    else err MobileError.invalid_key

unfoldable create : List ℕ → ℕ → Result MobileError (List ℕ)
create transaction_id role = do
  refuse_if (not (length transaction_id == 16)) MobileError.invalid_key
  r ← role_of role
  ok (serialize (new transaction_id r))

abbrev pub event_of : ℕ → Result MobileError LocalEvent
event_of b =
    if b == 0
    then ok LocalEvent.capability
    else if b == 1
    then ok LocalEvent.verified_exchange
    else if b == 2
    then ok LocalEvent.confirm
    else if b == 3
    then ok LocalEvent.prepared
    else if b == 4
    then ok LocalEvent.commit
    else if b == 5
    then ok LocalEvent.commit_ack
    else if b == 6
    then ok LocalEvent.committed
    else if b == 7
    then ok LocalEvent.disconnected
    else if b == 8
    then ok (LocalEvent.abort Operation.reject)
    else if b == 9
    then ok (LocalEvent.abort Operation.cancel)
    else if b == 10
    then ok (LocalEvent.abort Operation.timeout)
    else if b == 11
    then ok (LocalEvent.abort Operation.error)
    else err MobileError.bad_frame

-- `tx.…(…).map_err(…)?; Ok(tx.serialize())`.
abbrev pub saved {κ} :
    {A : Type κ} → Transaction × Result TransactionError A → Result MobileError (List ℕ)
saved (t, ok _) = ok (serialize t)
saved (t, err _) = err MobileError.bad_frame

unfoldable pub apply_local : List ℕ → ℕ → Result MobileError (List ℕ)
apply_local state event = do
  tx ← or_error MobileError.bad_frame (restore state)
  e ← event_of event
  saved (local tx e)

unfoldable pub apply_remote : List ℕ → List ℕ → Result MobileError (List ℕ)
apply_remote state bytes = do
  tx ← or_error MobileError.bad_frame (restore state)
  m ← or_error MobileError.bad_frame (decode_message bytes)
  saved (remote tx m)

unfoldable restored : List ℕ → Result MobileError (List ℕ)
restored state = do tx ← or_error MobileError.bad_frame (restore state); ok (serialize tx)

unfoldable pub status_query : List ℕ → Option ℕ → Result MobileError (List ℕ)
status_query transaction_id nonce = do
  refuse_if (not (length transaction_id == 16)) MobileError.invalid_key
  n ← ok_or nonce MobileError.invalid_key
  ok (encode_status_message (query transaction_id n))

abbrev is_query : StatusMessage → Bool
is_query m = elim m.state [ none ↦ true | some _ ↦ false ]

unfoldable pub apply_status : List ℕ → List ℕ → Option ℕ → Result MobileError (List ℕ)
apply_status state bytes nonce = do
  n ← ok_or nonce MobileError.invalid_key
  tx ← or_error MobileError.bad_frame (restore state)
  response ← or_error MobileError.bad_frame (decode_status_message bytes)
  refuse_if (is_query response) MobileError.bad_frame
  saved (apply_status_response tx response n)

unfoldable pub phase : List ℕ → Result MobileError ℕ
phase state = do tx ← or_error MobileError.bad_frame (restore state); ok (phase_code tx.phase)
