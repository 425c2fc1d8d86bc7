-- ===== src/Pairing/Codec.antt =====
-- The byte formats of crates/syauth-core/src/pair_transaction.rs: `Message`, `StatusMessage`, and
-- the recovery metadata of a `Transaction`. An array `[u8; n]` is a list of length n, so writing
-- its slices one after the other is concatenation.
pub mod RoundTrip
pub mod StatusRoundTrip
pub mod Recovery
use desk_unlock.Prelude.{
  ℕ, Bool, true, false, not, ◌&&◌, ◌||◌, Option, none, some, List, [], ◌∷◌, ◌++◌, ◌==◌, leb,
  if◌then◌else◌, Result, ok, err, ◌>>=◌, ◌>>◌, refuse_if, length, get_or, take, drop, to_be_bytes,
  from_be_bytes,
}
use desk_unlock.Pairing.Types.{
  Operation, operation_code, TransactionError, incompatible, StatusState, status_code, Phase, Role,
  coordinator, participant, Flags, Message, StatusMessage, version, message_len, status_message_len,
  status_query_state,
}
use desk_unlock.Pairing.State.{Transaction, validate}

-- The `match bytes[17]` of `Message::decode`.
unfoldable pub decode_operation : ℕ → Result TransactionError Operation
decode_operation b =
    if b == 1
    then ok Operation.capability
    else if b == 2
    then ok Operation.confirm
    else if b == 3
    then ok Operation.reject
    else if b == 4
    then ok Operation.cancel
    else if b == 5
    then ok Operation.timeout
    else if b == 6
    then ok Operation.prepared
    else if b == 7
    then ok Operation.commit
    else if b == 8
    then ok Operation.commit_ack
    else if b == 9
    then ok Operation.committed
    else if b == 10
    then ok Operation.status
    else if b == 11
    then ok Operation.error
    else if b == 12
    then ok Operation.status_query
    else if b == 13
    then ok Operation.status_response
    else if b == 14
    then ok Operation.revoke
    else err incompatible

unfoldable pub encode_message : Message → List ℕ
encode_message m = version ∷ m.transaction ++ operation_code m.operation ∷ []

unfoldable pub decode_message : List ℕ → Result TransactionError Message
decode_message bytes = do
  refuse_if (not (length bytes == message_len) || not (get_or bytes 0 0 == version)) incompatible
  operation ← decode_operation (get_or bytes 17 0)
  ok (record { transaction = take 16 (drop 1 bytes); operation = operation })

unfoldable pub decode_status : ℕ → Result TransactionError StatusState
decode_status b =
    if b == 1
    then ok StatusState.pre_commit
    else if b == 2
    then ok StatusState.commit_pending
    else if b == 3
    then ok StatusState.committed
    else if b == 4
    then ok StatusState.bonded
    else if b == 5
    then ok StatusState.aborted
    else if b == 6
    then ok StatusState.unknown
    else err incompatible

abbrev state_operation : Option StatusState → Operation
state_operation (some s) = Operation.status_response
state_operation none = Operation.status_query

abbrev state_byte : Option StatusState → ℕ
state_byte (some s) = status_code s
state_byte none = status_query_state

-- The `match (bytes[25], bytes[26])` of `StatusMessage::decode`, up to the state.
unfoldable pub decode_state : ℕ → ℕ → Result TransactionError (Option StatusState)
decode_state op value =
    if (op == 12) && (value == status_query_state)
    then ok none
    else if (op == 12) || (op == 13) && (value == status_query_state)
    then err incompatible
    else if op == 13
    then (do s ← decode_status value; ok (some s))
    else err incompatible

unfoldable pub encode_status_message : StatusMessage → List ℕ
encode_status_message m =
    version ∷ m.transaction
    ++ (to_be_bytes 8 m.nonce ++ operation_code (state_operation m.state) ∷ state_byte m.state ∷ [])

unfoldable pub decode_status_message : List ℕ → Result TransactionError StatusMessage
decode_status_message bytes = do
  refuse_if (not (length bytes == status_message_len) || not (get_or bytes 0 0 == version))
      incompatible
  state ← decode_state (get_or bytes 25 0) (get_or bytes 26 0)
  ok (record {
    transaction = take 16 (drop 1 bytes);
    nonce = from_be_bytes (take 8 (drop 17 bytes));
    state = state;
  })

-- The recovery metadata of `Transaction::serialize`. A `bool` is one byte.
unfoldable pub phase_code : Phase → ℕ
phase_code Phase.negotiating = 0
phase_code Phase.oob_pending = 1
phase_code Phase.preparing = 2
phase_code Phase.prepared = 3
phase_code Phase.commit_pending = 4
phase_code Phase.committed = 5
phase_code Phase.bonded = 6
phase_code (Phase.aborted _) = 7
phase_code Phase.uncertain = 8

-- Code 7 is refused: an aborted transaction is not restored.
unfoldable pub decode_phase : ℕ → Result TransactionError Phase
decode_phase c =
    if c == 0
    then ok Phase.negotiating
    else if c == 1
    then ok Phase.oob_pending
    else if c == 2
    then ok Phase.preparing
    else if c == 3
    then ok Phase.prepared
    else if c == 4
    then ok Phase.commit_pending
    else if c == 5
    then ok Phase.committed
    else if c == 6
    then ok Phase.bonded
    else if c == 8
    then ok Phase.uncertain
    else err incompatible

abbrev role_code : Role → ℕ
role_code coordinator = 0
role_code participant = 1

unfoldable pub decode_role : ℕ → Result TransactionError Role
decode_role c =
    if c == 0 then ok coordinator else if c == 1 then ok participant else err incompatible

abbrev bool_byte : Bool → ℕ
bool_byte false = 0
bool_byte true = 1

unfoldable pub serialize : Transaction → List ℕ
serialize t =
    version ∷ role_code t.role ∷ phase_code t.phase ∷ t.id
    ++ (bool_byte t.capabilities.mine
        ∷ bool_byte t.capabilities.peer
        ∷ bool_byte t.confirmed.mine
        ∷ bool_byte t.confirmed.peer
        ∷ bool_byte t.prepared.mine
        ∷ bool_byte t.prepared.peer
        ∷ bool_byte t.committed.mine
        ∷ bool_byte t.committed.peer
        ∷ [])

-- The closure `flags` of `restore`.
unfoldable pub decode_flags : ℕ → ℕ → Result TransactionError Flags
decode_flags a b =
    if leb a 1 && leb b 1
    then ok (record { mine = not (a == 0); peer = not (b == 0) })
    else err incompatible

abbrev transaction_of : Role → Phase → List ℕ → Flags → Flags → Flags → Flags → Transaction
transaction_of role phase bytes capabilities confirmed prepared committed = record {
  id = take 16 (drop 3 bytes);
  role = role;
  phase = phase;
  capabilities = capabilities;
  confirmed = confirmed;
  prepared = prepared;
  committed = committed;
}

unfoldable pub restore : List ℕ → Result TransactionError Transaction
restore bytes = do
  refuse_if (not (length bytes == 27) || not (get_or bytes 0 0 == version)) incompatible
  role ← decode_role (get_or bytes 1 0)
  phase ← decode_phase (get_or bytes 2 0)
  capabilities ← decode_flags (get_or bytes 19 0) (get_or bytes 20 0)
  confirmed ← decode_flags (get_or bytes 21 0) (get_or bytes 22 0)
  prepared ← decode_flags (get_or bytes 23 0) (get_or bytes 24 0)
  committed ← decode_flags (get_or bytes 25 0) (get_or bytes 26 0)
  let transaction = transaction_of role phase bytes capabilities confirmed prepared committed
  validate transaction
  ok transaction
