-- ===== src/Pairing/Codec/RoundTrip.antt =====
-- `encode` and `decode` of the pairing messages of crates/syauth-core, taken together.
use desk_unlock.Prelude.{
  ◌≡◌, refl, arith, ok, ℕ, List, [], ◌∷◌, ◌++◌, length, take, drop, get_or, take-append,
  get_or-append, length-append, drop-cons, drop-field, drop_all, length-field,
}
use desk_unlock.Pairing.Types.{Operation, operation_code, Message}
use desk_unlock.Pairing.Codec.{decode_operation, encode_message, decode_message}

decode_operation-code : (op : Operation) → decode_operation (operation_code op) ≡ ok op
unfolding decode_operation
decode_operation-code Operation.capability = refl
decode_operation-code _ = refl

-- A message with a 16-byte transaction is decoded from its encoding.
pub decode_message-encode_message :
    (m : Message) → length m.transaction ≡ 16 → decode_message (encode_message m) ≡ ok m
unfolding decode_message encode_message
decode_message-encode_message m h = ground (
  arith,
  decode_operation-code m.operation,
  length-append m.transaction (operation_code m.operation ∷ []),
  take-append 16 m.transaction (operation_code m.operation ∷ []) h,
  get_or-append 16 m.transaction (operation_code m.operation) [] 0 h,
)

operation_code-decode_operation :
    (b : ℕ) (op : Operation) → decode_operation b ≡ ok op → operation_code op ≡ b
unfolding decode_operation
operation_code-decode_operation b op h = ground arith

message_fields :
    (bs : List ℕ) → length bs ≡ 18 → bs ≡ get_or bs 0 0 ∷ take 16 (drop 1 bs) ++ get_or bs 17 0 ∷ []
message_fields bs h = ground (
  arith,
  drop-cons 0 bs 0 (omega arith),
  drop-field 1 16 17 bs (omega arith),
  drop-cons 17 bs 0 (omega arith),
  drop_all 18 bs (omega arith),
)

decode_message_fields :
    (bs : List ℕ) {m : Message}
    → decode_message bs ≡ ok m
    → (length bs ≡ 18)
      × (get_or bs 0 0 ≡ 2)
      × (decode_operation (get_or bs 17 0) ≡ ok m.operation)
      × (m.transaction ≡ take 16 (drop 1 bs))
unfolding decode_message
decode_message_fields bs h = ground arith

-- Bytes that decode are exactly the encoding of the message that they give, whose transaction has 16
-- bytes: no other bytes are taken for it.
encode_message-decode_message :
    (bs : List ℕ) {m : Message}
    → decode_message bs ≡ ok m
    → (encode_message m ≡ bs) × (length m.transaction ≡ 16)
unfolding encode_message
encode_message-decode_message bs {m} h =
    let (len, ver, op, tx) = decode_message_fields bs h in
    ground (
      arith,
      message_fields bs len,
      operation_code-decode_operation (get_or bs 17 0) m.operation op,
      length-field 1 16 bs (omega arith),
    )
