-- ===== src/Pairing/Codec/StatusRoundTrip.antt =====
-- `encode` and `decode` of `StatusMessage` of crates/syauth-core, taken together.
use desk_unlock.Prelude.{
  ◌≡◌, ◌^◌, ◌<◌, ap, sym, ◌∙◌, arith, ok, ℕ, List, [], ◌∷◌, ◌++◌, length, take, drop, get_or,
  take-append, drop-append, length-append, drop-drop, get_or-drop, to_be_bytes, from_be_bytes,
  length-to_be_bytes, from_be_bytes-to_be_bytes, to_be_bytes-from_be_bytes, AreBytes, AreBytes-take,
  AreBytes-drop, Option, drop-cons, drop-field, drop_all, length-field,
}
use desk_unlock.Pairing.Types.{operation_code, StatusMessage, StatusState}
use desk_unlock.Pairing.Codec.{
  encode_status_message, decode_status_message, decode_state, decode_status, state_operation,
  state_byte,
}

decode_state-codes :
    (s : Option StatusState)
    → decode_state (operation_code (state_operation s)) (state_byte s) ≡ ok s
unfolding decode_state decode_status
decode_state-codes s = ground arith

-- A status message with a 16-byte transaction and a nonce below 2 ^ 64 is decoded from its encoding.
pub decode_status_message-encode_status_message :
    (m : StatusMessage)
    → length m.transaction ≡ 16
    → m.nonce < 256 ^ 8
    → decode_status_message (encode_status_message m) ≡ ok m
unfolding decode_status_message encode_status_message
decode_status_message-encode_status_message m h n =
    let tail : List ℕ = operation_code (state_operation m.state) ∷ state_byte m.state ∷ [] in
    let rest : List ℕ = to_be_bytes 8 m.nonce ++ tail in
    let len : length (to_be_bytes 8 m.nonce) ≡ 8 = length-to_be_bytes 8 m.nonce in
    let after : drop 16 (m.transaction ++ rest) ≡ rest = drop-append 16 m.transaction rest h in
    let last : drop 24 (m.transaction ++ rest) ≡ tail =
      sym (drop-drop 8 16 (m.transaction ++ rest))
      ∙ ap (drop 8) after
      ∙ drop-append 8 (to_be_bytes 8 m.nonce) tail len in
    ground (
      arith,
      decode_state-codes m.state,
      length-append m.transaction rest,
      length-append (to_be_bytes 8 m.nonce) tail,
      take-append 16 m.transaction rest h,
      take-append 8 (to_be_bytes 8 m.nonce) tail len,
      get_or-drop 24 (m.transaction ++ rest) 0,
      get_or-drop 25 (m.transaction ++ rest) 0,
      from_be_bytes-to_be_bytes 8 m.nonce n,
    )

state_byte-decode_state :
    (a b : ℕ) (s : Option StatusState)
    → decode_state a b ≡ ok s
    → (operation_code (state_operation s) ≡ a) × (state_byte s ≡ b)
unfolding decode_state decode_status
state_byte-decode_state a b s h = ground arith

status_fields :
    (bs : List ℕ)
    → length bs ≡ 27
    → bs
      ≡ get_or bs 0 0 ∷ take 16 (drop 1 bs)
        ++ (take 8 (drop 17 bs) ++ get_or bs 25 0 ∷ get_or bs 26 0 ∷ [])
status_fields bs h = ground (
  arith,
  drop-cons 0 bs 0 (omega arith),
  drop-field 1 16 17 bs (omega arith),
  drop-field 17 8 25 bs (omega arith),
  drop-cons 25 bs 0 (omega arith),
  drop-cons 26 bs 0 (omega arith),
  drop_all 27 bs (omega arith),
)

decode_status_message_fields :
    (bs : List ℕ) {m : StatusMessage}
    → decode_status_message bs ≡ ok m
    → (length bs ≡ 27)
      × (get_or bs 0 0 ≡ 2)
      × (decode_state (get_or bs 25 0) (get_or bs 26 0) ≡ ok m.state)
      × (m.transaction ≡ take 16 (drop 1 bs))
      × (m.nonce ≡ from_be_bytes (take 8 (drop 17 bs)))
unfolding decode_status_message
decode_status_message_fields bs h = ground arith

-- Bytes that decode are exactly the encoding of the status message that they give.
encode_status_message-decode_status_message :
    (bs : List ℕ) {m : StatusMessage}
    → AreBytes bs
    → decode_status_message bs ≡ ok m
    → encode_status_message m ≡ bs
unfolding encode_status_message
encode_status_message-decode_status_message bs {m} by h =
    let (len, ver, st, tx, nn) = decode_status_message_fields bs h in
    let (op, val) = state_byte-decode_state (get_or bs 25 0) (get_or bs 26 0) m.state st in
    ground (
      arith,
      status_fields bs len,
      op,
      val,
      to_be_bytes-from_be_bytes 8 (take 8 (drop 17 bs)) (length-field 17 8 bs (omega arith))
          (AreBytes-take 8 (drop 17 bs) (AreBytes-drop 17 bs by)),
    )
