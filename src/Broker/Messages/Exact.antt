-- ===== src/Broker/Messages/Exact.antt =====
-- What the decoders of crates/syauth-transport/src/pairing.rs take, and what they refuse.
use desk_unlock.Prelude.{
  ◌≡◌, arith, none, some, ℕ, List, [], ◌∷◌, take, drop, bytes_eq, bytes_eq→eq, from_be_bytes,
  AreBytes, AreBytes-take, AreBytes-drop, to_be_bytes-from_be_bytes, drop-field, length-field,
  length-drop, length-take, take-append-drop, Bool-cases, ◌⊎◌, inl, inr,
}
use desk_unlock.Broker.Messages.{
  PairingRequest, OobRequest, BondedNotice, encode_request, decode_request, encode_oob, decode_oob,
  encode_notice, decode_notice, pair_confirmation_magic, pair_oob_magic, pair_bonded_magic,
}

request_magic :
    (bytes : List ℕ)
    → (decode_request bytes ≡ none) ⊎ (take 4 bytes ≡ b'S' ∷ b'Y' ∷ b'P' ∷ b'C' ∷ [])
unfolding decode_request
request_magic bytes = elim (Bool-cases (bytes_eq (take 4 bytes) pair_confirmation_magic)) [
  | inl e ↦ inr (bytes_eq→eq (take 4 bytes) pair_confirmation_magic e)
  | inr e ↦ inl (ground arith)
]

oob_magic :
    (bytes : List ℕ) → (decode_oob bytes ≡ none) ⊎ (take 4 bytes ≡ b'S' ∷ b'Y' ∷ b'P' ∷ b'O' ∷ [])
unfolding decode_oob
oob_magic bytes = elim (Bool-cases (bytes_eq (take 4 bytes) pair_oob_magic)) [
  | inl e ↦ inr (bytes_eq→eq (take 4 bytes) pair_oob_magic e)
  | inr e ↦ inl (ground arith)
]

notice_magic :
    (bytes : List ℕ)
    → (decode_notice bytes ≡ none) ⊎ (take 4 bytes ≡ b'S' ∷ b'Y' ∷ b'P' ∷ b'N' ∷ [])
unfolding decode_notice
notice_magic bytes = elim (Bool-cases (bytes_eq (take 4 bytes) pair_bonded_magic)) [
  | inl e ↦ inr (bytes_eq→eq (take 4 bytes) pair_bonded_magic e)
  | inr e ↦ inl (ground arith)
]

-- No bytes are taken as messages of two kinds, whatever they are: an answer to the Bluetooth prompt
-- is never read as a decision on trust, nor a request as the notice that trust stands.
kinds_are_distinct :
    (bytes : List ℕ)
    → ((decode_oob bytes ≡ none) × (decode_notice bytes ≡ none))
      ⊎ ((decode_request bytes ≡ none) × (decode_notice bytes ≡ none))
      ⊎ ((decode_request bytes ≡ none) × (decode_oob bytes ≡ none))
kinds_are_distinct bytes = ground (arith, request_magic bytes, oob_magic bytes, notice_magic bytes)

encode_request-decode_request :
    (bytes : List ℕ) (r : PairingRequest)
    → AreBytes bytes
    → decode_request bytes ≡ some r
    → encode_request r ≡ some bytes
unfolding encode_request decode_request
encode_request-decode_request bytes r h e = ground (
  arith,
  bytes_eq→eq (take 4 bytes) (b'S' ∷ b'Y' ∷ b'P' ∷ b'C' ∷ []),
  take-append-drop 4 bytes,
  drop-field 4 8 12 bytes (omega arith),
  drop-field 12 4 16 bytes (omega arith),
  drop-field 16 2 18 bytes (omega arith),
  length-drop 18 bytes,
  to_be_bytes-from_be_bytes 8 (take 8 (drop 4 bytes)),
  to_be_bytes-from_be_bytes 4 (take 4 (drop 12 bytes)),
  to_be_bytes-from_be_bytes 2 (take 2 (drop 16 bytes)),
  length-field 4 8 bytes,
  length-field 12 4 bytes,
  length-field 16 2 bytes,
  AreBytes-take 8 (drop 4 bytes) (AreBytes-drop 4 bytes h),
  AreBytes-take 4 (drop 12 bytes) (AreBytes-drop 12 bytes h),
  AreBytes-take 2 (drop 16 bytes) (AreBytes-drop 16 bytes h),
)

encode_notice-decode_notice :
    (bytes : List ℕ) (r : BondedNotice)
    → AreBytes bytes
    → decode_notice bytes ≡ some r
    → encode_notice r ≡ some bytes
unfolding encode_notice decode_notice
encode_notice-decode_notice bytes r h e = ground (
  arith,
  bytes_eq→eq (take 4 bytes) (b'S' ∷ b'Y' ∷ b'P' ∷ b'N' ∷ []),
  take-append-drop 4 bytes,
  drop-field 4 2 6 bytes (omega arith),
  length-drop 6 bytes,
  to_be_bytes-from_be_bytes 2 (take 2 (drop 4 bytes)),
  length-field 4 2 bytes,
  AreBytes-take 2 (drop 4 bytes) (AreBytes-drop 4 bytes h),
)

encode_oob-decode_oob :
    (bytes : List ℕ) (r : OobRequest)
    → AreBytes bytes
    → decode_oob bytes ≡ some r
    → encode_oob r ≡ some bytes
unfolding encode_oob decode_oob
encode_oob-decode_oob bytes r h e =
    let n = from_be_bytes (take 2 (drop 12 bytes)) in
    ground (
      arith,
      bytes_eq→eq (take 4 bytes) (b'S' ∷ b'Y' ∷ b'P' ∷ b'O' ∷ []),
      take-append-drop 4 bytes,
      drop-field 4 8 12 bytes (omega arith),
      drop-field 12 2 14 bytes (omega arith),
      take-append-drop n (drop 14 bytes),
      take-append-drop 32 (drop n (drop 14 bytes)),
      length-drop 14 bytes,
      length-take n (drop 14 bytes),
      to_be_bytes-from_be_bytes 8 (take 8 (drop 4 bytes)),
      to_be_bytes-from_be_bytes 2 (take 2 (drop 12 bytes)),
      length-field 4 8 bytes,
      length-field 12 2 bytes,
      AreBytes-take 8 (drop 4 bytes) (AreBytes-drop 4 bytes h),
      AreBytes-take 2 (drop 12 bytes) (AreBytes-drop 12 bytes h),
    )

-- A byte string that a decoder takes is exactly the encoding of the message that it gives, for each
-- of the three kinds.
messages_are_exact :
    (a b c : List ℕ) (r : PairingRequest) (o : OobRequest) (n : BondedNotice)
    → AreBytes a
    → AreBytes b
    → AreBytes c
    → decode_request a ≡ some r
    → decode_oob b ≡ some o
    → decode_notice c ≡ some n
    → (encode_request r ≡ some a) × (encode_oob o ≡ some b) × (encode_notice n ≡ some c)
messages_are_exact a b c r o n ha hb hc ea eb ec = (
  encode_request-decode_request a r ha ea,
  encode_oob-decode_oob b o hb eb,
  encode_notice-decode_notice c n hc ec,
)
