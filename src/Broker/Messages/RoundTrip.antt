-- ===== src/Broker/Messages/RoundTrip.antt =====
-- The messages and frames of crates/syauth-transport/src/pairing.rs, written and read back.
use mathlib.Core.List.{append_assoc}
use desk_unlock.Prelude.{
  ◌≡◌, ap, sym, ◌∙◌, ◌≤◌, ◌<◌, ◌^◌, ◌+◌, true, arith, some, ℕ, List, [], ◌∷◌, ◌++◌, length, drop,
  bytes_eq, to_be_bytes, length-to_be_bytes, from_be_bytes-to_be_bytes, is_utf8, take-append,
  drop-append, drop-drop, length-append,
}
use desk_unlock.Broker.Messages.{
  PairingRequest, OobRequest, BondedNotice, encode_request, decode_request, encode_oob, decode_oob,
  encode_notice, decode_notice, frame, read_frame,
}

-- What stands behind a field of a known size.
drop-append_more {ℓ} :
    {A : Type ℓ} (n k : ℕ) (xs ys : List A) → length xs ≡ n → drop (n + k) (xs ++ ys) ≡ drop k ys
drop-append_more n k xs ys h = sym (drop-drop k n (xs ++ ys)) ∙ ap (drop k) (drop-append n xs ys h)

decode_request-encode_request :
    (r : PairingRequest)
    → length r.peer ≤ 256
    → r.id < 256 ^ 8
    → r.passkey < 256 ^ 4
    → is_utf8 r.peer ≡ true
    → (bytes : List ℕ) × (encode_request r ≡ some bytes) × (decode_request bytes ≡ some r)
unfolding encode_request decode_request bytes_eq
decode_request-encode_request r short i p u =
    let magic : List ℕ = b'S' ∷ b'Y' ∷ b'P' ∷ b'C' ∷ [] in
    let lens = to_be_bytes 2 (length r.peer) ++ r.peer in
    let passes = to_be_bytes 4 r.passkey ++ lens in
    let ids = to_be_bytes 8 r.id ++ passes in
    (
      magic ++ ids,
      ground arith,
      ground (
        arith,
        length-append (to_be_bytes 8 r.id) passes,
        length-append (to_be_bytes 4 r.passkey) lens,
        length-append (to_be_bytes 2 (length r.peer)) r.peer,
        length-to_be_bytes 8 r.id,
        length-to_be_bytes 4 r.passkey,
        length-to_be_bytes 2 (length r.peer),
        take-append 8 (to_be_bytes 8 r.id) passes,
        drop-append 8 (to_be_bytes 8 r.id) passes,
        take-append 4 (to_be_bytes 4 r.passkey) lens,
        drop-append_more 8 4 (to_be_bytes 8 r.id) passes,
        drop-append 4 (to_be_bytes 4 r.passkey) lens,
        drop-append_more 8 6 (to_be_bytes 8 r.id) passes,
        drop-append_more 4 2 (to_be_bytes 4 r.passkey) lens,
        take-append 2 (to_be_bytes 2 (length r.peer)) r.peer,
        drop-append 2 (to_be_bytes 2 (length r.peer)) r.peer,
        from_be_bytes-to_be_bytes 8 r.id i,
        from_be_bytes-to_be_bytes 4 r.passkey p,
        from_be_bytes-to_be_bytes 2 (length r.peer) (omega arith),
      ),
    )

decode_notice-encode_notice :
    (r : BondedNotice)
    → length r.peer ≤ 256
    → is_utf8 r.peer ≡ true
    → (bytes : List ℕ) × (encode_notice r ≡ some bytes) × (decode_notice bytes ≡ some r)
unfolding encode_notice decode_notice bytes_eq
decode_notice-encode_notice r short u =
    let magic : List ℕ = b'S' ∷ b'Y' ∷ b'P' ∷ b'N' ∷ [] in
    (
      magic ++ (to_be_bytes 2 (length r.peer) ++ r.peer),
      ground arith,
      ground (
        arith,
        length-append (to_be_bytes 2 (length r.peer)) r.peer,
        length-to_be_bytes 2 (length r.peer),
        take-append 2 (to_be_bytes 2 (length r.peer)) r.peer,
        drop-append 2 (to_be_bytes 2 (length r.peer)) r.peer,
        from_be_bytes-to_be_bytes 2 (length r.peer) (omega arith),
      ),
    )

decode_oob-encode_oob :
    (r : OobRequest)
    → length r.peer ≤ 256
    → r.id < 256 ^ 8
    → length r.host_pubkey ≡ 32
    → length r.phone_pubkey ≡ 32
    → is_utf8 r.peer ≡ true
    → (bytes : List ℕ) × (encode_oob r ≡ some bytes) × (decode_oob bytes ≡ some r)
unfolding encode_oob decode_oob bytes_eq
decode_oob-encode_oob r short i h p u =
    let magic : List ℕ = b'S' ∷ b'Y' ∷ b'P' ∷ b'O' ∷ [] in
    let keys = r.host_pubkey ++ r.phone_pubkey in
    let peers = r.peer ++ keys in
    let lens = to_be_bytes 2 (length r.peer) ++ peers in
    let ids = to_be_bytes 8 r.id ++ lens in
    (
      magic ++ ids,
      ground arith,
      ground (
        arith,
        length-append (to_be_bytes 8 r.id) lens,
        length-append (to_be_bytes 2 (length r.peer)) peers,
        length-append r.peer keys,
        length-append r.host_pubkey r.phone_pubkey,
        length-to_be_bytes 8 r.id,
        length-to_be_bytes 2 (length r.peer),
        take-append 8 (to_be_bytes 8 r.id) lens,
        drop-append 8 (to_be_bytes 8 r.id) lens,
        drop-append_more 8 2 (to_be_bytes 8 r.id) lens,
        take-append 2 (to_be_bytes 2 (length r.peer)) peers,
        drop-append 2 (to_be_bytes 2 (length r.peer)) peers,
        take-append (length r.peer) r.peer keys,
        drop-append (length r.peer) r.peer keys,
        take-append 32 r.host_pubkey r.phone_pubkey,
        drop-append 32 r.host_pubkey r.phone_pubkey,
        from_be_bytes-to_be_bytes 8 r.id i,
        from_be_bytes-to_be_bytes 2 (length r.peer) (omega arith),
      ),
    )

-- A payload that is framed is read back, and what follows it in the stream stays for the next read.
read_frame-frame :
    (payload rest : List ℕ)
    → length payload ≤ 4096
    → (bytes : List ℕ) × (frame payload ≡ some bytes)
      × (read_frame (bytes ++ rest) ≡ some (payload, rest))
unfolding frame read_frame
read_frame-frame payload rest short =
    let size = to_be_bytes 4 (length payload) in
    (
      size ++ payload,
      ground arith,
      ground (
        arith,
        append_assoc size payload rest,
        length-append size (payload ++ rest),
        length-append payload rest,
        length-to_be_bytes 4 (length payload),
        take-append 4 size (payload ++ rest),
        drop-append 4 size (payload ++ rest),
        take-append (length payload) payload rest,
        drop-append (length payload) payload rest,
        from_be_bytes-to_be_bytes 4 (length payload) (omega arith),
      ),
    )

abbrev pub FitsRequest : PairingRequest → Type 0
FitsRequest r =
    (length r.peer ≤ 256) × (r.id < 256 ^ 8) × (r.passkey < 256 ^ 4) × (is_utf8 r.peer ≡ true)

abbrev pub FitsOob : OobRequest → Type 0
FitsOob r =
    (length r.peer ≤ 256)
    × (r.id < 256 ^ 8)
    × (length r.host_pubkey ≡ 32)
    × (length r.phone_pubkey ≡ 32)
    × (is_utf8 r.peer ≡ true)

abbrev pub FitsNotice : BondedNotice → Type 0
FitsNotice r = (length r.peer ≤ 256) × (is_utf8 r.peer ≡ true)

-- A request to confirm a passkey, a request to confirm two keys and a notice of trust are each
-- decoded from their encoding, if the peer's text is valid and has at most 256 bytes, the numbers
-- fit their width and the keys have 32 bytes.
messages_round_trip :
    (r : PairingRequest) (o : OobRequest) (n : BondedNotice)
    → FitsRequest r
    → FitsOob o
    → FitsNotice n
    → ((bytes : List ℕ) × (encode_request r ≡ some bytes) × (decode_request bytes ≡ some r))
      × ((bytes : List ℕ) × (encode_oob o ≡ some bytes) × (decode_oob bytes ≡ some o))
      × ((bytes : List ℕ) × (encode_notice n ≡ some bytes) × (decode_notice bytes ≡ some n))
messages_round_trip r o n (l, i, p, u) (l', i', h, k, u') (l'', u'') = (
  decode_request-encode_request r l i p u,
  decode_oob-encode_oob o l' i' h k u',
  decode_notice-encode_notice n l'' u'',
)
