-- ===== src/Broker/Messages.antt =====
-- `PairingRequest`, `OobRequest`, `BondedNotice` and the length prefix of
-- crates/syauth-transport/src/pairing.rs. A text is the list of its bytes.
pub mod RoundTrip
pub mod Exact
use desk_unlock.Prelude.{
  ℕ, ◌+◌, ◌*◌, Bool, not, ◌||◌, Option, none, some, List, [], ◌∷◌, ◌++◌, ◌==◌, ltb, if◌then◌else◌,
  length, take, drop, bytes_eq, to_be_bytes, from_be_bytes, is_utf8,
}

abbrev pub pair_confirmation_magic : List ℕ
pair_confirmation_magic = b'S' ∷ b'Y' ∷ b'P' ∷ b'C' ∷ []

abbrev pub pair_oob_magic : List ℕ
pair_oob_magic = b'S' ∷ b'Y' ∷ b'P' ∷ b'O' ∷ []

abbrev pub pair_bonded_magic : List ℕ
pair_bonded_magic = b'S' ∷ b'Y' ∷ b'P' ∷ b'N' ∷ []

abbrev pub max_peer_bytes : ℕ
max_peer_bytes = 256

abbrev pub max_frame_bytes : ℕ
max_frame_bytes = 4096

abbrev pub pair_pubkey_len : ℕ
pair_pubkey_len = 32

pub record PairingRequest : Type 0 where
  pub id : ℕ
  pub peer : List ℕ
  pub passkey : ℕ

pub record OobRequest : Type 0 where
  pub id : ℕ
  pub peer : List ℕ
  pub host_pubkey : List ℕ
  pub phone_pubkey : List ℕ

pub record BondedNotice : Type 0 where
  pub peer : List ℕ

-- `u16::try_from` and the bound on the peer.
abbrev pub too_long : List ℕ → Bool
too_long peer = ltb 65535 (length peer) || ltb max_peer_bytes (length peer)

unfoldable pub encode_request : PairingRequest → Option (List ℕ)
encode_request r =
    if too_long r.peer
    then none
    else some (
        pair_confirmation_magic
        ++ (to_be_bytes 8 r.id
            ++ (to_be_bytes 4 r.passkey ++ (to_be_bytes 2 (length r.peer) ++ r.peer))))

unfoldable pub decode_request : List ℕ → Option PairingRequest
decode_request bytes =
    let peer_len = from_be_bytes (take 2 (drop 16 bytes)) in
    if ltb (length bytes) 18 || not (bytes_eq (take 4 bytes) pair_confirmation_magic)
    then none
    else if ltb max_peer_bytes peer_len || not (length bytes == 18 + peer_len)
    then none
    else if is_utf8 (drop 18 bytes)
    then some (record {
      id = from_be_bytes (take 8 (drop 4 bytes));
      passkey = from_be_bytes (take 4 (drop 12 bytes));
      peer = drop 18 bytes;
    })
    else none

unfoldable pub encode_oob : OobRequest → Option (List ℕ)
encode_oob r =
    if too_long r.peer
    then none
    else some (
        pair_oob_magic
        ++ (to_be_bytes 8 r.id
            ++ (to_be_bytes 2 (length r.peer) ++ (r.peer ++ (r.host_pubkey ++ r.phone_pubkey)))))

unfoldable pub decode_oob : List ℕ → Option OobRequest
decode_oob bytes =
    let peer_len = from_be_bytes (take 2 (drop 12 bytes)) in
    let peer = take peer_len (drop 14 bytes) in
    let keys = drop peer_len (drop 14 bytes) in
    if ltb (length bytes) 14 || not (bytes_eq (take 4 bytes) pair_oob_magic)
    then none
    else if ltb max_peer_bytes peer_len || not (length bytes == 14 + peer_len + 2 * pair_pubkey_len)
    then none
    else if is_utf8 peer
    then some (record {
      id = from_be_bytes (take 8 (drop 4 bytes));
      peer = peer;
      host_pubkey = take pair_pubkey_len keys;
      phone_pubkey = drop pair_pubkey_len keys;
    })
    else none

unfoldable pub encode_notice : BondedNotice → Option (List ℕ)
encode_notice r =
    if too_long r.peer
    then none
    else some (pair_bonded_magic ++ (to_be_bytes 2 (length r.peer) ++ r.peer))

unfoldable pub decode_notice : List ℕ → Option BondedNotice
decode_notice bytes =
    let peer_len = from_be_bytes (take 2 (drop 4 bytes)) in
    if ltb (length bytes) 6 || not (bytes_eq (take 4 bytes) pair_bonded_magic)
    then none
    else if ltb max_peer_bytes peer_len || not (length bytes == 6 + peer_len)
    then none
    else if is_utf8 (drop 6 bytes)
    then some (record { peer = drop 6 bytes })
    else none

unfoldable pub frame : List ℕ → Option (List ℕ)
frame payload =
    if ltb max_frame_bytes (length payload)
    then none
    else some (to_be_bytes 4 (length payload) ++ payload)

-- `read_frame` on a stream that carries these bytes and then ends: the payload and the bytes left.
unfoldable pub read_frame : List ℕ → Option (List ℕ × List ℕ)
read_frame stream =
    let len = from_be_bytes (take 4 stream) in
    let rest = drop 4 stream in
    if ltb (length stream) 4
    then none
    else if ltb max_frame_bytes len
    then none
    else if ltb (length rest) len
    then none
    else some (take len rest, drop len rest)
