-- ===== src/Rpc.antt =====
-- The length-prefixed frames of crates/syauth-presenced/src/rpc.rs, which the daemon and the PAM module
-- exchange on the socket. The CBOR library is a parameter, as a writer and a reader of one type. A
-- reader is the bytes that it still has, after which it ends; a write succeeds or is an I/O error.
pub mod Stream
use desk_unlock.Prelude.{
  ℕ, Bool, Option, none, some, List, [], ◌∷◌, ◌++◌, ltb, if◌then◌else◌, Result, ok, err, length,
  take, drop, min, to_be_bytes, from_be_bytes, ◌-◌, ◌^◌,
}

abbrev pub max_frame_len : ℕ
max_frame_len = 65536

abbrev pub length_prefix_bytes : ℕ
length_prefix_bytes = 4

pub data FrameError : Type 0 where
  io decode encode : FrameError
  too_large : ℕ → FrameError

-- `ciborium::ser::into_writer` and `ciborium::de::from_reader` at one type.
pub record Cbor (T : Type 0) : Type 0 where
  pub write : T → Option (List ℕ)
  pub read : List ℕ → Option T

-- `u32::try_from(len).unwrap_or(u32::MAX)`.
abbrev pub clamped : ℕ → ℕ
clamped len = min len (2 ^ 32 - 1)

module _ {T : Type 0} (c : Cbor T) where
  unfoldable pub encode_frame : T → Result FrameError (List ℕ)
  encode_frame value = elim (c.write value) [
    | none ↦ err FrameError.encode
    | some payload ↦
        if ltb max_frame_len (length payload)
        then err (FrameError.too_large (clamped (length payload)))
        else ok (to_be_bytes 4 (length payload) ++ payload)
  ]

  unfoldable pub decode_frame : List ℕ → Result FrameError T
  decode_frame bytes =
      if ltb max_frame_len (length bytes)
      then err (FrameError.too_large (clamped (length bytes)))
      else elim (c.read bytes) [ none ↦ err FrameError.decode | some value ↦ ok value ]

  -- The payload is read after its announced length was checked. A read that finds too few bytes has
  -- used them up.
  unfoldable pub read_payload : ℕ → List ℕ → Result FrameError T × List ℕ
  read_payload len stream =
      if ltb max_frame_len len
      then (err (FrameError.too_large len), stream)
      else if ltb (length stream) len
      then (err FrameError.io, [])
      else (decode_frame (take len stream), drop len stream)

  unfoldable pub read_frame : List ℕ → Result FrameError T × List ℕ
  read_frame stream =
      if ltb (length stream) length_prefix_bytes
      then (err FrameError.io, [])
      else read_payload (from_be_bytes (take length_prefix_bytes stream))
          (drop length_prefix_bytes stream)

  -- What a writer has been given after a write, if it takes all of it.
  unfoldable pub write_frame : T → (List ℕ → Bool) → List ℕ → Result FrameError (List ℕ)
  write_frame value takes written = elim (encode_frame value) [
    | err e ↦ err e
    | ok framed ↦ if takes framed then ok (written ++ framed) else err FrameError.io
  ]
