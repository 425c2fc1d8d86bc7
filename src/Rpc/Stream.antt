-- ===== src/Rpc/Stream.antt =====
-- Values written to the socket of crates/syauth-presenced/src/rpc.rs and read from it.
use mathlib.Core.List.{append_assoc, append-nil}
use desk_unlock.Prelude.{
  ◌≡◌, ◌⊎◌, refl, ap, sym, ◌∙◌, ◌≤◌, ◌+◌, true, arith, some, ok, err, Result, ℕ, List, [], ◌∷◌,
  ◌++◌, length, take, drop, take-append, drop-append, length-append, length-drop,
  length-to_be_bytes, to_be_bytes, from_be_bytes, from_be_bytes-to_be_bytes, All,
}
use desk_unlock.Rpc.{
  Cbor, FrameError, encode_frame, decode_frame, read_payload, read_frame, write_frame,
}

-- A value that the library writes within the limit and reads back.
abbrev pub IsSound : {T : Type 0} → Cbor T → T → Type 0
IsSound c v =
    (bytes : List ℕ) × (c.write v ≡ some bytes) × (c.read bytes ≡ some v) × (length bytes ≤ 65536)

module _ {T : Type 0} (c : Cbor T) where
  encode_frame-IsSound :
      (v : T)
      → IsSound c v
      → (bytes : List ℕ) × (encode_frame c v ≡ ok (to_be_bytes 4 (length bytes) ++ bytes))
        × (c.read bytes ≡ some v)
        × (length bytes ≤ 65536)
  unfolding encode_frame
  encode_frame-IsSound v (bytes, w, r, n) = (bytes, ground arith, r, n)

  read_frame-append :
      (v : T) (bytes rest : List ℕ)
      → c.read bytes ≡ some v
      → length bytes ≤ 65536
      → read_frame c ((to_be_bytes 4 (length bytes) ++ bytes) ++ rest) ≡ (ok v, rest)
  unfolding read_frame read_payload decode_frame
  read_frame-append v bytes rest r n =
      let size = to_be_bytes 4 (length bytes) in
      ground (
        arith,
        append_assoc size bytes rest,
        length-append size (bytes ++ rest),
        length-append bytes rest,
        length-to_be_bytes 4 (length bytes),
        take-append 4 size (bytes ++ rest),
        drop-append 4 size (bytes ++ rest),
        take-append (length bytes) bytes rest,
        drop-append (length bytes) bytes rest,
        from_be_bytes-to_be_bytes 4 (length bytes) (omega arith),
      )

  -- A read takes at most a prefix and a payload of the greatest size off the stream, whatever the
  -- stream announces, and no more than the prefix if it announces a greater payload.
  pub read_frame_bounds :
      (stream : List ℕ)
      → let rest = (read_frame c stream).1 in
        (length stream ≤ length rest + 65540)
        × ((from_be_bytes (take 4 stream) ≤ 65536) ⊎ (length stream ≤ length rest + 4))
  unfolding read_frame read_payload
  read_frame_bounds stream =
      ground
        (arith, length-drop 4 stream, length-drop (from_be_bytes (take 4 stream)) (drop 4 stream))

  -- Values written one after the other to a socket that takes everything.
  unfoldable pub write_all : List T → List ℕ → Result FrameError (List ℕ)
  write_all [] written = ok written
  write_all (v ∷ vs) written = elim (write_frame c v (λ _. true) written) [
    | err e ↦ err e
    | ok written' ↦ write_all vs written'
  ]

  -- As many reads as there are values, each of which is what was written.
  abbrev pub ReadsBack : List T → List ℕ → List ℕ → Type 0
  ReadsBack [] stream rest = stream ≡ rest
  ReadsBack (v ∷ vs) stream rest =
      (left : List ℕ) × (read_frame c stream ≡ (ok v, left)) × ReadsBack vs left rest

  write_frame_sound :
      (v : T) (bytes written : List ℕ)
      → encode_frame c v ≡ ok (to_be_bytes 4 (length bytes) ++ bytes)
      → write_frame c v (λ _. true) written
        ≡ ok (written ++ (to_be_bytes 4 (length bytes) ++ bytes))
  unfolding write_frame
  write_frame_sound v bytes written e = rw (e, write_frame) refl

  -- Values that the CBOR library writes within 65536 bytes and reads back are read from the stream as
  -- they were written to it, in their order, and what follows them in the stream is left for the next
  -- read.
  pub write_all-ReadsBack :
      (vs : List T) (written rest : List ℕ)
      → All (IsSound c) vs
      → (sent : List ℕ) × (write_all vs written ≡ ok (written ++ sent))
        × ReadsBack vs (sent ++ rest) rest
  unfolding write_all
  write_all-ReadsBack [] written rest h = ([], ap ok (sym (append-nil written)), refl)
  write_all-ReadsBack (v ∷ vs) written rest h =
      let (bytes, e, r, n) = encode_frame-IsSound v h.0 in
      let first = to_be_bytes 4 (length bytes) ++ bytes in
      let (more, w, back) = write_all-ReadsBack vs (written ++ first) rest h.1 in
      let next = read_frame-append v bytes (more ++ rest) r n in
      (
        first ++ more,
        rw (write_frame_sound v bytes written e, write_all)
            (w ∙ ap ok (append_assoc written first more)),
        (more ++ rest, ap (read_frame c) (append_assoc first more rest) ∙ next, back),
      )
