-- ===== src/Engine/Framing/Coalesce.antt =====
-- Several messages in one control write.
use desk_unlock.Prelude.{
  ◌≡◌, ◌≢◌, ◌≤◌, ap, sym, ◌∙◌, true, false, arith, ℕ, zero, suc, List, [], ◌∷◌, ◌++◌, length,
  length-append, length-take, All,
}
use mathlib.Core.List.{append-nil}
use desk_unlock.Pairing.Types.{Message}
use desk_unlock.Pairing.Codec.{encode_message}
use desk_unlock.Engine.Framing.{holds_status, frames_from, frame_control_payload}
use desk_unlock.Engine.Framing.Laws.{
  reads_as_status, length-encode_message, holds_status_last, frames_from_nil,
  frames_from-encode_message, holds_status_pair, frames_from_status, first_length,
}

-- The payload of messages written one after the other.
abbrev pub coalesce : List Message → List ℕ
coalesce [] = []
coalesce (m ∷ ms) = encode_message m ++ coalesce ms

abbrev pub encodings : List Message → List (List ℕ)
encodings [] = []
encodings (m ∷ ms) = encode_message m ∷ encodings ms

-- A message with a 16-byte identifier that does not read as a status.
abbrev IsPlain : Message → Type 0
IsPlain m = (length m.transaction ≡ 16) × (reads_as_status m ≡ false)

holds_status-coalesce :
    (m : Message) (ms : List Message)
    → IsPlain m
    → All IsPlain ms
    → holds_status (encode_message m ++ coalesce ms) ≡ false
holds_status-coalesce m [] h hs =
    ap holds_status (append-nil (encode_message m)) ∙ holds_status_last m h.0
holds_status-coalesce m (k ∷ ms) h hs = holds_status_pair m k (coalesce ms) h.0 hs.0.0 ∙ hs.0.1

frames_from-coalesce :
    (fuel : ℕ) (ms : List Message)
    → length ms ≤ fuel
    → All IsPlain ms
    → frames_from fuel (coalesce ms) ≡ encodings ms
frames_from-coalesce zero [] n h = frames_from_nil 0
frames_from-coalesce zero (m ∷ ms) n h = absurd (omega arith)
frames_from-coalesce (suc fuel) [] n h = frames_from_nil (suc fuel)
frames_from-coalesce (suc fuel) (m ∷ ms) n h =
    frames_from-encode_message fuel m (coalesce ms) h.0.0 (holds_status-coalesce m ms h.0 h.1)
    ∙ ap (◌∷◌ (encode_message m)) (frames_from-coalesce fuel ms (omega arith) h.1)

length-coalesce : (ms : List Message) → All IsPlain ms → length ms ≤ length (coalesce ms)
length-coalesce [] h = omega arith
length-coalesce (m ∷ ms) h = omega (
  arith,
  length-coalesce ms h.1,
  length-append (encode_message m) (coalesce ms),
  length-encode_message m h.0.0,
)

-- Messages that one write carries are told apart, if no identifier reads as a status at its bytes 6
-- and 7.
pub frame_control_payload-coalesce :
    (ms : List Message) → All IsPlain ms → frame_control_payload (coalesce ms) ≡ encodings ms
unfolding frame_control_payload
frame_control_payload-coalesce ms h =
    frames_from-coalesce (length (coalesce ms)) ms (length-coalesce ms h) h

-- If the second identifier does, two messages in one write are never taken as those two.
pub frame_control_payload_misread :
    (m k : Message)
    → length m.transaction ≡ 16
    → length k.transaction ≡ 16
    → reads_as_status k ≡ true
    → frame_control_payload (coalesce (m ∷ k ∷ [])) ≢ encodings (m ∷ k ∷ [])
unfolding frame_control_payload
frame_control_payload_misread m k h e r bad =
    let rest : List ℕ = encode_message m ++ (encode_message k ++ []) in
    let len : length rest ≡ 36 = omega (
      arith,
      length-append (encode_message m) (encode_message k ++ []),
      length-append (encode_message k) [],
      length-encode_message m h,
      length-encode_message k e,
    ) in
    let first =
      frames_from_status (length rest) rest (holds_status_pair m k [] h e ∙ r) (omega arith) in
    omega (
      arith,
      len,
      length-take 27 rest,
      length-encode_message m h,
      ap (first_length) (sym first ∙ bad),
    )
