-- ===== src/Engine/Framing/Laws.antt =====
-- Lemmas on how control writes are cut into frames in
-- crates/syauth-transport/src/pair_engine.rs.
use desk_unlock.Prelude.{
  ◌≡◌, ◌⊎◌, ◌+◌, ◌<◌, refl, ap, ◌∙◌, Bool, true, false, arith, ℕ, zero, suc, List, [], ◌∷◌, ◌++◌,
  length, take, drop, get_or, take-append, drop-append, length-append, ◌&&◌, get_or-append_right,
  get_or-append_left, get_or-take, length-take, ◌-◌, All, ◌==◌, Bool-cases, inl, inr,
}
use mathlib.Core.List.{append_assoc}
use desk_unlock.Pairing.Types.{Message, operation_code}
use desk_unlock.Pairing.Codec.{encode_message, decode_message, decode_status_message, decode_state}
use desk_unlock.Pairing.Codec.RoundTrip.{decode_message-encode_message}
use desk_unlock.Engine.Framing.{
  is_ok, holds_status, holds_message, frames_from, frame_control_payload,
}

-- A frame is a status message or a message.
abbrev pub IsFrame : List ℕ → Type 0
IsFrame f = (is_ok (decode_status_message f) ≡ true) ⊎ (is_ok (decode_message f) ≡ true)

holds_status_ok :
    (rest : List ℕ) → holds_status rest ≡ true → is_ok (decode_status_message (take 27 rest)) ≡ true
unfolding holds_status
holds_status_ok rest h = ground arith

holds_message_ok :
    (rest : List ℕ) → holds_message rest ≡ true → is_ok (decode_message (take 18 rest)) ≡ true
unfolding holds_message
holds_message_ok rest h = ground arith

frames_from-IsFrame : (fuel : ℕ) (rest : List ℕ) → All IsFrame (frames_from fuel rest)
unfolding frames_from
frames_from-IsFrame zero rest = tt
frames_from-IsFrame (suc fuel) [] = tt
frames_from-IsFrame (suc fuel) (b ∷ bs) =
    let rest : List ℕ = b ∷ bs in
    let after = λ (n : ℕ). frames_from-IsFrame fuel (drop n rest) in
    elim (Bool-cases (holds_status rest)) [
      | inl s ↦ rw s (inl (holds_status_ok rest s), after 27)
      | inr s ↦ rw s (elim (Bool-cases (holds_message rest)) [
        | inl m ↦ rw m (inr (holds_message_ok rest m), after 18)
        | inr m ↦ rw m (after 1)
      ])
    ]

-- Every frame of any payload decodes, as a status message or as a message.
frame_control_payload-IsFrame : (payload : List ℕ) → All IsFrame (frame_control_payload payload)
unfolding frame_control_payload
frame_control_payload-IsFrame payload = frames_from-IsFrame (length payload) payload

-- What decides whether a status message decodes.
pub decode_status_message_ok :
    (bs : List ℕ)
    → is_ok (decode_status_message bs) ≡ (
        (length bs == 27)
        && (get_or bs 0 0 == 2)
        && is_ok (decode_state (get_or bs 25 0) (get_or bs 26 0)))
unfolding decode_status_message
decode_status_message_ok bs = ground arith

-- Two bytes that read as the operation and the state of a status message.
abbrev pub reads_as_status : Message → Bool
reads_as_status m = is_ok (decode_state (get_or m.transaction 6 0) (get_or m.transaction 7 0))

pub length-encode_message :
    (m : Message) → length m.transaction ≡ 16 → length (encode_message m) ≡ 18
unfolding encode_message
length-encode_message m h =
    omega (arith, length-append m.transaction (operation_code m.operation ∷ []))

holds_message-encode_message :
    (m : Message) (rest : List ℕ)
    → length m.transaction ≡ 16
    → holds_message (encode_message m ++ rest) ≡ true
unfolding holds_message
holds_message-encode_message m rest h = ground (
  arith,
  take-append 18 (encode_message m) rest (length-encode_message m h),
  decode_message-encode_message m h,
  length-append (encode_message m) rest,
  length-encode_message m h,
)

-- A message alone is too short for a status message.
pub holds_status_last :
    (m : Message) → length m.transaction ≡ 16 → holds_status (encode_message m) ≡ false
unfolding holds_status
holds_status_last m h = ground (arith, length-encode_message m h)

encode_message_version : (m : Message) (rest : List ℕ) → get_or (encode_message m ++ rest) 0 0 ≡ 2
unfolding encode_message
encode_message_version m rest = refl

encode_message_byte :
    (m : Message) (rest : List ℕ) (i : ℕ)
    → i < length m.transaction
    → get_or (encode_message m ++ rest) (suc i) 0 ≡ get_or m.transaction i 0
unfolding encode_message
encode_message_byte m rest i h =
    ap (λ l. get_or l i 0) (append_assoc m.transaction (operation_code m.operation ∷ []) rest)
    ∙ get_or-append_left i m.transaction (operation_code m.operation ∷ [] ++ rest) 0 h

pub frames_from_nil : (fuel : ℕ) → frames_from fuel [] ≡ []
unfolding frames_from
frames_from_nil zero = refl
frames_from_nil (suc fuel) = refl

frames_from_message :
    (fuel : ℕ) (rest : List ℕ)
    → holds_status rest ≡ false
    → holds_message rest ≡ true
    → frames_from (suc fuel) rest ≡ take 18 rest ∷ frames_from fuel (drop 18 rest)
unfolding frames_from
frames_from_message fuel [] s m = cc
frames_from_message fuel (b ∷ bs) s m = rw (s, m)

abbrev pub first_length : List (List ℕ) → ℕ
first_length [] = 0
first_length (f ∷ fs) = length f

pub frames_from_status :
    (fuel : ℕ) (rest : List ℕ)
    → holds_status rest ≡ true
    → 0 < fuel
    → frames_from fuel rest ≡ take 27 rest ∷ frames_from (fuel - 1) (drop 27 rest)
unfolding frames_from
frames_from_status zero rest s p = absurd (omega arith)
frames_from_status (suc fuel) [] s p = cc
frames_from_status (suc fuel) (b ∷ bs) s p = let e : suc fuel - 1 ≡ fuel = omega arith in rw (s, e)

-- A message with another behind it reads as a status message if the other's identifier does.
pub holds_status_pair :
    (m k : Message) (rest : List ℕ)
    → length m.transaction ≡ 16
    → length k.transaction ≡ 16
    → holds_status (encode_message m ++ (encode_message k ++ rest)) ≡ reads_as_status k
unfolding holds_status
holds_status_pair m k rest h e =
    let tail : List ℕ = encode_message k ++ rest in
    let big : List ℕ = encode_message m ++ tail in
    let len : length big ≡ 18 + length tail =
      omega (arith, length-append (encode_message m) tail, length-encode_message m h) in
    let len' : length tail ≡ 18 + length rest =
      omega (arith, length-append (encode_message k) rest, length-encode_message k e) in
    ground (
      arith,
      len,
      len',
      decode_status_message_ok (take 27 big),
      length-take 27 big,
      get_or-take 27 0 big 0 (omega arith),
      get_or-take 27 25 big 0 (omega arith),
      get_or-take 27 26 big 0 (omega arith),
      encode_message_version m tail,
      get_or-append_right 18 7 (encode_message m) tail 0 (length-encode_message m h),
      get_or-append_right 18 8 (encode_message m) tail 0 (length-encode_message m h),
      encode_message_byte k rest 6 (omega arith),
      encode_message_byte k rest 7 (omega arith),
    )

-- A message that does not read as a status with what is behind it is the first frame.
pub frames_from-encode_message :
    (fuel : ℕ) (m : Message) (rest : List ℕ)
    → length m.transaction ≡ 16
    → holds_status (encode_message m ++ rest) ≡ false
    → frames_from (suc fuel) (encode_message m ++ rest) ≡ encode_message m ∷ frames_from fuel rest
frames_from-encode_message fuel m rest h s = ground (
  arith,
  frames_from_message fuel (encode_message m ++ rest) s (holds_message-encode_message m rest h),
  take-append 18 (encode_message m) rest (length-encode_message m h),
  drop-append 18 (encode_message m) rest (length-encode_message m h),
)
