-- ===== src/Engine/Framing.antt =====
-- `frame_control_payload` of crates/syauth-transport/src/pair_engine.rs: the frames that a control
-- write holds. A suffix of the payload stands for `offset`; the fuel is the payload's length, and
-- each round of the loop moves on by a byte at least.
pub mod Laws
pub mod Coalesce
pub mod Termination
use desk_unlock.Prelude.{
  ℕ, zero, suc, Bool, true, false, ◌&&◌, List, [], ◌∷◌, leb, if◌then◌else◌, Result, ok, err, length,
  take, drop,
}
use desk_unlock.Pairing.Types.{message_len, status_message_len}
use desk_unlock.Pairing.Codec.{decode_message, decode_status_message}

abbrev pub is_ok {ℓ κ} : {E : Type ℓ} {A : Type κ} → Result E A → Bool
is_ok (ok a) = true
is_ok (err e) = false

pub holds_status : List ℕ → Bool
holds_status rest =
    leb status_message_len (length rest)
    && is_ok (decode_status_message (take status_message_len rest))

pub holds_message : List ℕ → Bool
holds_message rest = leb message_len (length rest) && is_ok (decode_message (take message_len rest))

-- The loop; its result holds the frames handed to `accept`, in order.
unfoldable pub frames_from : ℕ → List ℕ → List (List ℕ)
unfolding holds_status holds_message
frames_from zero rest = []
frames_from (suc fuel) [] = []
frames_from (suc fuel) (b ∷ bs) =
    let rest = b ∷ bs in
    let status = take status_message_len rest ∷ frames_from fuel (drop status_message_len rest) in
    let message = take message_len rest ∷ frames_from fuel (drop message_len rest) in
    let skip = frames_from fuel bs in
    if holds_status rest then status else if holds_message rest then message else skip

unfoldable pub frame_control_payload : List ℕ → List (List ℕ)
unfolding frames_from
frame_control_payload payload = frames_from (length payload) payload
