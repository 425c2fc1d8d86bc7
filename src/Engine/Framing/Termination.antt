-- ===== src/Engine/Framing/Termination.antt =====
-- That the loop of `frame_control_payload` in crates/syauth-transport/src/pair_engine.rs ends by itself.
use desk_unlock.Prelude.{
  ℕ, zero, suc, ◌+◌, ◌≡◌, ◌≤◌, refl, ap, arith, Bool, true, false, List, [], ◌∷◌, length, take,
  drop, length-drop, if◌then◌else◌,
}
use desk_unlock.Pairing.Types.{message_len, status_message_len}
use desk_unlock.Engine.Framing.{holds_status, holds_message, frames_from, frame_control_payload}

choose :
    {A : Type 0} (s m : Bool) {a a' b b' c c' : A}
    → a ≡ a'
    → b ≡ b'
    → c ≡ c'
    → (if s then a else if m then b else c) ≡ (if s then a' else if m then b' else c')
choose s m e f g = cc

frames_from-enough :
    (n m : ℕ) (rest : List ℕ)
    → length rest ≤ n
    → length rest ≤ m
    → frames_from n rest ≡ frames_from m rest
unfolding frames_from
frames_from-enough zero zero rest h k = refl
frames_from-enough zero (suc m) [] h k = refl
frames_from-enough zero (suc m) (b ∷ bs) h k = ground arith
frames_from-enough (suc n) zero [] h k = refl
frames_from-enough (suc n) zero (b ∷ bs) h k = ground arith
frames_from-enough (suc n) (suc m) [] h k = refl
frames_from-enough (suc n) (suc m) (b ∷ bs) h k =
    let rest : List ℕ = b ∷ bs in
    let status = length-drop status_message_len rest in
    let message = length-drop message_len rest in
    choose (holds_status rest) (holds_message rest)
      (ap (◌∷◌ (take status_message_len rest)) (
        frames_from-enough n m (drop status_message_len rest) (omega (arith, status))
          (omega (arith, status))))
      (ap (◌∷◌ (take message_len rest)) (
        frames_from-enough n m (drop message_len rest) (omega (arith, message))
          (omega (arith, message))))
      (frames_from-enough n m bs (omega arith) (omega arith))

-- The number of bytes in the frames.
abbrev pub total : List (List ℕ) → ℕ
total [] = 0
total (f ∷ fs) = length f + total fs

take_and_drop : (n : ℕ) (xs : List ℕ) → length (take n xs) + length (drop n xs) ≡ length xs
take_and_drop zero xs = omega arith
take_and_drop (suc n) [] = omega arith
take_and_drop (suc n) (x ∷ xs) = omega (arith, take_and_drop n xs)

total_of_choice :
    (s m : Bool) (n : ℕ) (a b c : List (List ℕ))
    → total a ≤ n
    → total b ≤ n
    → total c ≤ n
    → total (if s then a else if m then b else c) ≤ n
total_of_choice true m n a b c h k l = h
total_of_choice false true n a b c h k l = k
total_of_choice false false n a b c h k l = l

take-total :
    (n : ℕ) (rest : List ℕ) (fs : List (List ℕ))
    → total fs ≤ length (drop n rest)
    → total (take n rest ∷ fs) ≤ length rest
take-total n rest fs h =
    let split : length (take n rest) + length (drop n rest) ≡ length rest = take_and_drop n rest in
    omega (arith, split)

frames_from-total : (n : ℕ) (rest : List ℕ) → total (frames_from n rest) ≤ length rest
unfolding frames_from
frames_from-total zero rest = omega arith
frames_from-total (suc n) [] = omega arith
frames_from-total (suc n) (b ∷ bs) =
    let rest : List ℕ = b ∷ bs in
    let after = λ (k : ℕ). frames_from-total n (drop k rest) in
    total_of_choice (holds_status rest) (holds_message rest) _ _ _ _
      (take-total 27 rest (frames_from n (drop 27 rest)) (after 27))
      (take-total 18 rest (frames_from n (drop 18 rest)) (after 18)) (omega (arith, after 1))

-- The loop over a control write comes to the end of the payload by itself: given more rounds than the
-- payload has bytes it finds the same frames, and those have no more bytes than the payload.
pub frame_control_payload_ends :
    (fuel : ℕ) (payload : List ℕ)
    → length payload ≤ fuel
    → (frames_from fuel payload ≡ frame_control_payload payload)
      × (total (frame_control_payload payload) ≤ length payload)
unfolding frame_control_payload
frame_control_payload_ends fuel payload h = (
  frames_from-enough fuel (length payload) payload h (omega arith),
  frames_from-total (length payload) payload,
)
