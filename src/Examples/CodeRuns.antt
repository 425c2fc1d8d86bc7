-- ===== src/Examples/CodeRuns.antt =====
-- Confirmation codes and segments on concrete inputs.
use desk_unlock.Prelude.{
  ℕ, ◌≡◌, ◌≤◌, ◌%◌, refl, some, ok, List, [], ◌∷◌, ◌++◌, take, replicate, length, All,
  from_be_bytes,
}
use desk_unlock.Code.{Hkdf, padded}
use desk_unlock.Code.Desktop.{desktop_code}
use desk_unlock.Code.Phone.{phone_code}
use desk_unlock.Code.Agreement.{codes_agree}
use desk_unlock.Fragments.{reassemble, segments_from}

-- The first bytes of the key and the info string.
abbrev toy_hkdf : Hkdf
toy_hkdf key info n = some (take n (key ++ info))

abbrev key : List ℕ
key = replicate 32 1

abbrev shown : List ℕ
shown = b'1' ∷ b'6' ∷ b'8' ∷ b'4' ∷ b'3' ∷ b'0' ∷ b'0' ∷ b'9' ∷ []

code_of_ones : desktop_code toy_hkdf key ≡ shown
unfolding desktop_code padded from_be_bytes
code_of_ones = refl

codes_agree_example :
    (phone_code toy_hkdf key ≡ ok (desktop_code toy_hkdf key))
    × (length (desktop_code toy_hkdf key) ≡ 8)
    × All (λ c. (48 ≤ c) × (c ≤ 57)) (desktop_code toy_hkdf key)
    × (from_be_bytes (take 4 key) % 100000000 ≡ from_be_bytes (take 4 key) % 100000000)
codes_agree_example = codes_agree toy_hkdf key key (take 4 key) (take 4 key) refl refl refl refl

abbrev segments : List (List ℕ)
segments = (128 ∷ 7 ∷ 8 ∷ []) ∷ (0 ∷ 9 ∷ []) ∷ []

segments_joined : reassemble segments ≡ ok (7 ∷ 8 ∷ 9 ∷ [])
unfolding reassemble segments_from
segments_joined = refl
