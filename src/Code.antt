-- ===== src/Code.antt =====
-- The number that the operator compares on the two screens. What both files of the program take from
-- the language is here; `Desktop` and `Phone` are the two derivations, each with its own constants. A text
-- is its ASCII codes.
pub mod Desktop
pub mod Phone
pub mod Agreement
use desk_unlock.Prelude.{ℕ, zero, suc, ◌+◌, ◌/◌, ◌%◌, Option, List, [], ◌∷◌, ◌++◌}

-- HKDF over SHA-256 without a salt: the bytes for a key, an info string and a length, or none if it
-- refuses the length.
abbrev pub Hkdf : Type 0
Hkdf = List ℕ → List ℕ → ℕ → Option (List ℕ)

-- `{:0width$}` of a number that has no more digits than the width.
unfoldable pub padded : ℕ → ℕ → List ℕ
padded zero n = []
padded (suc width) n = padded width (n / 10) ++ (b'0' + n % 10) ∷ []
