-- ===== src/Code/Desktop.antt =====
-- `oob_code_for_bond` of crates/syauth-cli/src/oob.rs.
use desk_unlock.Prelude.{ℕ, ◌%◌, none, some, List, [], ◌∷◌, replicate, from_be_bytes}
use desk_unlock.Code.{Hkdf, padded}

-- `syauth-oob-v1`.
abbrev pub hkdf_info_oob_v1 : List ℕ
hkdf_info_oob_v1 =
    b's' ∷ b'y' ∷ b'a' ∷ b'u' ∷ b't' ∷ b'h' ∷ b'-' ∷ b'o' ∷ b'o' ∷ b'b' ∷ b'-' ∷ b'v' ∷ b'1' ∷ []

abbrev pub oob_code_digits : ℕ
oob_code_digits = 8

abbrev pub oob_code_space : ℕ
oob_code_space = 100000000

abbrev pub oob_hkdf_bytes : ℕ
oob_hkdf_bytes = 4

abbrev pub shown : List ℕ → List ℕ
shown out = padded oob_code_digits (from_be_bytes out % oob_code_space)

-- A refusal of the length leaves zeros.
unfoldable pub desktop_code : Hkdf → List ℕ → List ℕ
desktop_code hkdf bond_key = elim (hkdf bond_key hkdf_info_oob_v1 oob_hkdf_bytes) [
  | some out ↦ shown out
  | none ↦ shown (replicate oob_hkdf_bytes 0)
]
