-- ===== src/Code/Phone.antt =====
-- `oob_code_for_bond` of crates/syauth-mobile/src/implementation.rs.
use desk_unlock.Prelude.{ℕ, ◌%◌, none, some, List, [], ◌∷◌, Result, ok, err, from_be_bytes}
use desk_unlock.Phone.Challenge.{MobileError, bond_key_array}
use desk_unlock.Code.{Hkdf, padded}

-- `syauth-oob-v1`.
abbrev pub hkdf_info_oob_v1 : List ℕ
hkdf_info_oob_v1 =
    b's' ∷ b'y' ∷ b'a' ∷ b'u' ∷ b't' ∷ b'h' ∷ b'-' ∷ b'o' ∷ b'o' ∷ b'b' ∷ b'-' ∷ b'v' ∷ b'1' ∷ []

abbrev pub oob_code_digits : ℕ
oob_code_digits = 8

abbrev pub oob_code_space : ℕ
oob_code_space = 100000000

abbrev pub oob_code_bytes : ℕ
oob_code_bytes = 4

unfoldable pub phone_code : Hkdf → List ℕ → Result MobileError (List ℕ)
phone_code hkdf bond_key = elim (bond_key_array bond_key) [
  | err e ↦ err e
  | ok key ↦ elim (hkdf key hkdf_info_oob_v1 oob_code_bytes) [
    | some out ↦ ok (padded oob_code_digits (from_be_bytes out % oob_code_space))
    | none ↦ err MobileError.invalid_key
  ]
]
