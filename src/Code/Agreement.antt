-- ===== src/Code/Agreement.antt =====
-- That crates/syauth-cli/src/oob.rs and crates/syauth-mobile/src/implementation.rs show the same number.
use desk_unlock.Prelude.{
  ℕ, ◌≡◌, ◌≤◌, ◌%◌, refl, sym, ◌∙◌, arith, some, ok, List, length, All, from_be_bytes,
}
use desk_unlock.Code.{Hkdf, padded}
use desk_unlock.Code.Desktop.{desktop_code, shown, hkdf_info_oob_v1, oob_code_space}
use desk_unlock.Code.Phone.{phone_code}

padded-same : (n m : ℕ) → n ≤ 99999999 → m ≤ 99999999 → padded 8 n ≡ padded 8 m → n ≡ m
unfolding padded
padded-same n m a b h = ground arith

padded-digits : (n : ℕ) → (length (padded 8 n) ≡ 8) × All (λ c. (48 ≤ c) × (c ≤ 57)) (padded 8 n)
unfolding padded
padded-digits n = ground arith

-- If HKDF answers for two keys with the desktop's info string and a length of four bytes, the desktop and
-- the phone show the same code for the first, where that has 32 bytes, although each has its own info
-- string, length, width and modulus; the code has eight decimal digits; and if the desktop shows the
-- same code for both keys, the numbers that HKDF gives for them agree in their last eight digits.
pub codes_agree :
    (hkdf : Hkdf) (key other out out' : List ℕ)
    → length key ≡ 32
    → hkdf key hkdf_info_oob_v1 4 ≡ some out
    → hkdf other hkdf_info_oob_v1 4 ≡ some out'
    → desktop_code hkdf key ≡ desktop_code hkdf other
    → (phone_code hkdf key ≡ ok (desktop_code hkdf key))
      × (length (desktop_code hkdf key) ≡ 8)
      × All (λ c. (48 ≤ c) × (c ≤ 57)) (desktop_code hkdf key)
      × (from_be_bytes out % 100000000 ≡ from_be_bytes out' % 100000000)
unfolding desktop_code phone_code
codes_agree hkdf key other out out' n e e' same =
    let mine : desktop_code hkdf key ≡ shown out = rw (e, desktop_code) refl in
    let theirs : desktop_code hkdf other ≡ shown out' = rw (e', desktop_code) refl in
    let number = from_be_bytes out % oob_code_space in
    let number' = from_be_bytes out' % oob_code_space in
    rw mine (
      ground (arith, e),
      (padded-digits number).0,
      (padded-digits number).1,
      padded-same number number' (omega arith) (omega arith) (sym mine ∙ same ∙ theirs),
    )
