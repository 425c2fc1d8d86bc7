-- ===== src/Phone/Challenge.antt =====
-- `verify_challenge_frame`, `sign_challenge_response` and `build_response_frame` of
-- crates/syauth-mobile/src/implementation.rs. The text that an error carries is left out. The foreign
-- signer and the random nonce are arguments.
use desk_unlock.Prelude.{
  ℕ, not, List, [], ◌∷◌, ◌++◌, ◌==◌, Result, ok, err, ◌>>=◌, ◌>>◌, refuse_if, length,
}
use desk_unlock.Auth.Frame.{Frame, FrameError, version_v1, encode, body_bytes, decode}
use desk_unlock.Auth.Crypto.{
  Crypto, bond_key_len, signature_len, compute_tag, verify_tag, sign_frame,
}

pub data MobileError : Type 0 where
  invalid_key bad_frame verify_failed sign_failed : MobileError

-- `map_err`.
abbrev pub or_error {ℓ κ} :
    {E : Type ℓ} {A : Type κ} → MobileError → Result E A → Result MobileError A
or_error x (ok a) = ok a
or_error x (err _) = err x

abbrev pub bond_key_array : List ℕ → Result MobileError (List ℕ)
bond_key_array key = do refuse_if (not (length key == bond_key_len)) MobileError.invalid_key; ok key

unfoldable pub verify_challenge_frame : Crypto → List ℕ → List ℕ → Result MobileError (List ℕ)
verify_challenge_frame c bond_key frame_bytes = do
  key ← bond_key_array bond_key
  frame ← or_error MobileError.bad_frame (decode frame_bytes)
  body ← or_error MobileError.bad_frame (body_bytes frame)
  refuse_if (not (verify_tag c key body frame.tag)) MobileError.verify_failed
  ok frame.payload

unfoldable pub sign_challenge_response : Crypto → List ℕ → List ℕ → Result MobileError (List ℕ)
sign_challenge_response c signing_key frame_bytes = do
  refuse_if (not (length signing_key == 32)) MobileError.invalid_key
  frame ← or_error MobileError.bad_frame (decode frame_bytes)
  or_error MobileError.sign_failed (sign_frame c signing_key frame)

-- The response frame around a signature.
abbrev pub response_frame : Crypto → List ℕ → List ℕ → List ℕ → Frame
response_frame c key nonce sig = record {
  version = version_v1;
  nonce = nonce;
  payload = sig;
  tag = compute_tag c key (version_v1 ∷ (nonce ++ sig));
}

abbrev pub written : List ℕ × Result FrameError (Unit {0}) → Result MobileError (List ℕ)
written (out, ok _) = ok out
written (out, err _) = err MobileError.sign_failed

unfoldable pub build_response_frame :
    Crypto → List ℕ → (List ℕ → List ℕ) → List ℕ → List ℕ → Result MobileError (List ℕ)
build_response_frame c bond_key signer response_nonce challenge_frame_bytes = do
  key ← bond_key_array bond_key
  challenge ← or_error MobileError.bad_frame (decode challenge_frame_bytes)
  unsigned_body ← or_error MobileError.bad_frame (body_bytes challenge)
  refuse_if (not (length (signer unsigned_body) == signature_len)) MobileError.sign_failed
  written (encode (response_frame c key response_nonce (signer unsigned_body)) [])
