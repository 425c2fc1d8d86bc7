-- ===== src/Auth/Crypto.antt =====
-- crates/syauth-core/src/mac.rs and sign.rs over their two primitives, BLAKE3 in keyed mode and
-- Ed25519, which are the parameter `c`. Keys, tags, signatures and messages are byte strings.
pub mod Laws
use desk_unlock.Prelude.{
  ◌≡◌, ℕ, Bool, true, List, if◌then◌else◌, Result, ok, err, ◌>>=◌, length, take, bytes_eq,
}
use desk_unlock.Auth.Frame.{Frame, FrameError, tag_len, body_bytes}

-- What the program calls of blake3 and ed25519-dalek: the keyed hash, signing with a seed, the public
-- key of a seed, the checks of `VerifyingKey::from_bytes` and `Signature::from_slice`, and strict
-- verification.
pub record Crypto : Type 0 where
  pub keyed_hash : List ℕ → List ℕ → List ℕ
  pub sign : List ℕ → List ℕ → List ℕ
  pub public_key : List ℕ → List ℕ
  pub is_key : List ℕ → Bool
  pub is_signature : List ℕ → Bool
  pub verify_strict : List ℕ → List ℕ → List ℕ → Bool

-- Their documented behaviour: a hash has 32 bytes and a signature 64, and what a seed signs verifies
-- under its public key.
pub record IsCrypto (c : Crypto) : Type 0 where
  pub length-keyed_hash : (key message : List ℕ) → length (c.keyed_hash key message) ≡ 32
  pub length-sign : (seed message : List ℕ) → length (c.sign seed message) ≡ 64
  pub sign-is_signature : (seed message : List ℕ) → c.is_signature (c.sign seed message) ≡ true
  pub public_key-is_key : (seed : List ℕ) → c.is_key (c.public_key seed) ≡ true
  pub verify_strict-sign :
      (seed message : List ℕ)
      → c.verify_strict (c.public_key seed) message (c.sign seed message) ≡ true

abbrev pub bond_key_len : ℕ
bond_key_len = 32

abbrev pub signature_len : ℕ
signature_len = 64

unfoldable pub compute_tag : Crypto → List ℕ → List ℕ → List ℕ
compute_tag c bond_key frame_body = take tag_len (c.keyed_hash bond_key frame_body)

-- The comparison takes constant time in the source; its result is equality.
unfoldable pub verify_tag : Crypto → List ℕ → List ℕ → List ℕ → Bool
verify_tag c bond_key frame_body tag = bytes_eq (compute_tag c bond_key frame_body) tag

pub data VerifyError : Type 0 where
  signature : VerifyError
  bad_encoding : FrameError → VerifyError

unfoldable pub sign_frame : Crypto → List ℕ → Frame → Result FrameError (List ℕ)
sign_frame c privkey frame = do body ← body_bytes frame; ok (c.sign privkey body)

unfoldable pub verify_frame : Crypto → List ℕ → Frame → List ℕ → Result VerifyError (Unit {0})
verify_frame c pubkey frame sig = elim (body_bytes frame) [
  | err e ↦ err (bad_encoding e)
  | ok body ↦ if c.verify_strict pubkey body sig then ok tt else err signature
]
