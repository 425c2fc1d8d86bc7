-- ===== src/Auth/Crypto/Laws.antt =====
-- Tags and signatures of frames that were made for them.
use desk_unlock.Prelude.{
  ◌≡◌, ◌↔◌, refl, true, arith, ok, ℕ, List, length, bytes_eq→eq, eq→bytes_eq, sym, length-take,
  Result-cases, inl, inr,
}
use desk_unlock.Auth.Frame.{Frame, body_bytes}
use desk_unlock.Auth.Crypto.{Crypto, IsCrypto, compute_tag, verify_tag, sign_frame, verify_frame}

module _ (c : Crypto) where
  -- A tag verifies exactly if it is the computed one.
  pub verify_tag-compute_tag :
      (key body tag : List ℕ) → (verify_tag c key body tag ≡ true) ↔ (tag ≡ compute_tag c key body)
  unfolding verify_tag
  verify_tag-compute_tag key body tag = (
    λ h. sym (bytes_eq→eq (compute_tag c key body) tag h),
    λ e. eq→bytes_eq (compute_tag c key body) tag (sym e),
  )

  pub length-compute_tag : IsCrypto c → (key body : List ℕ) → length (compute_tag c key body) ≡ 16
  unfolding compute_tag
  length-compute_tag laws key body =
      omega (arith, length-take 16 (c.keyed_hash key body), laws.length-keyed_hash key body)

  -- The signature that a frame gets verifies under the signer's public key.
  verify_frame-sign_frame :
      IsCrypto c
      → (seed : List ℕ) (f : Frame) {sig : List ℕ} → sign_frame c seed f ≡ ok sig
      → verify_frame c (c.public_key seed) f sig ≡ ok tt
  unfolding sign_frame verify_frame
  verify_frame-sign_frame laws seed f {sig} h = elim (Result-cases (body_bytes f)) [
    | inl (body, e) ↦
        rw (e, verify_frame)
          (let same : sig ≡ c.sign seed body = ground arith in
            rw (same, laws.verify_strict-sign seed body) refl)
    | inr (x, e) ↦ absurd (ground arith)
  ]
