-- ===== src/Presence/Challenge/Phone.antt =====
-- A challenge that the phone answers, from the daemon's frame to the daemon's outcome.
use desk_unlock.Prelude.{
  ◌≡◌, refl, true, false, arith, some, none, ok, err, ℕ, List, [], ◌∷◌, ◌++◌, String, length,
  Result, ◌>>=◌, length-append, Result-cases, inl, inr,
}
use desk_unlock.Auth.Frame.{Frame, encode, decode, body_bytes}
use desk_unlock.Auth.Frame.RoundTrip.{IsFrame, decode-encode}
use desk_unlock.Auth.Crypto.{Crypto, IsCrypto, sign_frame, verify_frame}
use desk_unlock.Auth.Crypto.Laws.{verify_tag-compute_tag, length-compute_tag}
use desk_unlock.Phone.Challenge.{
  MobileError, verify_challenge_frame, sign_challenge_response, build_response_frame, written,
  response_frame,
}
use desk_unlock.Presence.NonceCache.{contains}
use desk_unlock.Presence.Outcome.{PeripheralError, ChallengeOutcome}
use desk_unlock.Presence.Peers.{PeerEntry, get}
use desk_unlock.Presence.Challenge.{
  Attempt, Daemon, tagged, stamped, parse_signature, run_challenge, lookup_peer, challenged,
  issue_challenge,
}
use desk_unlock.Presence.Challenge.Security.{signed_body}

-- The phone checks the frame and signs it.
abbrev phone_answers : Crypto → List ℕ → List ℕ → List ℕ → Result MobileError (List ℕ)
phone_answers c bond_key seed bytes = do
  _ ← verify_challenge_frame c bond_key bytes
  sign_challenge_response c seed bytes

-- The phone's answer as the daemon receives it; a phone that refuses stays silent.
abbrev received : Result MobileError (List ℕ) → Result PeripheralError (List ℕ)
received (ok sig) = ok sig
received (err _) = err PeripheralError.response_timeout

-- An attempt that is admitted, with a link to a phone that answers.
abbrev pub with_phone : Crypto → List ℕ → List ℕ → ℕ → List ℕ → Attempt
with_phone c bond_key seed now nonce = record {
  admitted = true;
  now = now;
  random = some nonce;
  notify = λ _. none;
  respond = λ bytes. received (phone_answers c bond_key seed bytes);
}

module _ (c : Crypto) (laws : IsCrypto c) where
  tagged-IsFrame :
      (p : PeerEntry) (nonce : List ℕ)
      → length nonce ≡ 16
      → IsFrame (tagged c p nonce (signed_body nonce))
  tagged-IsFrame p nonce h =
      (refl, h, length-compute_tag c laws p.bond_key (signed_body nonce), omega arith)

  phone_answers-tagged :
      (p : PeerEntry) (nonce seed : List ℕ)
      → length nonce ≡ 16
      → length p.bond_key ≡ 32
      → length seed ≡ 32
      → phone_answers c p.bond_key seed (encode (tagged c p nonce (signed_body nonce)) []).0
        ≡ ok (c.sign seed (signed_body nonce))
  unfolding verify_challenge_frame sign_challenge_response sign_frame body_bytes
  phone_answers-tagged p nonce seed h k s =
      let f = tagged c p nonce (signed_body nonce) in
      let verified = (verify_tag-compute_tag c p.bond_key (signed_body nonce) f.tag).1 refl in
      rw (k, s, decode-encode f (tagged-IsFrame p nonce h), verified) refl

  run_challenge-phone :
      (p : PeerEntry) (nonce seed : List ℕ) (now : ℕ)
      → length nonce ≡ 16
      → length p.bond_key ≡ 32
      → length seed ≡ 32
      → contains p.nonce_cache nonce ≡ false
      → (run_challenge c (with_phone c p.bond_key seed now nonce) p (c.public_key seed) nonce).2
        ≡ ChallengeOutcome.accepted (c.sign seed (signed_body nonce))
  unfolding run_challenge body_bytes parse_signature verify_frame encode
  run_challenge-phone p nonce seed now h k s u =
      let sig = c.sign seed (signed_body nonce) in
      rw
        (
          phone_answers-tagged p nonce seed h k s,
          laws.length-sign seed (signed_body nonce),
          laws.sign-is_signature seed (signed_body nonce),
          laws.public_key-is_key seed,
          laws.verify_strict-sign seed (signed_body nonce),
          u,
        )
        refl

  lookup_peer_found :
      (d : Daemon) (id : String) (p : PeerEntry) (key : List ℕ)
      → get d.peers id ≡ some p
      → p.phone_pubkey ≡ some key
      → lookup_peer d id ≡ some (p, key)
  unfolding lookup_peer
  lookup_peer_found d id p key g k = ground arith

  -- A challenge reaches acceptance: for a registered peer whose phone holds the same 32-byte bond key
  -- and the seed of the registered public key, and a 16-byte nonce that the cache does not hold, the
  -- phone verifies the frame that it gets, and its signature is accepted.
  pub issue_challenge-phone :
      (d : Daemon) (id : String) (p : PeerEntry) (nonce seed : List ℕ) (now : ℕ)
      → get d.peers id ≡ some p
      → p.phone_pubkey ≡ some (c.public_key seed)
      → length nonce ≡ 16
      → length p.bond_key ≡ 32
      → length seed ≡ 32
      → contains p.nonce_cache nonce ≡ false
      → (issue_challenge c (with_phone c p.bond_key seed now nonce) d id).1
        ≡ ChallengeOutcome.accepted (c.sign seed (signed_body nonce))
  unfolding issue_challenge challenged
  issue_challenge-phone d id p nonce seed now g pk h k s u =
      rw (lookup_peer_found d id p (c.public_key seed) g pk, issue_challenge)
        (run_challenge-phone (stamped now p) nonce seed now h k s u)

  length-written :
      (f : Frame) {out : List ℕ}
      → length f.nonce ≡ 16
      → length f.payload ≡ 64
      → length f.tag ≡ 16
      → written (encode f []) ≡ ok out
      → length out ≡ 97
  unfolding encode
  length-written f {out} n p t e =
      ground (arith, length-append f.nonce (f.payload ++ f.tag), length-append f.payload f.tag)

  length-response :
      (bond_key challenge response_nonce : List ℕ) (signer : List ℕ → List ℕ) {out : List ℕ}
      → length response_nonce ≡ 16
      → build_response_frame c bond_key signer response_nonce challenge ≡ ok out
      → length out ≡ 97
  unfolding build_response_frame
  length-response bond_key challenge response_nonce signer {out} h e =
      elim (Result-cases (decode challenge)) [
        | inr (x, d) ↦ absurd (ground arith)
        | inl (frame, d) ↦ elim (Result-cases (body_bytes frame)) [
          | inr (x, b) ↦ absurd (ground arith)
          | inl (body, b) ↦
              let f = response_frame c bond_key response_nonce (signer body) in
              ground (
                arith,
                d,
                b,
                length-written f {out = out},
                length-compute_tag c laws bond_key (1 ∷ (response_nonce ++ signer body)),
              )
        ]
      ]

  -- The response frame that `build_response_frame` makes is not what the daemon takes for a response:
  -- its 97 bytes are refused as a bad signature, for any signer and keys.
  response_frame_refused :
      (att : Attempt) (p : PeerEntry) (key nonce bond_key challenge response_nonce : List ℕ)
      (signer : List ℕ → List ℕ) {out : List ℕ}
      → length response_nonce ≡ 16
      → build_response_frame c bond_key signer response_nonce challenge ≡ ok out
      → att.notify ≡ (λ _. none)
      → att.respond ≡ (λ _. ok out)
      → (run_challenge c att p key nonce).2 ≡ ChallengeOutcome.bad_signature
  unfolding run_challenge body_bytes encode parse_signature
  response_frame_refused att p key nonce bond_key challenge response_nonce signer {out} h e n r =
      rw (n, r, length-response bond_key challenge response_nonce signer {out = out} h e) refl
