-- ===== src/Pam/Unlock.antt =====
-- An unlock from the bond store to the code that the PAM stack gets, with the daemon's challenge in
-- between.
use desk_unlock.Prelude.{
  ◌≡◌, refl, ap, sym, ◌∙◌, true, false, arith, some, ok, err, ℕ, Bool, List, String, length, Option,
  Result, Result-cases, if◌then◌else◌, inl, inr,
}
use desk_unlock.Auth.Crypto.{Crypto, IsCrypto}
use desk_unlock.Bonds.Store.{BondError, BondStore}
use desk_unlock.Presence.NonceCache.{contains}
use desk_unlock.Presence.NonceCache.Window.{contains-insert}
use desk_unlock.Presence.Outcome.{ChallengeOutcome, reason_str, reason_transport_error}
use desk_unlock.Presence.Peers.{PeerEntry, get}
use desk_unlock.Presence.Challenge.{Attempt, Daemon, issue_challenge}
use desk_unlock.Presence.Challenge.Security.{Established, issue_challenge-accepted}
use desk_unlock.Presence.Challenge.Replay.{accepted-insert}
use desk_unlock.Presence.Challenge.Phone.{with_phone, issue_challenge-phone}
use desk_unlock.Pam.Auth.{
  AuthOutcome, to_pam_code, outcome_reason_to_pam, resolve_peer_id, Response, reply, answered,
  authenticate_inner, pam_success, pam_auth_err, pam_authinfo_unavail,
}

-- The code for an outcome of a challenge: success for an accepted one alone, a failure for a denial,
-- a replay or a bad signature, and otherwise that no answer was to be had.
abbrev pub code_for : ChallengeOutcome → ℕ
code_for (ChallengeOutcome.accepted _) = pam_success
code_for ChallengeOutcome.denied = pam_auth_err
code_for ChallengeOutcome.replay = pam_auth_err
code_for ChallengeOutcome.bad_signature = pam_auth_err
code_for _ = pam_authinfo_unavail

-- The reply to a challenge is mapped by its outcome: 0 for an accepted challenge and no other, 7 for a
-- denial, a replay and a bad signature, 9 for all else.
to_pam_code-reply :
    (id : String) (outcome : ChallengeOutcome)
    → to_pam_code (answered id (ok (reply outcome))) ≡ code_for outcome
unfolding to_pam_code answered reply outcome_reason_to_pam reason_str
to_pam_code-reply id (ChallengeOutcome.accepted sig) = refl
to_pam_code-reply id ChallengeOutcome.denied = refl
to_pam_code-reply id ChallengeOutcome.replay = refl
to_pam_code-reply id ChallengeOutcome.bad_signature = refl
to_pam_code-reply id ChallengeOutcome.timed_out = refl
to_pam_code-reply id ChallengeOutcome.no_such_peer = refl
to_pam_code-reply id ChallengeOutcome.busy = refl
to_pam_code-reply id (ChallengeOutcome.transport_error e) = refl

-- The round trip to a daemon that answers.
abbrev with_daemon : Crypto → Attempt → Daemon → String → Result (Unit {0}) Response
with_daemon c att d id = ok (reply (issue_challenge c att d id).1)

-- The code of an unlock.
abbrev pub unlock : Crypto → Attempt → Daemon → Result BondError BondStore → Bool → ℕ
unlock c att d loaded random = to_pam_code (authenticate_inner loaded random (with_daemon c att d))

code_for_success :
    (outcome : ChallengeOutcome)
    → code_for outcome ≡ pam_success
    → (sig : List ℕ) × (outcome ≡ ChallengeOutcome.accepted sig)
code_for_success (ChallengeOutcome.accepted sig) h = (sig, refl)
code_for_success ChallengeOutcome.denied h = absurd (ground arith)
code_for_success ChallengeOutcome.replay h = absurd (ground arith)
code_for_success ChallengeOutcome.bad_signature h = absurd (ground arith)
code_for_success ChallengeOutcome.timed_out h = absurd (ground arith)
code_for_success ChallengeOutcome.no_such_peer h = absurd (ground arith)
code_for_success ChallengeOutcome.busy h = absurd (ground arith)
code_for_success (ChallengeOutcome.transport_error e) h = absurd (ground arith)

resolve_error_code :
    (loaded : Result BondError BondStore) (o : AuthOutcome)
    → resolve_peer_id loaded ≡ err o
    → to_pam_code o ≡ pam_authinfo_unavail
unfolding resolve_peer_id to_pam_code
resolve_error_code loaded o h = ground arith

-- What is left to do when the peer has been chosen.
resolved :
    (loaded : Result BondError BondStore) (id : String) (random : Bool)
    (round_trip : String → Result (Unit {0}) Response)
    → resolve_peer_id loaded ≡ ok id
    → authenticate_inner loaded random round_trip ≡ (
        if random
        then answered id (round_trip id)
        else AuthOutcome.auth_info_unavail reason_transport_error (some id))
unfolding authenticate_inner
resolved loaded id random round_trip e = rw (e, authenticate_inner) refl

module _ (c : Crypto) where
  granted :
      (att : Attempt) (d : Daemon) (loaded : Result BondError BondStore) (id : String)
      → resolve_peer_id loaded ≡ ok id
      → (random : Bool) → unlock c att d loaded random ≡ pam_success
      → code_for (issue_challenge c att d id).1 ≡ pam_success
  unfolding to_pam_code
  granted att d loaded id e true h =
      sym (to_pam_code-reply id (issue_challenge c att d id).1)
      ∙ ap to_pam_code (sym (resolved loaded id true (with_daemon c att d) e))
      ∙ h
  granted att d loaded id e false h =
      absurd (ground (arith, resolved loaded id false (with_daemon c att d) e))

  -- What an unlock leaves: the nonce of its challenge is in the cache of the peer.
  abbrev pub Recorded : Attempt → Daemon → String → Type 0
  Recorded att d id =
      (p : PeerEntry) × (nonce : List ℕ) × (att.random ≡ some nonce)
      × (get (issue_challenge c att d id).0.peers id ≡ some p)
      × (contains p.nonce_cache nonce ≡ true)

  accepted-Recorded :
      (att : Attempt) (d : Daemon) (id : String) (sig : List ℕ)
      → (issue_challenge c att d id).1 ≡ ChallengeOutcome.accepted sig
      → Established c att d id sig
      → Recorded att d id
  accepted-Recorded att d id sig h (p, key, nonce, found, known, random, admitted, shown) =
      let (p', found', put) = accepted-insert c att d id p nonce {sig = sig} found random h in
      (
        p',
        nonce,
        random,
        found',
        ap (λ x. contains x nonce) put ∙ contains-insert p.nonce_cache nonce,
      )

  -- An unlock succeeds only if the challenge of the chosen peer was accepted: the peer is registered
  -- with the daemon, the signature verifies under its key over this challenge's own nonce, and the
  -- peer's cache of accepted nonces did not hold that nonce; and after it the cache does.
  pub unlock_needs_signature :
      (att : Attempt) (d : Daemon) (loaded : Result BondError BondStore) (random : Bool)
      → unlock c att d loaded random ≡ pam_success
      → (id : String) × (sig : List ℕ) × (resolve_peer_id loaded ≡ ok id)
        × Established c att d id sig
        × Recorded att d id
  unfolding authenticate_inner
  unlock_needs_signature att d loaded random h = elim (Result-cases (resolve_peer_id loaded)) [
    | inr (o, e) ↦ absurd (ground (arith, resolve_error_code loaded o e))
    | inl (id, e) ↦
        let accepted = granted att d loaded id e random h in
        let (sig, took) = code_for_success (issue_challenge c att d id).1 accepted in
        let established = issue_challenge-accepted c att d id took in
        (id, sig, e, established, accepted-Recorded att d id sig took established)
  ]

  -- An unlock with a paired phone succeeds: if the chosen bond is registered with the daemon under a
  -- key of which the phone holds the seed, and both hold the same 32-byte bond key, a challenge with
  -- a new 16-byte nonce gives the code 0.
  pub unlock-phone :
      (laws : IsCrypto c) (d : Daemon) (loaded : Result BondError BondStore) (id : String)
      (p : PeerEntry) (nonce seed : List ℕ) (now : ℕ)
      → resolve_peer_id loaded ≡ ok id
      → get d.peers id ≡ some p
      → p.phone_pubkey ≡ some (c.public_key seed)
      → length nonce ≡ 16
      → length p.bond_key ≡ 32
      → length seed ≡ 32
      → contains p.nonce_cache nonce ≡ false
      → unlock c (with_phone c p.bond_key seed now nonce) d loaded true ≡ pam_success
  unfolding authenticate_inner
  unlock-phone laws d loaded id p nonce seed now e g k n b s u =
      let att = with_phone c p.bond_key seed now nonce in
      rw (e, authenticate_inner)
        (to_pam_code-reply id (issue_challenge c att d id).1
          ∙ ap code_for (issue_challenge-phone c laws d id p nonce seed now g k n b s u))

-- The success flag and the signature of a reply are not looked at: two replies with the same reason
-- give the same outcome.
answered_by_reason :
    (id reason : String) (ok_a ok_b : Bool) (sig_a sig_b : Option (List ℕ))
    → answered id (ok (Response.challenge ok_a sig_a reason))
      ≡ answered id (ok (Response.challenge ok_b sig_b reason))
unfolding answered
answered_by_reason id reason ok_a ok_b sig_a sig_b = refl
