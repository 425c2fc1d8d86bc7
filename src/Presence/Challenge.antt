-- ===== src/Presence/Challenge.antt =====
-- `Orchestrator::issue_challenge` of crates/syauth-presenced/src/orchestrator.rs, from the lookup of
-- the peer to the outcome. What the daemon does not decide about one challenge is an `Attempt`.
pub mod Security
pub mod Replay
pub mod Phone
use desk_unlock.Prelude.{
  ℕ, Bool, not, Option, none, some, List, [], ◌∷◌, String, ◌==◌, if◌then◌else◌, Result, ok, err,
  length, replicate,
}
use desk_unlock.Auth.Frame.{Frame, FrameError, version_v1, tag_len, encode, body_bytes}
use desk_unlock.Auth.Crypto.{Crypto, VerifyError, signature_len, compute_tag, verify_frame}
use desk_unlock.Presence.NonceCache.{contains, insert}
use desk_unlock.Presence.Outcome.{
  PeripheralError, ChallengeOutcome, reason_ok, reason_replay, reason_bad_signature,
  reason_response_timeout, reason_unknown_peer, reason_transport_error, reason_busy, reason_str,
  outcome_for_transport,
}
use desk_unlock.Presence.Peers.{PeerEntry, Map, get, put}

-- Whether the peer's slot admits the challenge within its deadline, the clock, the nonce of the random
-- generator, how the peripheral takes a frame to notify, and what it receives then.
pub record Attempt : Type 0 where
  pub admitted : Bool
  pub now : ℕ
  pub random : Option (List ℕ)
  pub notify : List ℕ → Option PeripheralError
  pub respond : List ℕ → Result PeripheralError (List ℕ)

-- A line of the audit log without its times.
pub record AuditRecord : Type 0 where
  pub peer_id : String
  pub nonce : List ℕ
  pub reason : String

-- The peers and the audit log, the newest line first.
pub record Daemon : Type 0 where
  pub peers : Map PeerEntry
  pub audit : List AuditRecord

abbrev pub zero_nonce : List ℕ
zero_nonce = replicate 16 0

-- What a challenge ends with: the peer's entry, the audited reason and the outcome.
abbrev Verdict : Type 0
Verdict = PeerEntry × String × ChallengeOutcome

-- The challenge without its tag.
abbrev untagged : List ℕ → Frame
untagged nonce = record {
  version = version_v1;
  nonce = nonce;
  payload = [];
  tag = replicate tag_len 0;
}

abbrev pub tagged : Crypto → PeerEntry → List ℕ → List ℕ → Frame
tagged c p nonce body = record (untagged nonce) { tag = compute_tag c p.bond_key body }

unfoldable pub parse_signature : Crypto → List ℕ → Option (List ℕ)
parse_signature c bytes =
    if not (length bytes == signature_len)
    then none
    else if c.is_signature bytes
    then some bytes
    else none

-- The check of the nonce after the signature has been verified.
unfoldable admit : PeerEntry → List ℕ → List ℕ → Verdict
admit p nonce sig =
    if contains p.nonce_cache nonce then (p, reason_replay, ChallengeOutcome.replay) else (
      record p { nonce_cache = insert p.nonce_cache nonce },
      reason_ok,
      ChallengeOutcome.accepted sig,
    )

abbrev pub refused : PeerEntry → Verdict
refused p = (p, reason_bad_signature, ChallengeOutcome.bad_signature)

unfoldable pub checked : PeerEntry → List ℕ → List ℕ → Result VerifyError (Unit {0}) → Verdict
unfolding admit
checked p nonce sig (ok _) = admit p nonce sig
checked p nonce sig (err _) = refused p

unfoldable pub parsed : Crypto → PeerEntry → List ℕ → List ℕ → Frame → Option (List ℕ) → Verdict
unfolding checked
parsed c p key nonce challenge none = refused p
parsed c p key nonce challenge (some sig) =
    if not (c.is_key key) then refused p else checked p nonce sig (verify_frame c key challenge sig)

abbrev pub failed : PeerEntry → PeripheralError → Verdict
failed p e = let outcome = outcome_for_transport e in (p, reason_str outcome, outcome)

unfoldable responded :
    Crypto → PeerEntry → List ℕ → List ℕ → Frame → Result PeripheralError (List ℕ) → Verdict
unfolding parsed
responded c p key nonce challenge (ok bytes) =
    parsed c p key nonce challenge (parse_signature c bytes)
responded c p key nonce challenge (err PeripheralError.response_timeout) =
    (p, reason_response_timeout, ChallengeOutcome.timed_out)
responded c p key nonce challenge (err e) = failed p e

abbrev backend_failure : PeerEntry → Verdict
backend_failure p =
    (p, reason_transport_error, ChallengeOutcome.transport_error PeripheralError.backend)

unfoldable pub sent :
    Crypto
    → Attempt
    → PeerEntry
    → List ℕ
    → List ℕ
    → Frame
    → List ℕ × Result FrameError (Unit {0})
    → Verdict
unfolding responded
sent c att p key nonce challenge (bytes, err _) = backend_failure p
sent c att p key nonce challenge (bytes, ok _) = elim (att.notify bytes) [
  | some e ↦ failed p e
  | none ↦ responded c p key nonce challenge (att.respond bytes)
]

unfoldable pub run_challenge : Crypto → Attempt → PeerEntry → List ℕ → List ℕ → Verdict
unfolding sent
run_challenge c att p key nonce = elim (body_bytes (untagged nonce)) [
  | err _ ↦ backend_failure p
  | ok body ↦
      let challenge : Frame = tagged c p nonce body in
      sent c att p key nonce challenge (encode challenge [])
]

-- `stamp_liveness`.
abbrev pub stamped : ℕ → PeerEntry → PeerEntry
stamped now p = record p { last_challenge_at = some now; last_connect_at = some now }

unfoldable pub lookup_peer : Daemon → String → Option (PeerEntry × List ℕ)
lookup_peer d peer_id = elim (get d.peers peer_id) [
  | none ↦ none
  | some p ↦ elim p.phone_pubkey [ none ↦ none | some key ↦ some (p, key) ]
]

abbrev pub audited : Daemon → String → List ℕ → String → Daemon
audited d peer_id nonce reason = record d {
  audit = record { peer_id = peer_id; nonce = nonce; reason = reason } ∷ d.audit;
}

-- The verdict stored and audited.
abbrev concluded : Daemon → String → List ℕ → Verdict → Daemon × ChallengeOutcome
concluded d peer_id nonce (p, reason, outcome) =
    (audited (record d { peers = put d.peers peer_id p }) peer_id nonce reason, outcome)

-- The challenge of a known peer.
unfoldable pub challenged :
    Crypto → Attempt → Daemon → String → PeerEntry × List ℕ → Daemon × ChallengeOutcome
unfolding run_challenge
challenged c att d peer_id (p, key) =
    let p' = stamped att.now p in
    if not att.admitted
    then (audited d peer_id zero_nonce reason_busy, ChallengeOutcome.busy)
    else elim att.random [
      | none ↦ concluded d peer_id zero_nonce (backend_failure p')
      | some nonce ↦ concluded d peer_id nonce (run_challenge c att p' key nonce)
    ]

unfoldable pub issue_challenge : Crypto → Attempt → Daemon → String → Daemon × ChallengeOutcome
unfolding challenged
issue_challenge c att d peer_id = elim (lookup_peer d peer_id) [
  | none ↦ (audited d peer_id zero_nonce reason_unknown_peer, ChallengeOutcome.no_such_peer)
  | some found ↦ challenged c att d peer_id found
]
