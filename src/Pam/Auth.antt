-- ===== src/Pam/Auth.antt =====
-- `authenticate_inner` of crates/syauth-pam/src/auth.rs and the arm of `dispatch` in
-- crates/syauth-presenced/src/server.rs that answers a challenge request.
use desk_unlock.Prelude.{
  ℕ, Bool, true, false, Option, none, some, List, [], ◌∷◌, String, str_eq, ltb, ◌==◌, if◌then◌else◌,
  Result, ok, err,
}
use desk_unlock.Bonds.Store.{Bond, BondError, BondStore, is_revoked}
use desk_unlock.Presence.Outcome.{
  ChallengeOutcome, reason_ok, reason_denied, reason_replay, reason_bad_signature,
  reason_response_timeout, reason_unknown_peer, reason_transport_error, reason_busy, reason_str,
}

abbrev pub pam_success : ℕ
pam_success = 0

abbrev pub pam_auth_err : ℕ
pam_auth_err = 7

abbrev pub pam_authinfo_unavail : ℕ
pam_authinfo_unavail = 9

abbrev reason_offline : String
reason_offline = "offline"

abbrev reason_adapter_missing : String
reason_adapter_missing = "adapter-missing"

pub data AuthOutcome : Type 0 where
  success : String → AuthOutcome
  auth_info_unavail auth_err : String → Option String → AuthOutcome

unfoldable pub to_pam_code : AuthOutcome → ℕ
to_pam_code (AuthOutcome.success _) = pam_success
to_pam_code (AuthOutcome.auth_info_unavail _ _) = pam_authinfo_unavail
to_pam_code (AuthOutcome.auth_err _ _) = pam_auth_err

unfoldable pub outcome_reason_to_pam : String → ℕ × String
outcome_reason_to_pam r =
    if str_eq r reason_ok
    then (pam_success, reason_ok)
    else if str_eq r reason_denied
    then (pam_auth_err, reason_denied)
    else if str_eq r reason_replay
    then (pam_auth_err, reason_replay)
    else if str_eq r reason_bad_signature
    then (pam_auth_err, reason_bad_signature)
    else if str_eq r reason_response_timeout
    then (pam_authinfo_unavail, reason_response_timeout)
    else if str_eq r reason_offline
    then (pam_authinfo_unavail, reason_offline)
    else if str_eq r reason_busy
    then (pam_authinfo_unavail, reason_busy)
    else if str_eq r reason_unknown_peer
    then (pam_authinfo_unavail, reason_unknown_peer)
    else if str_eq r reason_transport_error
    then (pam_authinfo_unavail, reason_transport_error)
    else if str_eq r reason_adapter_missing
    then (pam_authinfo_unavail, reason_adapter_missing)
    else (pam_auth_err, "unknown-reason")

-- `max_by` keeps the last of equal bonds.
abbrev pub newer : Bond → Option Bond → Option Bond
newer b none = some b
newer b (some x) = if ltb x.created_at b.created_at then some b else some x

unfoldable pub first_bonded_in : List Bond → Option Bond
first_bonded_in [] = none
first_bonded_in (b ∷ bs) =
    let rest = first_bonded_in bs in if is_revoked b then rest else newer b rest

unfoldable pub first_bonded : BondStore → Option Bond
unfolding first_bonded_in
first_bonded s = first_bonded_in s.bonds

-- `resolve_peer_id`: the peer to challenge, or the outcome without one.
unfoldable pub resolve_peer_id : Result BondError BondStore → Result AuthOutcome String
resolve_peer_id (err _) = err (AuthOutcome.auth_info_unavail "no bonds configured" none)
resolve_peer_id (ok s) = elim (first_bonded s) [
  | none ↦ err (AuthOutcome.auth_info_unavail "no bonded peer" none)
  | some b ↦ ok b.peer_id
]

-- The reply of the daemon on the wire; a reply of another kind is `other`.
pub data Response : Type 0 where
  challenge : Bool → Option (List ℕ) → String → Response
  other : Response

-- What the daemon sends for an outcome.
abbrev signature_bytes : ChallengeOutcome → Option (List ℕ)
signature_bytes (ChallengeOutcome.accepted sig) = some sig
signature_bytes _ = none

abbrev is_accepted : ChallengeOutcome → Bool
is_accepted (ChallengeOutcome.accepted _) = true
is_accepted _ = false

unfoldable pub reply : ChallengeOutcome → Response
reply outcome =
    Response.challenge (is_accepted outcome) (signature_bytes outcome) (reason_str outcome)

abbrev by_code : String → ℕ × String → AuthOutcome
by_code peer_id (code, reason) =
    if code == pam_success
    then AuthOutcome.success peer_id
    else if code == pam_authinfo_unavail
    then AuthOutcome.auth_info_unavail reason (some peer_id)
    else AuthOutcome.auth_err reason (some peer_id)

-- The last step, from the result of the round trip.
unfoldable pub answered : String → Result (Unit {0}) Response → AuthOutcome
answered peer_id (err _) = AuthOutcome.auth_info_unavail reason_transport_error (some peer_id)
answered peer_id (ok Response.other) =
    AuthOutcome.auth_info_unavail reason_transport_error (some peer_id)
answered peer_id (ok (Response.challenge _ _ reason)) =
    by_code peer_id (outcome_reason_to_pam reason)

-- `random` is whether the random generator gives a nonce, `round_trip` what the exchange with the
-- daemon gives for a peer.
unfoldable pub authenticate_inner :
    Result BondError BondStore → Bool → (String → Result (Unit {0}) Response) → AuthOutcome
unfolding answered
authenticate_inner loaded random round_trip = elim (resolve_peer_id loaded) [
  | err outcome ↦ outcome
  | ok peer_id ↦
      if random
      then answered peer_id (round_trip peer_id)
      else AuthOutcome.auth_info_unavail reason_transport_error (some peer_id)
]
