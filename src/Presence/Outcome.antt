-- ===== src/Presence/Outcome.antt =====
-- `ChallengeOutcome` of crates/syauth-presenced/src/orchestrator.rs with the reasons that it puts on
-- the wire, and `PeripheralError` of crates/syauth-transport/src/peripheral.rs. The texts that an
-- error carries are left out.
use desk_unlock.Prelude.{ℕ, List, String}

pub data PeripheralError : Type 0 where
  adapter_missing unknown_peer peer_already_added backend cancelled response_timeout :
      PeripheralError

pub data ChallengeOutcome : Type 0 where
  accepted : List ℕ → ChallengeOutcome
  denied replay bad_signature timed_out no_such_peer busy : ChallengeOutcome
  transport_error : PeripheralError → ChallengeOutcome

abbrev pub reason_ok : String
reason_ok = "ok"

abbrev pub reason_denied : String
reason_denied = "denied"

abbrev pub reason_replay : String
reason_replay = "replay"

abbrev pub reason_bad_signature : String
reason_bad_signature = "bad-signature"

abbrev pub reason_response_timeout : String
reason_response_timeout = "response-timeout"

abbrev pub reason_unknown_peer : String
reason_unknown_peer = "unknown-peer"

abbrev pub reason_transport_error : String
reason_transport_error = "transport-error"

abbrev pub reason_busy : String
reason_busy = "busy"

unfoldable pub reason_str : ChallengeOutcome → String
reason_str (ChallengeOutcome.accepted _) = reason_ok
reason_str ChallengeOutcome.denied = reason_denied
reason_str ChallengeOutcome.replay = reason_replay
reason_str ChallengeOutcome.bad_signature = reason_bad_signature
reason_str ChallengeOutcome.timed_out = reason_response_timeout
reason_str ChallengeOutcome.no_such_peer = reason_unknown_peer
reason_str ChallengeOutcome.busy = reason_busy
reason_str (ChallengeOutcome.transport_error _) = reason_transport_error

-- `challenge_outcome_for_transport`.
unfoldable pub outcome_for_transport : PeripheralError → ChallengeOutcome
outcome_for_transport PeripheralError.unknown_peer = ChallengeOutcome.no_such_peer
outcome_for_transport PeripheralError.response_timeout = ChallengeOutcome.timed_out
outcome_for_transport _ = ChallengeOutcome.transport_error PeripheralError.backend
