-- ===== src/Examples/EngineRuns.antt =====
-- The service and whole attempts on concrete inputs.
use desk_unlock.Prelude.{
  ◌≡◌, ◌≢◌, ◌≤◌, length, arith, ◌↔◌, refl, ℕ, true, false, List, [], ◌∷◌, ◌++◌, none, ok, err,
  replicate,
}
use desk_unlock.Pairing.Types.{Operation, Phase, coordinator, Message}
use desk_unlock.Pairing.Codec.{decode_state}
use desk_unlock.Engine.Framing.{frame_control_payload, frames_from}
use desk_unlock.Engine.Framing.Coalesce.{
  frame_control_payload-coalesce, frame_control_payload_misread, coalesce, encodings,
}
use desk_unlock.Engine.Framing.Termination.{total, frame_control_payload_ends}
use desk_unlock.Engine.Service.{ServiceState}
use desk_unlock.Engine.Actions.{Schedule, World, Action, Traffic, PairCommitPhase, aborted}
use desk_unlock.Engine.Drive.{start, drive, commit_round}
use desk_unlock.Engine.Drive.Order.{ordered}
use desk_unlock.Engine.Drive.Trust.{trust_established, drive-ordered, drive-trust_established}
use desk_unlock.Engine.Drive.Prompt.{cooperative}
use desk_unlock.Engine.Drive.Completion.{drive-cooperative}
use desk_unlock.Engine.Drive.Progress.{bonded}
use desk_unlock.Engine.Drive.Loss.{commit_round_unanswered}

abbrev attempt : List ℕ
attempt = replicate 16 7

abbrev idle : ServiceState
idle = record {
  host_pubkey = [];
  host_name = [];
  status = [];
  unread = false;
  inbox = [];
  session = none;
}

drive-ordered_example : ordered (drive idle attempt (cooperative attempt)).1.actions ≡ true
drive-ordered_example = drive-ordered idle attempt (cooperative attempt)

drive-trust_established_example :
    ((drive idle attempt (cooperative attempt)).0 ≡ ok tt)
    ↔ ((drive idle attempt (cooperative attempt)).1.actions ≡ trust_established)
drive-trust_established_example = drive-trust_established idle attempt (cooperative attempt)

drive-cooperative_example :
    let (r, w) = drive idle attempt (cooperative attempt) in
    (r ≡ ok tt) × (w.transaction ≡ bonded attempt) × (w.actions ≡ trust_established)
drive-cooperative_example = drive-cooperative idle attempt refl refl

abbrev ready : World
ready = record (start idle attempt) {
  transaction = record {
    id = attempt;
    role = coordinator;
    phase = Phase.prepared;
    capabilities = record { mine = true; peer = true };
    confirmed = record { mine = true; peer = true };
    prepared = record { mine = true; peer = true };
    committed = record { mine = false; peer = false };
  };
}

abbrev silent : Schedule
silent = record (cooperative attempt) {
  ack_polls = (Traffic.reads 0 ∷ Traffic.reads 18 ∷ []) ∷ [] ∷ (Traffic.reads 0 ∷ []) ∷ [];
}

commit_round_unanswered_example :
    let (r, w') = commit_round silent ready in
    (r ≡ err aborted)
    × (w'.transaction.phase ≡ Phase.uncertain)
    × (w'.actions
        ≡ Action.requested PairCommitPhase.discard (silent.reply PairCommitPhase.discard)
          ∷ Action.published Operation.error
          ∷ Action.published Operation.commit
          ∷ ready.actions)
commit_round_unanswered_example =
    commit_round_unanswered silent ready refl refl tt (tt, (tt, (tt, tt))) refl

abbrev commit_message : Message
commit_message = record { transaction = attempt; operation = Operation.commit }

abbrev confirm_message : Message
confirm_message = record { transaction = attempt; operation = Operation.confirm }

abbrev awkward : Message
awkward = record {
  transaction = replicate 6 0 ++ 12 ∷ 0 ∷ replicate 8 0;
  operation = Operation.confirm;
}

frame_control_payload-coalesce_example :
    frame_control_payload (coalesce (commit_message ∷ confirm_message ∷ []))
    ≡ encodings (commit_message ∷ confirm_message ∷ [])
unfolding decode_state
frame_control_payload-coalesce_example =
    frame_control_payload-coalesce (commit_message ∷ confirm_message ∷ [])
      ((refl, refl), ((refl, refl), tt))

frame_control_payload_misread_example :
    frame_control_payload (coalesce (commit_message ∷ awkward ∷ []))
    ≢ encodings (commit_message ∷ awkward ∷ [])
unfolding decode_state
frame_control_payload_misread_example =
    frame_control_payload_misread commit_message awkward refl refl refl

abbrev stray_byte_first : List ℕ
stray_byte_first = 9 ∷ 2 ∷ attempt ++ 1 ∷ 2 ∷ attempt ++ 2 ∷ []

frame_control_payload_ends_example :
    (frames_from 40 stray_byte_first ≡ frame_control_payload stray_byte_first)
    × (total (frame_control_payload stray_byte_first) ≤ length stray_byte_first)
frame_control_payload_ends_example = frame_control_payload_ends 40 stray_byte_first (omega arith)
