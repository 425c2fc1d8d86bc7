-- ===== src/Engine/Drive.antt =====
-- `drive_pair_transaction` of crates/syauth-transport/src/pair_engine.rs: one pairing attempt on the
-- coordinator's side, round by round.
pub mod Order
pub mod Steps
pub mod Rounds
pub mod Trust
pub mod Loss
pub mod Prompt
pub mod Progress
pub mod Completion
use desk_unlock.Prelude.{ℕ, List, [], if◌then◌else◌, Result, ok, err}
use desk_unlock.Pairing.Types.{Operation, Role, LocalEvent}
use desk_unlock.Pairing.State
use desk_unlock.Engine.Service.{ServiceState}
use desk_unlock.Engine.Actions.{
  PairCommitPhase, PairEngineError, rejected, aborted, uncertain, persistence, Polls, Schedule,
  Action, World, Engine, after, ◌>>=◌, ◌>>◌, pure, fail, log, send, publish_paced,
  wait_for_operation, op_eq, expect, apply_local, apply_remote, try_local, remember, request, ask,
}

-- Publish a decision to stop, record it, and return the error.
pub stop : Operation → PairEngineError → Engine (Unit {0})
unfolding send try_local remember
stop op e = do send op; try_local (LocalEvent.abort op); remember; fail e

pub abort_with_discard : Schedule → PairEngineError → Engine (Unit {0})
unfolding send try_local remember request
abort_with_discard sch e = do
  send Operation.error
  try_local (LocalEvent.abort Operation.error)
  remember
  _ ← request sch PairCommitPhase.discard
  fail e

-- A wait whose failure, or an operation other than the expected one, aborts and discards.
pub discarded :
    Schedule
    → Operation
    → Result PairEngineError Operation × World
    → Result PairEngineError (Unit {0}) × World
discarded sch expected (err e, w) = abort_with_discard sch e w
discarded sch expected (ok op, w) =
    if op_eq op expected then (ok tt, w) else abort_with_discard sch aborted w

pub or_discard : Schedule → Operation → Engine Operation → Engine (Unit {0})
unfolding discarded
or_discard sch expected m w = discarded sch expected (m w)

-- Wait for one operation of the peer, which must be the expected one, and apply it.
pub receive : Polls → Operation → Engine (Unit {0})
receive polls expected = do
  operation ← wait_for_operation polls
  expect operation expected
  apply_remote operation

pub capability_round : Schedule → Engine (Unit {0})
capability_round sch = do
  publish_paced sch Operation.capability
  receive sch.capability_polls Operation.capability
  apply_local aborted LocalEvent.capability
  apply_local aborted LocalEvent.verified_exchange
  remember

pub confirmed_round : Schedule → Engine (Unit {0})
confirmed_round sch = do
  apply_local aborted LocalEvent.confirm
  publish_paced sch Operation.confirm
  receive sch.confirm_polls Operation.confirm

pub confirm_round : Schedule → Engine (Unit {0})
unfolding confirmed_round stop ask
confirm_round sch = do
  confirmed ← ask sch
  if confirmed then confirmed_round sch else stop Operation.reject rejected

-- A storage request that must be granted.
pub storage_round : Schedule → PairCommitPhase → Engine (Unit {0})
unfolding stop request
storage_round sch phase = do
  granted ← request sch phase
  if granted then pure tt else stop Operation.error persistence

pub prepared_round : Schedule → Engine (Unit {0})
unfolding or_discard
prepared_round sch = do
  apply_local aborted LocalEvent.prepared
  or_discard sch Operation.prepared (wait_for_operation sch.prepared_polls)
  apply_remote Operation.prepared
  publish_paced sch Operation.prepared

pub commit_round : Schedule → Engine (Unit {0})
unfolding or_discard
commit_round sch = do
  apply_local aborted LocalEvent.commit
  publish_paced sch Operation.commit
  or_discard sch Operation.commit_ack (wait_for_operation sch.ack_polls)
  apply_remote Operation.commit_ack
  remember

-- The journal and the staged bond stay for recovery.
pub leave_uncertain : PairEngineError → Engine (Unit {0})
unfolding try_local remember
leave_uncertain e = do try_local LocalEvent.disconnected; remember; fail e

pub notify_bonded : Engine (Unit {0})
notify_bonded w = (ok tt, log Action.notified_bonded w)

-- The terminal success: the local record, then the announcement.
pub establish : Engine (Unit {0})
unfolding notify_bonded
establish = do apply_local uncertain LocalEvent.committed; remember; notify_bonded

pub promotion : Schedule → Engine (Unit {0})
unfolding establish leave_uncertain request
promotion sch = do
  apply_remote Operation.committed
  promoted ← request sch PairCommitPhase.promote
  if promoted then establish else leave_uncertain persistence

abbrev pub on_committed :
    Schedule → Result PairEngineError Operation × World → Result PairEngineError (Unit {0}) × World
on_committed sch (ok op, w) =
    if op_eq op Operation.committed then promotion sch w else leave_uncertain uncertain w
on_committed sch (err e, w) = leave_uncertain uncertain w

pub committed_round : Schedule → Engine (Unit {0})
unfolding promotion leave_uncertain
committed_round sch w =
    on_committed sch (
      after (λ _. wait_for_operation sch.committed_polls) (publish_paced sch Operation.committed w))

pub rounds : Schedule → Engine (Unit {0})
rounds sch = do
  capability_round sch
  confirm_round sch
  storage_round sch PairCommitPhase.stage
  prepared_round sch
  storage_round sch PairCommitPhase.mark_commit
  commit_round sch
  committed_round sch

abbrev pub start : ServiceState → List ℕ → World
start s id = record { service = s; transaction = State.new id Role.coordinator; actions = [] }

-- The attempt, with the 16 bytes that the random generator gives.
pub drive : ServiceState → List ℕ → Schedule → Result PairEngineError (Unit {0}) × World
unfolding rounds
drive s id sch = rounds sch (start s id)
