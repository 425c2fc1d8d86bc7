-- ===== src/Engine/Drive/Rounds.antt =====
-- Each round of an attempt, from the actions that it starts with to those that it ends with.
use desk_unlock.Prelude.{
  ◌≡◌, refl, Bool, true, false, arith, ok, err, List, [], ◌∷◌, Result, Bool-cases, inl, inr,
  if◌then◌else◌,
}
use desk_unlock.Pairing.Types.{Operation, LocalEvent}
use desk_unlock.Pairing.Transaction.{is_abort}
use desk_unlock.Pairing.Transaction.Invariant.{local-IsInOrder}
use desk_unlock.Engine.Actions.{
  PairCommitPhase, PairEngineError, persistence, rejected, aborted, Schedule, Action, World, expect,
  publish_paced, wait_for_operation, apply_local, apply_remote, remember, request, ask, Polls, pure,
  op_eq,
}
use desk_unlock.Engine.Drive.{
  stop, discarded, or_discard, receive, capability_round, confirmed_round, confirm_round,
  storage_round, prepared_round, commit_round,
}
use desk_unlock.Engine.Drive.Order.{allowed}
use desk_unlock.Engine.Drive.Steps.{
  Ensures, sequence, At, publish_paced-At, wait_for_operation-At, apply_remote-At, stop-Ensures,
  abort_with_discard-Ensures, ask-At, request-At,
}

-- A postcondition that says only what was done.
abbrev pub Done : List Action → Unit {0} → World → Type 0
Done l _ w = At l w

expect-At :
    (op k : Operation) (l : List Action) (w : World)
    → At (Action.took op ∷ l) w
    → Ensures (Done (Action.took k ∷ l)) (expect op k w)
expect-At op k l w h = ground arith

remember-At : (l : List Action) (w : World) → At l w → Ensures (Done l) (remember w)
unfolding remember
remember-At l w h = ground arith

local-At :
    (e : PairEngineError) (event : LocalEvent) (l : List Action) (w : World)
    → At l w
    → Ensures (Done l) (apply_local e event w)
unfolding apply_local
local-At e event l w h = ground (arith, local-IsInOrder w.transaction event)

remote-At :
    (op : Operation) (l : List Action) (w : World) → At l w → Ensures (Done l) (apply_remote op w)
unfolding apply_remote
remote-At op l w h = ground (arith, apply_remote-At op l w h)

receive-At :
    (polls : Polls) (k : Operation) (l : List Action) (w : World)
    → At l w
    → Ensures (Done (Action.took k ∷ l)) (receive polls k w)
unfolding receive
receive-At polls k l w h =
    sequence (λ op w'. At (Action.took op ∷ l) w' × (is_abort op ≡ false))
      (Done (Action.took k ∷ l)) _ (wait_for_operation polls w) (wait_for_operation-At polls l w h)
      (λ op w1 h1.
        sequence (Done (Action.took k ∷ l)) (Done (Action.took k ∷ l)) _ (expect op k w1)
          (expect-At op k l w1 h1.0) (λ _ w2 h2. remote-At op (Action.took k ∷ l) w2 h2))

abbrev pub capability_done : List Action
capability_done = Action.took Operation.capability ∷ Action.published Operation.capability ∷ []

pub capability_round-At :
    (sch : Schedule) (w : World) → At [] w → Ensures (Done capability_done) (capability_round sch w)
unfolding capability_round
capability_round-At sch w h =
    let d = Done capability_done in
    sequence (Done (Action.published Operation.capability ∷ [])) d _
      (publish_paced sch Operation.capability w)
      (publish_paced-At sch Operation.capability [] w h refl)
      (λ _ w1 h1.
        sequence d d _ (receive sch.capability_polls Operation.capability w1)
          (receive-At sch.capability_polls Operation.capability
            (Action.published Operation.capability ∷ []) w1 h1)
          (λ _ w2 h2.
            sequence d d _ (apply_local aborted LocalEvent.capability w2)
              (local-At aborted LocalEvent.capability capability_done w2 h2)
              (λ _ w3 h3.
                sequence d d _ (apply_local aborted LocalEvent.verified_exchange w3)
                  (local-At aborted LocalEvent.verified_exchange capability_done w3 h3)
                  (λ _ w4 h4. remember-At capability_done w4 h4))))

abbrev pub agreed : List Action
agreed = Action.asked true ∷ capability_done

abbrev pub confirm_done : List Action
confirm_done = Action.took Operation.confirm ∷ Action.published Operation.confirm ∷ agreed

confirmed_round-At :
    (sch : Schedule) (w : World) → At agreed w → Ensures (Done confirm_done) (confirmed_round sch w)
unfolding confirmed_round
confirmed_round-At sch w h =
    let d = Done confirm_done in
    sequence (Done agreed) d _ (apply_local aborted LocalEvent.confirm w)
      (local-At aborted LocalEvent.confirm agreed w h)
      (λ _ w1 h1.
        sequence (Done (Action.published Operation.confirm ∷ agreed)) d _
          (publish_paced sch Operation.confirm w1)
          (publish_paced-At sch Operation.confirm agreed w1 h1 refl)
          (λ _ w2 h2.
            receive-At sch.confirm_polls Operation.confirm
              (Action.published Operation.confirm ∷ agreed) w2 h2))

-- The operator's decision is asked once; a refusal stops the attempt.
asked_round-At :
    (sch : Schedule) (b : Bool) (w : World)
    → At (Action.asked b ∷ capability_done) w
    → Ensures
        (Done confirm_done)
        ((if◌then◌else◌ b (confirmed_round sch) (stop Operation.reject rejected)) w)
asked_round-At sch true w h = confirmed_round-At sch w h
asked_round-At sch false w h = stop-Ensures Operation.reject rejected confirm_done w h.0 refl

pub confirm_round-At :
    (sch : Schedule) (w : World)
    → At capability_done w
    → Ensures (Done confirm_done) (confirm_round sch w)
unfolding confirm_round ask
confirm_round-At sch w h = asked_round-At sch sch.oob_confirmed _ (ask-At sch capability_done w h)

granted_round-At :
    (sch : Schedule) (phase : PairCommitPhase) (b : Bool) (l : List Action) (w : World)
    → At (Action.requested phase b ∷ l) w
    → Ensures
        (Done (Action.requested phase true ∷ l))
        ((if◌then◌else◌ b (pure tt) (stop Operation.error persistence)) w)
granted_round-At sch phase true l w h = h
granted_round-At sch phase false l w h =
    stop-Ensures Operation.error persistence (Action.requested phase true ∷ l) w h.0 refl

pub storage_round-At :
    (sch : Schedule) (phase : PairCommitPhase) (l : List Action) (w : World)
    → At l w
    → ((b : Bool) → allowed (Action.requested phase b) l ≡ true)
    → Ensures (Done (Action.requested phase true ∷ l)) (storage_round sch phase w)
unfolding storage_round request
storage_round-At sch phase l w h a =
    granted_round-At sch phase (sch.reply phase) l _
      (request-At sch phase l w h (a (sch.reply phase)))

discarded-At :
    (sch : Schedule) (k : Operation) (l : List Action)
    (r : Result PairEngineError Operation × World)
    → Ensures (λ op w. At (Action.took op ∷ l) w × (is_abort op ≡ false)) r
    → Ensures (Done (Action.took k ∷ l)) (discarded sch k r)
unfolding discarded
discarded-At sch k l (err e, w) h = abort_with_discard-Ensures sch e (Action.took k ∷ l) w h
discarded-At sch k l (ok op, w) h = elim (Bool-cases (op_eq op k)) [
  | inl same ↦ rw same (ground arith)
  | inr other ↦ rw other (abort_with_discard-Ensures sch aborted (Action.took k ∷ l) w h.0.0)
]

abbrev pub staged : List Action
staged = Action.requested PairCommitPhase.stage true ∷ confirm_done

abbrev pub prepared_done : List Action
prepared_done = Action.published Operation.prepared ∷ Action.took Operation.prepared ∷ staged

pub prepared_round-At :
    (sch : Schedule) (w : World) → At staged w → Ensures (Done prepared_done) (prepared_round sch w)
unfolding prepared_round or_discard
prepared_round-At sch w h =
    let d = Done prepared_done in
    let took : List Action = Action.took Operation.prepared ∷ staged in
    sequence (Done staged) d _ (apply_local aborted LocalEvent.prepared w)
      (local-At aborted LocalEvent.prepared staged w h)
      (λ _ w1 h1.
        sequence (Done took) d _
          (discarded sch Operation.prepared (wait_for_operation sch.prepared_polls w1))
          (discarded-At sch Operation.prepared staged (wait_for_operation sch.prepared_polls w1)
            (wait_for_operation-At sch.prepared_polls staged w1 h1))
          (λ _ w2 h2.
            sequence (Done took) d _ (apply_remote Operation.prepared w2)
              (remote-At Operation.prepared took w2 h2)
              (λ _ w3 h3. publish_paced-At sch Operation.prepared took w3 h3 refl)))

abbrev pub marked : List Action
marked = Action.requested PairCommitPhase.mark_commit true ∷ prepared_done

abbrev pub commit_done : List Action
commit_done = Action.took Operation.commit_ack ∷ Action.published Operation.commit ∷ marked

pub commit_round-At :
    (sch : Schedule) (w : World) → At marked w → Ensures (Done commit_done) (commit_round sch w)
unfolding commit_round or_discard
commit_round-At sch w h =
    let d = Done commit_done in
    let sent : List Action = Action.published Operation.commit ∷ marked in
    sequence (Done marked) d _ (apply_local aborted LocalEvent.commit w)
      (local-At aborted LocalEvent.commit marked w h)
      (λ _ w1 h1.
        sequence (Done sent) d _ (publish_paced sch Operation.commit w1)
          (publish_paced-At sch Operation.commit marked w1 h1 refl)
          (λ _ w2 h2.
            sequence d d _
              (discarded sch Operation.commit_ack (wait_for_operation sch.ack_polls w2))
              (discarded-At sch Operation.commit_ack sent (wait_for_operation sch.ack_polls w2)
                (wait_for_operation-At sch.ack_polls sent w2 h2))
              (λ _ w3 h3.
                sequence d d _ (apply_remote Operation.commit_ack w3)
                  (remote-At Operation.commit_ack commit_done w3 h3)
                  (λ _ w4 h4. remember-At commit_done w4 h4))))
