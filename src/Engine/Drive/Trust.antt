-- ===== src/Engine/Drive/Trust.antt =====
-- What a whole attempt guarantees.
use desk_unlock.Prelude.{
  ◌≡◌, ◌↔◌, refl, Bool, true, false, arith, ok, err, ℕ, List, [], ◌∷◌, Result, if◌then◌else◌,
  Bool-cases, inl, inr,
}
use desk_unlock.Pairing.Types.{Operation, Phase, Role, LocalEvent}
use desk_unlock.Pairing.State.{Transaction}
use desk_unlock.Pairing.Transaction.{local, remote, is_abort}
use desk_unlock.Pairing.Transaction.Invariant.{new-IsInOrder, local-IsInOrder}
use desk_unlock.Engine.Service.{ServiceState}
use desk_unlock.Engine.Actions.{
  PairCommitPhase, PairEngineError, persistence, uncertain, Schedule, Action, World, op_eq, message,
  publish_paced, apply_local, apply_remote, remember, request,
}
use desk_unlock.Engine.Drive.{
  promotion, leave_uncertain, on_committed, committed_round, capability_round, confirm_round,
  storage_round, prepared_round, commit_round, rounds, start, drive, establish, notify_bonded,
}
use desk_unlock.Engine.Drive.Order.{any, ordered, is_notified}
use desk_unlock.Engine.Drive.Steps.{
  IsSound, Ensures, sequence, weaken, At, publish_paced-At, wait_for_operation-At, apply_local-At,
  apply_remote-At, request-At,
}
use desk_unlock.Engine.Drive.Rounds.{
  Done, capability_done, confirm_done, staged, prepared_done, marked, commit_done,
  capability_round-At, confirm_round-At, storage_round-At, prepared_round-At, commit_round-At,
}

abbrev sent_committed : List Action
sent_committed = Action.published Operation.committed ∷ commit_done

abbrev took_committed : List Action
took_committed = Action.took Operation.committed ∷ sent_committed

-- All that a successful attempt does, the newest first.
abbrev pub trust_established : List Action
trust_established =
    Action.notified_bonded ∷ Action.requested PairCommitPhase.promote true ∷ took_committed

abbrev Trusted : Unit {0} → World → Type 0
Trusted _ w =
    (w.actions ≡ trust_established)
    × (w.transaction.phase ≡ Phase.bonded)
    × (ordered w.actions ≡ true)

-- Two records of the bond, the peer's and then this side's, make the transaction bonded.
both_committed :
    (t u v : Transaction)
    → remote t (message t Operation.committed) ≡ (u, ok tt)
    → local u LocalEvent.committed ≡ (v, ok tt)
    → v.phase ≡ Phase.bonded
unfolding remote local message
both_committed t u v p q = ground arith

leave_uncertain-Ensures :
    (e : PairEngineError) (w : World) → IsSound w → Ensures Trusted (leave_uncertain e w)
unfolding leave_uncertain
leave_uncertain-Ensures e w h =
    ground (arith, local-IsInOrder w.transaction LocalEvent.disconnected)

abbrev promoted : List Action
promoted = Action.requested PairCommitPhase.promote true ∷ took_committed

establish-Ensures :
    (t : Transaction) (w : World)
    → At promoted w
    → remote t (message t Operation.committed) ≡ (w.transaction, ok tt)
    → Ensures Trusted (establish w)
unfolding establish remember notify_bonded
establish-Ensures t w h e =
    let recorded : Unit {0} → World → Type 0 =
      λ _ v. At promoted v × (v.transaction.phase ≡ Phase.bonded) in
    sequence recorded Trusted _ (apply_local uncertain LocalEvent.committed w)
      (weaken
        (λ _ v. At promoted v × (local w.transaction LocalEvent.committed ≡ (v.transaction, ok tt)))
        recorded (apply_local uncertain LocalEvent.committed w)
        (apply_local-At uncertain LocalEvent.committed promoted w h)
        (λ _ v k. (k.0, both_committed t w.transaction v.transaction e k.1)))
      (λ _ w1 h1. ground arith)

promoted_round-Ensures :
    (t : Transaction) (b : Bool) (w : World)
    → At (Action.requested PairCommitPhase.promote b ∷ took_committed) w
    → remote t (message t Operation.committed) ≡ (w.transaction, ok tt)
    → Ensures Trusted ((if◌then◌else◌ b establish (leave_uncertain persistence)) w)
promoted_round-Ensures t true w h e = establish-Ensures t w h e
promoted_round-Ensures t false w h e = leave_uncertain-Ensures persistence w h.0

promotion-Ensures :
    (sch : Schedule) (w : World) → At took_committed w → Ensures Trusted (promotion sch w)
unfolding promotion request
promotion-Ensures sch w h =
    sequence
      (λ _ w'.
        At took_committed w'
        × (remote w.transaction (message w.transaction Operation.committed)
            ≡ (w'.transaction, ok tt)))
      Trusted _ (apply_remote Operation.committed w)
      (apply_remote-At Operation.committed took_committed w h)
      (λ _ w1 h1.
        promoted_round-Ensures w.transaction (sch.reply PairCommitPhase.promote) _
          (request-At sch PairCommitPhase.promote took_committed w1 h1.0 refl) h1.1)

took_same :
    (op : Operation) (w : World)
    → At (Action.took op ∷ sent_committed) w
    → op_eq op Operation.committed ≡ true
    → At took_committed w
took_same op w h same = ground arith

unannounced_not_trusted :
    (w : World) → any is_notified w.actions ≡ false → w.actions ≡ trust_established → ⊥
unannounced_not_trusted w u e = ground arith

on_committed-Ensures :
    (sch : Schedule) (r : Result PairEngineError Operation × World)
    → Ensures (λ op w. At (Action.took op ∷ sent_committed) w × (is_abort op ≡ false)) r
    → Ensures Trusted (on_committed sch r)
on_committed-Ensures sch (err e, w) h = leave_uncertain-Ensures uncertain w h
on_committed-Ensures sch (ok op, w) h = elim (Bool-cases (op_eq op Operation.committed)) [
  | inl same ↦ rw same (promotion-Ensures sch w (took_same op w h.0 same))
  | inr other ↦ rw other (leave_uncertain-Ensures uncertain w h.0.0)
]

committed_round-Ensures :
    (sch : Schedule) (w : World) → At commit_done w → Ensures Trusted (committed_round sch w)
unfolding committed_round
committed_round-Ensures sch w h = on_committed-Ensures sch _ (
    sequence (Done sent_committed)
      (λ op w'. At (Action.took op ∷ sent_committed) w' × (is_abort op ≡ false)) _
      (publish_paced sch Operation.committed w)
      (publish_paced-At sch Operation.committed commit_done w h refl)
      (λ _ w1 h1. wait_for_operation-At sch.committed_polls sent_committed w1 h1))

rounds-Ensures : (sch : Schedule) (w : World) → At [] w → Ensures Trusted (rounds sch w)
unfolding rounds
rounds-Ensures sch w h =
    sequence (Done capability_done) Trusted _ (capability_round sch w) (capability_round-At sch w h)
      (λ _ w1 h1.
        sequence (Done confirm_done) Trusted _ (confirm_round sch w1) (confirm_round-At sch w1 h1)
          (λ _ w2 h2.
            sequence (Done staged) Trusted _ (storage_round sch PairCommitPhase.stage w2)
              (storage_round-At sch PairCommitPhase.stage confirm_done w2 h2 (λ b. refl))
              (λ _ w3 h3.
                sequence (Done prepared_done) Trusted _ (prepared_round sch w3)
                  (prepared_round-At sch w3 h3)
                  (λ _ w4 h4.
                    sequence (Done marked) Trusted _
                      (storage_round sch PairCommitPhase.mark_commit w4)
                      (storage_round-At sch PairCommitPhase.mark_commit prepared_done w4 h4
                        (λ b. refl))
                      (λ _ w5 h5.
                        sequence (Done commit_done) Trusted _ (commit_round sch w5)
                          (commit_round-At sch w5 h5)
                          (λ _ w6 h6. committed_round-Ensures sch w6 h6))))))

start-At : (s : ServiceState) (id : List ℕ) → At [] (start s id)
start-At s id = (
  record { in_order = refl; unannounced = refl; flags = new-IsInOrder id Role.coordinator },
  refl,
)

drive-Ensures : (s : ServiceState) (id : List ℕ) (sch : Schedule) → Ensures Trusted (drive s id sch)
unfolding drive
drive-Ensures s id sch = rounds-Ensures sch (start s id) (start-At s id)

outcome-ordered :
    (r : Result PairEngineError (Unit {0}) × World) → Ensures Trusted r → ordered r.1.actions ≡ true
outcome-ordered (ok _, w) h = h.2
outcome-ordered (err _, w) h = h.in_order

-- In every attempt, whatever the peer, the operator and the storage do, each action is allowed by
-- those before it: nothing is staged before the operator agreed, this side published its
-- confirmation and the peer's was taken, no commit is published before the commit mark is durable, nothing is promoted before both sides said committed, and success is
-- announced only after a granted promotion.
pub drive-ordered :
    (s : ServiceState) (id : List ℕ) (sch : Schedule) → ordered (drive s id sch).1.actions ≡ true
drive-ordered s id sch = outcome-ordered (drive s id sch) (drive-Ensures s id sch)

outcome-Trusted :
    (r : Result PairEngineError (Unit {0}) × World)
    → Ensures Trusted r
    → (r.0 ≡ ok tt) ↔ (r.1.actions ≡ trust_established)
outcome-Trusted (ok tt, w) h = (λ _. h.0, λ _. refl)
outcome-Trusted (err e, w) h =
    (λ k. absurd (ground arith), λ k. absurd (unannounced_not_trusted w h.unannounced k))

-- An attempt succeeds exactly if it did all fifteen steps of the protocol in their order, the
-- announcement of success last.
pub drive-trust_established :
    (s : ServiceState) (id : List ℕ) (sch : Schedule)
    → ((drive s id sch).0 ≡ ok tt) ↔ ((drive s id sch).1.actions ≡ trust_established)
drive-trust_established s id sch = outcome-Trusted (drive s id sch) (drive-Ensures s id sch)

outcome_bonded :
    (r : Result PairEngineError (Unit {0}) × World)
    → Ensures Trusted r
    → r.0 ≡ ok tt
    → r.1.transaction.phase ≡ Phase.bonded
outcome_bonded (ok _, w) h e = h.1
outcome_bonded (err _, w) h e = absurd (ground arith)

-- A successful attempt leaves its transaction bonded.
drive-bonded :
    (s : ServiceState) (id : List ℕ) (sch : Schedule)
    → (drive s id sch).0 ≡ ok tt
    → (drive s id sch).1.transaction.phase ≡ Phase.bonded
drive-bonded s id sch e = outcome_bonded (drive s id sch) (drive-Ensures s id sch) e
