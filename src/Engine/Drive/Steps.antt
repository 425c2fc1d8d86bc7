-- ===== src/Engine/Drive/Steps.antt =====
-- A postcondition for each primitive of an attempt, and the rule for a sequence.
use desk_unlock.Prelude.{◌≡◌, true, false, arith, ok, err, List, ◌∷◌, Result}
use desk_unlock.Pairing.Types.{Operation, LocalEvent}
use desk_unlock.Pairing.Transaction.{local, remote, is_abort}
use desk_unlock.Pairing.Transaction.Invariant.{IsInOrder, local-IsInOrder, remote-IsInOrder}
use desk_unlock.Engine.Actions.{
  PairCommitPhase, PairEngineError, Schedule, Action, World, Engine, after, publish_paced,
  wait_for_operation, send, message, apply_local, apply_remote, request, ask, Polls,
}
use desk_unlock.Engine.Drive.{stop, abort_with_discard}
use desk_unlock.Engine.Drive.Order.{any, ordered, allowed, is_notified}

-- What holds whenever an attempt stands or has failed: its actions were allowed, success was not
-- announced, and the transaction's flags fit its phase.
pub record IsSound (w : World) : Type 0 where
  pub in_order : ordered w.actions ≡ true
  pub unannounced : any is_notified w.actions ≡ false
  pub flags : IsInOrder w.transaction

-- `Q` of a success, and a sound world of a failure.
abbrev pub Ensures : {A : Type 0} → (A → World → Type 0) → Result PairEngineError A × World → Type 0
Ensures Q (ok a, w) = Q a w
Ensures Q (err e, w) = IsSound w

pub sequence :
    {A B : Type 0} (Q : A → World → Type 0) (R : B → World → Type 0) (f : A → Engine B)
    (r : Result PairEngineError A × World)
    → Ensures Q r
    → ((a : A) (w : World) → Q a w → Ensures R (f a w))
    → Ensures R (after f r)
sequence Q R f (ok a, w) h k = k a w h
sequence Q R f (err e, w) h k = h

pub weaken :
    {A : Type 0} (Q R : A → World → Type 0) (r : Result PairEngineError A × World)
    → Ensures Q r
    → ((a : A) (w : World) → Q a w → R a w)
    → Ensures R r
weaken Q R (ok a, w) h k = k a w h
weaken Q R (err e, w) h k = h

-- A sound world whose actions are `l`.
abbrev pub At : List Action → World → Type 0
At l w = IsSound w × (w.actions ≡ l)

pub publish_paced-At :
    (sch : Schedule) (op : Operation) (l : List Action) (w : World)
    → At l w
    → allowed (Action.published op) l ≡ true
    → Ensures (λ _ w'. At (Action.published op ∷ l) w') (publish_paced sch op w)
unfolding publish_paced send
publish_paced-At sch op l w h a = ground arith

pub wait_for_operation-At :
    (polls : Polls) (l : List Action) (w : World)
    → At l w
    → Ensures
        (λ op w'. At (Action.took op ∷ l) w' × (is_abort op ≡ false))
        (wait_for_operation polls w)
unfolding wait_for_operation
wait_for_operation-At polls l w h = ground arith

pub apply_local-At :
    (e : PairEngineError) (event : LocalEvent) (l : List Action) (w : World)
    → At l w
    → Ensures
        (λ _ w'. At l w' × (local w.transaction event ≡ (w'.transaction, ok tt)))
        (apply_local e event w)
unfolding apply_local
apply_local-At e event l w h = ground (arith, local-IsInOrder w.transaction event)

pub apply_remote-At :
    (op : Operation) (l : List Action) (w : World)
    → At l w
    → Ensures
        (λ _ w'.
          At l w' × (remote w.transaction (message w.transaction op) ≡ (w'.transaction, ok tt)))
        (apply_remote op w)
unfolding apply_remote
apply_remote-At op l w h = ground (arith, remote-IsInOrder w.transaction (message w.transaction op))

pub stop-Ensures :
    (op : Operation) (e : PairEngineError) (l : List Action) (w : World)
    → IsSound w
    → is_abort op ≡ true
    → Ensures (λ _ w'. At l w') (stop op e w)
unfolding stop
stop-Ensures op e l w h a = ground (arith, local-IsInOrder w.transaction (LocalEvent.abort op))

pub abort_with_discard-Ensures :
    (sch : Schedule) (e : PairEngineError) (l : List Action) (w : World)
    → IsSound w
    → Ensures (λ _ w'. At l w') (abort_with_discard sch e w)
unfolding abort_with_discard
abort_with_discard-Ensures sch e l w h =
    ground (arith, local-IsInOrder w.transaction (LocalEvent.abort Operation.error))

pub ask-At :
    (sch : Schedule) (l : List Action) (w : World)
    → At l w
    → At (Action.asked sch.oob_confirmed ∷ l) (ask sch w).1
unfolding ask
ask-At sch l w h = ground arith

pub request-At :
    (sch : Schedule) (phase : PairCommitPhase) (l : List Action) (w : World)
    → At l w
    → allowed (Action.requested phase (sch.reply phase)) l ≡ true
    → At (Action.requested phase (sch.reply phase) ∷ l) (request sch phase w).1
unfolding request
request-At sch phase l w h a = ground arith
