-- ===== src/Engine/Actions.antt =====
-- What an attempt of `drive_pair_transaction` in crates/syauth-transport/src/pair_engine.rs does step
-- by step: it publishes, waits, applies events to its transaction, and asks the operator and the
-- daemon. What the attempt does not decide is a `Schedule`: what the GATT link carries while the
-- engine polls, the operator's decision, and the daemon's answers to storage requests. A step that
-- fails returns its error with the state that it leaves.
use desk_unlock.Prelude.{
  ℕ, Bool, Option, none, some, List, [], ◌∷◌, ◌==◌, if◌then◌else◌, Result, ok, err,
}
use desk_unlock.Pairing.Types.{Operation, operation_code, Message, LocalEvent}
use desk_unlock.Pairing.State.{Transaction, status}
use desk_unlock.Pairing.Transaction.{local, remote, is_abort}
use desk_unlock.Pairing.Transaction
use desk_unlock.Engine.Service.{
  ServiceState, publish, status_snapshot, remember_session, control_write, take_message,
}

pub data PairCommitPhase : Type 0 where
  stage mark_commit promote discard revoke : PairCommitPhase

pub data PairEngineError : Type 0 where
  rejected aborted uncertain persistence : PairEngineError

-- What the link carries between two polls.
pub data Traffic : Type 0 where
  writes : List ℕ → Traffic
  reads : ℕ → Traffic

-- The polls of one wait: the traffic before each, up to the wait's deadline.
abbrev pub Polls : Type 0
Polls = List (List Traffic)

pub record Schedule : Type 0 where
  pub pacing : Operation → Polls
  pub capability_polls : Polls
  pub confirm_polls : Polls
  pub prepared_polls : Polls
  pub ack_polls : Polls
  pub committed_polls : Polls
  pub oob_confirmed : Bool
  pub reply : PairCommitPhase → Bool

-- What an attempt does that others see, and the operations that it takes; the newest first.
pub data Action : Type 0 where
  published : Operation → Action
  took : Operation → Action
  asked : Bool → Action
  requested : PairCommitPhase → Bool → Action
  notified_bonded : Action

pub record World : Type 0 where
  pub service : ServiceState
  pub transaction : Transaction
  pub actions : List Action

-- A computation on the world that may fail with an error of the engine.
abbrev pub Engine : Type 0 → Type 0
Engine A = World → Result PairEngineError A × World

abbrev pub after :
    {A B : Type 0}
    → (A → Engine B)
    → Result PairEngineError A × World
    → Result PairEngineError B × World
after f (ok a, w) = f a w
after f (err e, w) = (err e, w)

infixl 5 ◌>>=◌ ◌>>◌
abbrev pub ◌>>=◌ : {A B : Type 0} → Engine A → (A → Engine B) → Engine B
◌>>=◌ m f w = after f (m w)

abbrev pub ◌>>◌ : {B : Type 0} → Engine (Unit {0}) → Engine B → Engine B
m >> k = m >>= λ _. k

abbrev pub pure : {A : Type 0} → A → Engine A
pure a w = (ok a, w)

abbrev pub fail : {A : Type 0} → PairEngineError → Engine A
fail e w = (err e, w)

abbrev pub log : Action → World → World
log a w = record w { actions = a ∷ w.actions }

unfoldable pub traffic : ServiceState → List Traffic → ServiceState
traffic s [] = s
traffic s (Traffic.writes bytes ∷ ts) = traffic (control_write s bytes).0 ts
traffic s (Traffic.reads offset ∷ ts) = traffic (status_snapshot s offset).0 ts

unfoldable pub message : Transaction → Operation → Message
message t op = record { transaction = t.id; operation = op }

unfoldable pub send : Operation → Engine (Unit {0})
unfolding message
send op w = (
  ok tt,
  log (Action.published op) (record w { service = publish w.service (message w.transaction op) }),
)

-- The loop of `publish_paced`: it ends when the last message was read, or at the deadline.
unfoldable pub pace : ServiceState → Polls → ServiceState
unfolding traffic
pace s [] = s
pace s (ts ∷ polls) = let rest = pace (traffic s ts) polls in if s.unread then rest else s

unfoldable pub publish_paced : Schedule → Operation → Engine (Unit {0})
unfolding pace
publish_paced sch op w = send op (record w { service = pace w.service (sch.pacing op) })

-- The loop of `wait_for_operation_within`: it looks into the inbox once at least, also if the
-- deadline has passed.
unfoldable pub poll : ServiceState → List ℕ → Polls → ServiceState × Option Operation
unfolding traffic
poll s id [] = take_message s id
poll s id (ts ∷ polls) =
    let (s', found) = take_message (traffic s ts) id in
    elim found [ some op ↦ (s', some op) | none ↦ poll s' id polls ]

unfoldable waited :
    World → ServiceState × Option Operation → Result PairEngineError Operation × World
waited w (s, none) = (err aborted, record w { service = s })
waited w (s, some op) =
    let w' = log (Action.took op) (record w { service = s }) in
    if is_abort op then (err aborted, w') else (ok op, w')

unfoldable pub wait_for_operation : Polls → Engine Operation
unfolding waited
wait_for_operation polls w = waited w (poll w.service w.transaction.id polls)

abbrev pub op_eq : Operation → Operation → Bool
op_eq a b = operation_code a == operation_code b

-- `if operation != expected { return Err(Aborted) }`.
abbrev pub expect : Operation → Operation → Engine (Unit {0})
expect op expected = if op_eq op expected then pure tt else fail aborted

abbrev mapped :
    PairEngineError → World → Transaction.Outcome → Result PairEngineError (Unit {0}) × World
mapped e w (t, ok _) = (ok tt, record w { transaction = t })
mapped e w (t, err _) = (err e, record w { transaction = t })

-- `transaction.local(event).map_err(|_| e)?`.
unfoldable pub apply_local : PairEngineError → LocalEvent → Engine (Unit {0})
apply_local e event w = mapped e w (local w.transaction event)

unfoldable pub apply_remote : Operation → Engine (Unit {0})
unfolding message
apply_remote op w = mapped aborted w (remote w.transaction (message w.transaction op))

-- `let _ = transaction.local(event)`.
unfoldable pub try_local : LocalEvent → Engine (Unit {0})
try_local event w = (ok tt, record w { transaction = (local w.transaction event).0 })

unfoldable pub remember : Engine (Unit {0})
remember w = (
  ok tt,
  record w { service = remember_session w.service w.transaction.id (status w.transaction) },
)

unfoldable pub request : Schedule → PairCommitPhase → Engine Bool
request sch phase w =
    let answer = sch.reply phase in (ok answer, log (Action.requested phase answer) w)

unfoldable pub ask : Schedule → Engine Bool
ask sch w = (ok sch.oob_confirmed, log (Action.asked sch.oob_confirmed) w)
