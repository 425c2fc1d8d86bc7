-- ===== src/Pairing/Transaction.antt =====
-- The events of the state machine `Transaction` of crates/syauth-core/src/pair_transaction.rs. A method that
-- takes `&mut self` returns the transaction it leaves and its `Result`; `?` on a helper returns
-- the transaction that the helper leaves.
pub mod Invariant
pub mod Decisions
pub mod Runs
pub mod Reconcile
use desk_unlock.Prelude.{
  ℕ, ◌≡◌, refl, Bool, true, false, not, ◌&&◌, ◌||◌, Option, none, some, List, arith, bytes_eq, ◌==◌,
  if◌then◌else◌, Result, ok, err, ok_or, ◌>>=◌, ◌>>◌,
}
use desk_unlock.Pairing.Types.{
  Operation, TransactionError, incompatible, wrong_transaction, invalid_transition, StatusState,
  Phase, Role, coordinator, participant, LocalEvent, Side, here, there, Flags, flag, raise, both,
  neither, is_both, Message, StatusMessage,
}
use desk_unlock.Pairing.State.{Transaction, to_phase, reconcile_status}

abbrev is_none {ℓ} : {A : Type ℓ} → Option A → Bool
is_none none = true
is_none (some _) = false

abbrev pub Outcome : Type 0
Outcome = Transaction × Result TransactionError (Unit {0})

abbrev done : Transaction → Outcome
done t = (t, ok tt)

abbrev refused : Transaction → Outcome
refused t = (t, err invalid_transition)

abbrev is_oob_pending : Phase → Bool
is_oob_pending Phase.oob_pending = true
is_oob_pending _ = false

abbrev is_preparing : Phase → Bool
is_preparing Phase.preparing = true
is_preparing _ = false

abbrev is_committed : Phase → Bool
is_committed Phase.committed = true
is_committed _ = false

abbrev is_negotiating : Phase → Bool
is_negotiating Phase.negotiating = true
is_negotiating _ = false

abbrev is_prepared : Phase → Bool
is_prepared Phase.prepared = true
is_prepared _ = false

abbrev is_commit_pending : Phase → Bool
is_commit_pending Phase.commit_pending = true
is_commit_pending _ = false

abbrev is_coordinator : Role → Bool
is_coordinator coordinator = true
is_coordinator participant = false

confirm : Transaction → Side → Outcome
confirm t side =
    let con = raise t.confirmed side in
    if not (is_oob_pending t.phase) || flag t.confirmed side
    then refused t
    else done
        (record t { confirmed = con; phase = if is_both con then Phase.preparing else t.phase })

prepare : Transaction → Side → Outcome
prepare t side =
    let pre = raise t.prepared side in
    if not (is_preparing t.phase) || flag t.prepared side
    then refused t
    else done (record t { prepared = pre; phase = if is_both pre then Phase.prepared else t.phase })

record_committed : Transaction → Side → Outcome
record_committed t side =
    let fin = raise t.committed side in
    if not (is_committed t.phase) || flag t.committed side
    then refused t
    else done (record t { committed = fin; phase = if is_both fin then Phase.bonded else t.phase })

-- The phase that a lost link leaves.
disconnected_phase : Phase → Phase
disconnected_phase Phase.commit_pending = Phase.uncertain
disconnected_phase Phase.committed = Phase.uncertain
disconnected_phase Phase.uncertain = Phase.uncertain
disconnected_phase Phase.bonded = Phase.bonded
disconnected_phase (Phase.aborted op) = Phase.aborted op
disconnected_phase _ = Phase.aborted Operation.cancel

disconnect : Transaction → Transaction
unfolding disconnected_phase
disconnect t = to_phase t (disconnected_phase t.phase)

abbrev pub is_abort : Operation → Bool
is_abort Operation.reject = true
is_abort Operation.cancel = true
is_abort Operation.timeout = true
is_abort Operation.error = true
is_abort _ = false

abbrev pub is_final : Phase → Bool
is_final Phase.bonded = true
is_final (Phase.aborted _) = true
is_final _ = false

-- The phase that an accepted abort leaves.
aborted_phase : Phase → Operation → Phase
aborted_phase Phase.commit_pending op = Phase.uncertain
aborted_phase Phase.committed op = Phase.uncertain
aborted_phase Phase.uncertain op = Phase.uncertain
aborted_phase _ op = Phase.aborted op

abort : Transaction → Operation → Outcome
unfolding aborted_phase
abort t op =
    if not (is_abort op) || is_final t.phase
    then refused t
    else done (to_phase t (aborted_phase t.phase op))

unfoldable pub local : Transaction → LocalEvent → Outcome
unfolding confirm prepare record_committed disconnect abort
local t LocalEvent.capability =
    if is_negotiating t.phase && not t.capabilities.mine
    then done (record t { capabilities = raise t.capabilities here })
    else refused t
local t LocalEvent.verified_exchange =
    if is_negotiating t.phase && is_both t.capabilities
    then done (to_phase t Phase.oob_pending)
    else refused t
local t LocalEvent.confirm = confirm t here
local t LocalEvent.prepared = prepare t here
local t LocalEvent.commit =
    if is_coordinator t.role && is_prepared t.phase
    then done (to_phase t Phase.commit_pending)
    else refused t
local t LocalEvent.commit_ack =
    if not (is_coordinator t.role) && is_commit_pending t.phase
    then done (to_phase t Phase.committed)
    else refused t
local t LocalEvent.committed = record_committed t here
local t LocalEvent.disconnected = done (disconnect t)
local t (LocalEvent.abort op) = abort t op

-- The `match message.operation` of `remote`.
remote_operation : Transaction → Operation → Outcome
unfolding confirm prepare record_committed abort
remote_operation t Operation.capability =
    if is_negotiating t.phase && not t.capabilities.peer
    then done (record t { capabilities = raise t.capabilities there })
    else refused t
remote_operation t Operation.confirm = confirm t there
remote_operation t Operation.prepared = prepare t there
remote_operation t Operation.commit =
    if not (is_coordinator t.role) && is_prepared t.phase
    then done (to_phase t Phase.commit_pending)
    else refused t
remote_operation t Operation.commit_ack =
    if is_coordinator t.role && is_commit_pending t.phase
    then done (to_phase t Phase.committed)
    else refused t
remote_operation t Operation.committed = record_committed t there
remote_operation t Operation.status = done t
remote_operation t Operation.status_query = done t
remote_operation t Operation.status_response = done t
remote_operation t Operation.reject = abort t Operation.reject
remote_operation t Operation.cancel = abort t Operation.cancel
remote_operation t Operation.timeout = abort t Operation.timeout
remote_operation t Operation.error = abort t Operation.error
remote_operation t Operation.revoke = refused t

unfoldable pub remote : Transaction → Message → Outcome
unfolding remote_operation
remote t m =
    if not (bytes_eq m.transaction t.id)
    then (t, err wrong_transaction)
    else remote_operation t m.operation

unfoldable pub apply_status_response :
    Transaction → StatusMessage → ℕ → Transaction × Result TransactionError Phase
apply_status_response t response nonce =
    if not (bytes_eq response.transaction t.id)
      || not (response.nonce == nonce)
      || is_none response.state
    then (t, err wrong_transaction)
    else elim response.state [ none ↦ (t, err incompatible) | some s ↦ reconcile_status t s ]
