-- ===== src/Pairing/Transaction/Decisions.antt =====
-- The decisions of the pairing transaction of crates/syauth-core: refused steps, and the order in
-- which the phases may follow each other.
use desk_unlock.Prelude.{◌≡◌, ◌≢◌, Bool, true, false, arith, err, bytes_eq→eq}
use desk_unlock.Pairing.Types.{
  Operation, TransactionError, wrong_transaction, StatusState, Phase, coordinator, participant,
  LocalEvent, Message,
}
use desk_unlock.Pairing.State.{Transaction, reconcile_status}
use desk_unlock.Pairing.Transaction.{local, remote, is_final}

-- A local event that is refused leaves the transaction as it was.
local_refused :
    (t : Transaction) (e : LocalEvent) {x : TransactionError}
    → (local t e).1 ≡ err x
    → (local t e).0 ≡ t
unfolding local
local_refused t e h = ground arith

-- A message that is refused leaves the transaction as it was.
remote_refused :
    (t : Transaction) (m : Message) {x : TransactionError}
    → (remote t m).1 ≡ err x
    → (remote t m).0 ≡ t
unfolding remote
remote_refused t m h = ground arith

-- A message of another attempt is refused, whatever its operation.
remote_wrong_transaction :
    (t : Transaction) (m : Message) → m.transaction ≢ t.id → remote t m ≡ (t, err wrong_transaction)
unfolding remote
remote_wrong_transaction t m h = ground (arith, bytes_eq→eq m.transaction t.id)

-- The phases after a commit decision.
abbrev pub is_decided : Phase → Bool
is_decided Phase.commit_pending = true
is_decided Phase.committed = true
is_decided Phase.bonded = true
is_decided Phase.uncertain = true
is_decided _ = false

pub local_keeps_decision :
    (t : Transaction) (e : LocalEvent)
    → is_decided t.phase ≡ true
    → is_decided (local t e).0.phase ≡ true
unfolding local
local_keeps_decision t e h = ground arith

pub remote_keeps_decision :
    (t : Transaction) (m : Message)
    → is_decided t.phase ≡ true
    → is_decided (remote t m).0.phase ≡ true
unfolding remote
remote_keeps_decision t m h = ground arith

pub reconcile_status_keeps_decision :
    (t : Transaction) (s : StatusState)
    → is_decided t.phase ≡ true
    → is_decided (reconcile_status t s).0.phase ≡ true
unfolding reconcile_status
reconcile_status_keeps_decision t s h = ground arith

-- Of the local events only commit takes a transaction to a decided phase, and only the coordinator's
-- prepared transaction.
local_decides :
    (t : Transaction) (e : LocalEvent)
    → is_decided t.phase ≡ false
    → is_decided (local t e).0.phase ≡ true
    → (e ≡ LocalEvent.commit) × (t.role ≡ coordinator) × (t.phase ≡ Phase.prepared)
unfolding local
local_decides t e u d = ground arith

-- Of the messages only a commit for this very attempt takes a transaction to a decided phase, and
-- only the participant's prepared transaction.
remote_decides :
    (t : Transaction) (m : Message)
    → is_decided t.phase ≡ false
    → is_decided (remote t m).0.phase ≡ true
    → (m.operation ≡ Operation.commit)
      × (t.role ≡ participant)
      × (t.phase ≡ Phase.prepared)
      × (m.transaction ≡ t.id)
unfolding remote
remote_decides t m u d = ground (arith, bytes_eq→eq m.transaction t.id)

-- A transaction that has ended refuses every local event but a lost link, and keeps its phase.
local_of_final : (t : Transaction) (e : LocalEvent) → is_final t.phase ≡ true → (local t e).0 ≡ t
unfolding local
local_of_final t e h = ground arith

remote_of_final : (t : Transaction) (m : Message) → is_final t.phase ≡ true → (remote t m).0 ≡ t
unfolding remote
remote_of_final t m h = ground arith
