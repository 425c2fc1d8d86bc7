-- ===== src/Pairing/Transaction/Reconcile.antt =====
-- `reconcile_status`, `apply_status_response` and `from_recovery_status`: what recovery decides.
use desk_unlock.Prelude.{
  ◌≡◌, ◌≢◌, ◌⊎◌, arith, ok, err, ℕ, List, some, none, bytes_eq→eq, eq→bytes_eq,
}
use desk_unlock.Pairing.Types.{
  Operation, wrong_transaction, StatusState, StatusMessage, Phase, Role,
}
use desk_unlock.Pairing.State.{
  Transaction, status, validate, reconcile_status, from_recovery_status, recovered,
}
use desk_unlock.Pairing.Transaction.{apply_status_response}

abbrev pub IsAborted : Phase → Type 0
IsAborted p = (op : Operation) × (p ≡ Phase.aborted op)

-- When two sides reconcile with each other's status, one never ends bonded and the other aborted.
pub reconcile_agrees :
    (t u : Transaction)
    → (reconcile_status t (status u)).0.phase ≡ Phase.bonded
    → ¬ IsAborted (reconcile_status u (status t)).0.phase
unfolding reconcile_status status
reconcile_agrees t u h a = ground arith

-- A bonded side stays bonded exactly if the peer reports committed or bonded; any other report,
-- a pending commit included, leaves it uncertain.
reconcile_bonded :
    (t : Transaction) (s : StatusState)
    → t.phase ≡ Phase.bonded
    → let p = (reconcile_status t s).0.phase in
      (p ≡ Phase.bonded) × ((s ≡ StatusState.committed) ⊎ (s ≡ StatusState.bonded))
      ⊎ (p ≡ Phase.uncertain) × (s ≢ StatusState.committed) × (s ≢ StatusState.bonded)
unfolding reconcile_status status
reconcile_bonded t s h = ground arith

-- A peer with a pending commit that meets a bonded side becomes bonded, and by the same exchange
-- makes the bonded side uncertain.
reconcile_pending_with_bonded :
    (t u : Transaction)
    → t.phase ≡ Phase.commit_pending
    → u.phase ≡ Phase.bonded
    → ((reconcile_status t (status u)).0.phase ≡ Phase.bonded)
      × ((reconcile_status u (status t)).0.phase ≡ Phase.uncertain)
unfolding reconcile_status status
reconcile_pending_with_bonded t u h k = (ground arith, ground arith)

-- A response that names this transaction, echoes the query's nonce and carries a state is a
-- reconciliation with that state.
pub apply_status_response_current :
    (t : Transaction) (r : StatusMessage) (nonce : ℕ) (s : StatusState)
    → r ≡ record { transaction = t.id; nonce = nonce; state = some s }
    → apply_status_response t r nonce ≡ reconcile_status t s
unfolding apply_status_response
apply_status_response_current t r nonce s e = ground (arith, eq→bytes_eq r.transaction t.id)

-- A response of another transaction, one that echoes another nonce, and one without a state change
-- nothing and are an error.
pub apply_status_response_stale :
    (t : Transaction) (r : StatusMessage) (nonce : ℕ)
    → (r.transaction ≢ t.id) ⊎ (r.nonce ≢ nonce) ⊎ (r.state ≡ none)
    → apply_status_response t r nonce ≡ (t, err wrong_transaction)
unfolding apply_status_response
apply_status_response_stale t r nonce bad = ground (arith, bytes_eq→eq r.transaction t.id)

-- Restoring any durable state succeeds, as a transaction that `validate` accepts and that reports
-- that same state.
from_recovery_status-status :
    (id : List ℕ) (role : Role) (s : StatusState)
    → (t : Transaction) × (from_recovery_status id role s ≡ ok t)
      × (status t ≡ s)
      × (validate t ≡ ok tt)
      × (t.id ≡ id)
unfolding from_recovery_status validate status
from_recovery_status-status id role s =
    (recovered id role s, ground arith, ground arith, ground arith, ground arith)
