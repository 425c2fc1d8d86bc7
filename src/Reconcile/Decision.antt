-- ===== src/Reconcile/Decision.antt =====
-- What `apply_status_decision` of crates/syauth-cli/src/reconcile.rs decides, against a table.
use desk_unlock.Prelude.{
  ℕ, ◌≡◌, ◌≢◌, ◌⊎◌, inl, inr, refl, arith, none, some, List, String, ok, err, true, bytes_eq,
  eq→bytes_eq, Option-cases,
}
use desk_unlock.Pairing.Types.{StatusState, StatusMessage, Role, wrong_transaction}
use desk_unlock.Pairing.State.{Transaction, recovered, reconcile_status, status}
use desk_unlock.Pairing.Transaction.{local, apply_status_response}
use desk_unlock.Pairing.Transaction.Reconcile.{apply_status_response_stale}
use desk_unlock.Bonds.Store.{Bond}
use desk_unlock.Bonds.Recovery.{Files, promote, discard}
use desk_unlock.Reconcile.{
  ReconcileResult, ReconcileError, Reason, Reconciled, apply_status_decision, finalized,
}

-- What the state in the journal and the phone's state amount to.
unfoldable pub verdict : StatusState → StatusState → ReconcileResult
verdict StatusState.commit_pending StatusState.committed = ReconcileResult.bonded
verdict StatusState.commit_pending StatusState.bonded = ReconcileResult.bonded
verdict StatusState.pre_commit StatusState.aborted = ReconcileResult.aborted
verdict StatusState.aborted StatusState.aborted = ReconcileResult.aborted
verdict StatusState.aborted StatusState.pre_commit = ReconcileResult.aborted
verdict _ _ = ReconcileResult.uncertain

-- A bonded peer is promoted, an aborted one loses what was staged, and the rest stays.
unfoldable pub carried_out : (List ℕ → String) → String → ReconcileResult → Files → Reconciled
carried_out peer_id_of id ReconcileResult.bonded s = finalized (promote peer_id_of id s)
carried_out peer_id_of id ReconcileResult.aborted s = (ok ReconcileResult.aborted, (discard id s).1)
carried_out peer_id_of id ReconcileResult.uncertain s = (ok ReconcileResult.uncertain, s)

-- The states that a journal can record.
abbrev pub IsRecorded : StatusState → Type 0
IsRecorded l =
    (l ≡ StatusState.pre_commit) ⊎ (l ≡ StatusState.commit_pending) ⊎ (l ≡ StatusState.aborted)

abbrev answer : List ℕ → ℕ → StatusState → StatusMessage
answer id nonce remote = record { transaction = id; nonce = nonce; state = some remote }

decided :
    (g : List ℕ → String) (b : Bond) (id : List ℕ) (nonce : ℕ) (l remote : StatusState) (s : Files)
    → IsRecorded l
    → bytes_eq id id ≡ true
    → apply_status_decision g b (recovered id Role.coordinator l) (answer id nonce remote) nonce s
      ≡ carried_out g b.peer_id (verdict l remote) s
unfolding apply_status_decision apply_status_response reconcile_status status local carried_out
    verdict
decided g b id nonce l remote s r e = ground arith

-- For a journal that records a state, a response of this transaction that echoes the nonce leads to what
-- the table says: the staged bond is promoted exactly if the commit was pending and the phone has
-- committed, and what was staged is discarded only if the phone and the journal agree that nothing was
-- committed.
pub apply_status_decision-verdict :
    (g : List ℕ → String) (b : Bond) (id : List ℕ) (nonce : ℕ) (l remote : StatusState)
    (response : StatusMessage) (s : Files)
    → IsRecorded l
    → response ≡ record { transaction = id; nonce = nonce; state = some remote }
    → apply_status_decision g b (recovered id Role.coordinator l) response nonce s
      ≡ carried_out g b.peer_id (verdict l remote) s
apply_status_decision-verdict g b id nonce l remote response s r e =
    rw e (decided g b id nonce l remote s r (eq→bytes_eq id id refl))

-- A response of another transaction, one that echoes another nonce, and one without a state are an
-- error that leaves every file as it was.
pub apply_status_decision_stale :
    (g : List ℕ → String) (b : Bond) (tx : Transaction) (nonce : ℕ) (response : StatusMessage)
    (s : Files)
    → (response.transaction ≢ tx.id) ⊎ (response.nonce ≢ nonce) ⊎ (response.state ≡ none)
    → (e : Reason) × (apply_status_decision g b tx response nonce s
        ≡ (err (ReconcileError.transaction e), s))
unfolding apply_status_decision
apply_status_decision_stale g b tx nonce response s n = elim (Option-cases response.state) [
  | inl e ↦ (Reason.query_received, rw (e, apply_status_decision) refl)
  | inr (remote, e) ↦ (
    Reason.rejected wrong_transaction,
    rw (e, apply_status_decision) (rw (apply_status_response_stale tx response nonce n) refl),
  )
]
