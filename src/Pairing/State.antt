-- ===== src/Pairing/State.antt =====
-- The state of `Transaction` in crates/syauth-core/src/pair_transaction.rs: its record, `validate`, and
-- its status with recovery and reconciliation.
use desk_unlock.Prelude.{
  ℕ, Bool, true, false, not, ◌&&◌, ◌||◌, List, if◌then◌else◌, Result, ok, err, ◌>>◌,
}
use desk_unlock.Pairing.Types.{
  Operation, TransactionError, invalid_transition, StatusState, Phase, Role, Flags, both, neither,
  is_both,
}

-- `id` is `[u8; 16]`.
pub record Transaction : Type 0 where
  pub id : List ℕ
  pub role : Role
  pub phase : Phase
  pub capabilities : Flags
  pub confirmed : Flags
  pub prepared : Flags
  pub committed : Flags

unfoldable pub new : List ℕ → Role → Transaction
new id role = record {
  id = id;
  role = role;
  phase = Phase.negotiating;
  capabilities = neither;
  confirmed = neither;
  prepared = neither;
  committed = neither;
}

-- The `match` on the phase in `validate`.
abbrev valid : Phase → Flags → Flags → Flags → Flags → Bool
valid Phase.negotiating cap con pre fin = not cap.mine || cap.peer
valid Phase.oob_pending cap con pre fin = is_both cap && not (is_both con)
valid Phase.preparing cap con pre fin = is_both cap && is_both con && not (is_both pre)
valid Phase.prepared cap con pre fin =
    is_both cap && is_both con && is_both pre && not fin.mine && not fin.peer
valid Phase.commit_pending cap con pre fin =
    is_both cap && is_both con && is_both pre && not fin.mine && not fin.peer
valid Phase.committed cap con pre fin =
    is_both cap && is_both con && is_both pre && not (is_both fin)
valid Phase.bonded cap con pre fin = is_both cap && is_both con && is_both pre && is_both fin
valid (Phase.aborted _) cap con pre fin = true
valid Phase.uncertain cap con pre fin = true

unfoldable pub validate : Transaction → Result TransactionError (Unit {0})
validate t =
    if valid t.phase t.capabilities t.confirmed t.prepared t.committed
    then ok tt
    else err invalid_transition

abbrev recovered_phase : StatusState → Phase
recovered_phase StatusState.pre_commit = Phase.prepared
recovered_phase StatusState.commit_pending = Phase.commit_pending
recovered_phase StatusState.committed = Phase.committed
recovered_phase StatusState.bonded = Phase.bonded
recovered_phase StatusState.aborted = Phase.aborted Operation.error
recovered_phase StatusState.unknown = Phase.uncertain

abbrev recovered_committed : Phase → Flags
recovered_committed Phase.bonded = both
recovered_committed Phase.committed = record { mine = true; peer = false }
recovered_committed _ = neither

abbrev pub recovered : List ℕ → Role → StatusState → Transaction
recovered id role s = record {
  id = id;
  role = role;
  phase = recovered_phase s;
  capabilities = both;
  confirmed = both;
  prepared = both;
  committed = recovered_committed (recovered_phase s);
}

unfoldable pub from_recovery_status :
    List ℕ → Role → StatusState → Result TransactionError Transaction
unfolding validate
from_recovery_status id role s = do let tx = recovered id role s; validate tx; ok tx

abbrev phase_status : Phase → StatusState
phase_status Phase.negotiating = StatusState.pre_commit
phase_status Phase.oob_pending = StatusState.pre_commit
phase_status Phase.preparing = StatusState.pre_commit
phase_status Phase.prepared = StatusState.pre_commit
phase_status Phase.commit_pending = StatusState.commit_pending
phase_status Phase.uncertain = StatusState.unknown
phase_status Phase.committed = StatusState.committed
phase_status Phase.bonded = StatusState.bonded
phase_status (Phase.aborted _) = StatusState.aborted

unfoldable pub status : Transaction → StatusState
status t = phase_status t.phase

abbrev pub to_phase : Transaction → Phase → Transaction
to_phase t p = record t { phase = p }

abbrev pub to_bonded : Transaction → Transaction
to_bonded t = record t { phase = Phase.bonded; committed = both }

-- The `match (local, remote)` of `reconcile_status`, arm by arm.
unfoldable reconciled : StatusState → StatusState → Transaction → Transaction
reconciled StatusState.unknown _ t = to_phase t Phase.uncertain
reconciled _ StatusState.unknown t = to_phase t Phase.uncertain
reconciled StatusState.pre_commit StatusState.aborted t = to_phase t (Phase.aborted Operation.error)
reconciled StatusState.pre_commit StatusState.pre_commit t = t
reconciled StatusState.commit_pending StatusState.committed t = to_phase t Phase.committed
reconciled StatusState.commit_pending StatusState.bonded t = to_bonded t
reconciled StatusState.committed StatusState.commit_pending t = t
reconciled StatusState.committed StatusState.committed t = to_bonded t
reconciled StatusState.committed StatusState.bonded t = to_bonded t
reconciled StatusState.bonded StatusState.committed t = to_bonded t
reconciled StatusState.bonded StatusState.bonded t = to_bonded t
reconciled StatusState.aborted StatusState.aborted t = t
reconciled StatusState.aborted StatusState.pre_commit t = t
reconciled _ _ t = to_phase t Phase.uncertain

unfoldable pub reconcile_status :
    Transaction → StatusState → Transaction × Result TransactionError Phase
unfolding reconciled status
reconcile_status t remote = let t' = reconciled (status t) remote t in (t', ok t'.phase)
