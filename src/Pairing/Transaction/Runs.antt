-- ===== src/Pairing/Transaction/Runs.antt =====
-- Histories: any sequence of local events, messages and reconciliations.
use desk_unlock.Prelude.{
  ◌≡◌, refl, subst, Bool, true, false, ◌⊎◌, inl, inr, List, [], ◌∷◌, arith, ℕ, bytes_eq→eq,
}
use desk_unlock.Pairing.Types.{Operation, StatusMessage, Phase, Role, LocalEvent, Message, is_both}
use desk_unlock.Pairing.State.{Transaction, new, reconcile_status}
use desk_unlock.Pairing.Transaction.{local, remote, apply_status_response}
use desk_unlock.Pairing.Transaction.Invariant.{
  IsInOrder, new-IsInOrder, local-IsInOrder, remote-IsInOrder, apply_status_response-IsInOrder,
}
use desk_unlock.Pairing.Transaction.Decisions.{
  is_decided, local_keeps_decision, remote_keeps_decision, reconcile_status_keeps_decision,
}

-- One call on a transaction; a response carries the nonce that the caller expects.
pub data Call : Type 0 where
  locally : LocalEvent → Call
  remotely : Message → Call
  responds : StatusMessage → ℕ → Call

unfoldable pub step : Transaction → Call → Transaction
step t (Call.locally e) = (local t e).0
step t (Call.remotely m) = (remote t m).0
step t (Call.responds r nonce) = (apply_status_response t r nonce).0

unfoldable pub run : Transaction → List Call → Transaction
run t [] = t
run t (c ∷ cs) = run (step t c) cs

step-IsInOrder : (t : Transaction) (c : Call) → IsInOrder t → IsInOrder (step t c)
unfolding step
step-IsInOrder t (Call.locally e) v = local-IsInOrder t e v
step-IsInOrder t (Call.remotely m) v = remote-IsInOrder t m v
step-IsInOrder t (Call.responds r nonce) v = apply_status_response-IsInOrder t r nonce v

run-IsInOrder : (t : Transaction) (cs : List Call) → IsInOrder t → IsInOrder (run t cs)
unfolding run
run-IsInOrder t [] v = v
run-IsInOrder t (c ∷ cs) v = run-IsInOrder (step t c) cs (step-IsInOrder t c v)

-- Bonded is reached only with all four pairs of flags complete, whatever the calls were.
pub bonded_is_bilateral :
    (id : List ℕ) (role : Role) (cs : List Call)
    → let t = run (new id role) cs in
      t.phase ≡ Phase.bonded
      → (is_both t.capabilities ≡ true)
        × (is_both t.confirmed ≡ true)
        × (is_both t.prepared ≡ true)
        × (is_both t.committed ≡ true)
bonded_is_bilateral id role cs h =
    ground (arith, run-IsInOrder (new id role) cs (new-IsInOrder id role))

step_keeps_decision :
    (t : Transaction) (c : Call) → is_decided t.phase ≡ true → is_decided (step t c).phase ≡ true
unfolding step apply_status_response
step_keeps_decision t (Call.locally e) h = local_keeps_decision t e h
step_keeps_decision t (Call.remotely m) h = remote_keeps_decision t m h
step_keeps_decision t (Call.responds r nonce) h = grind (arith, reconcile_status_keeps_decision)

-- Once a commit is decided, or its outcome is uncertain, no further calls abort the transaction or
-- take it back before the decision.
pub decision_is_final :
    (t : Transaction) (cs : List Call)
    → is_decided t.phase ≡ true
    → is_decided (run t cs).phase ≡ true
unfolding run
decision_is_final t [] h = h
decision_is_final t (c ∷ cs) h = decision_is_final (step t c) cs (step_keeps_decision t c h)

-- A confirm message of the attempt `id`.
abbrev pub IsPeerConfirm : List ℕ → Call → Type 0
IsPeerConfirm id (Call.locally e) = ⊥
IsPeerConfirm id (Call.remotely m) = (m.transaction ≡ id) × (m.operation ≡ Operation.confirm)
IsPeerConfirm id (Call.responds r nonce) = ⊥

-- A history holds a call with a property.
abbrev pub HasCall : (Call → Type 0) → List Call → Type 0
HasCall P [] = ⊥
HasCall P (c ∷ cs) = P c ⊎ HasCall P cs

step-id : (t : Transaction) (c : Call) → (step t c).id ≡ t.id
unfolding step local remote apply_status_response reconcile_status
step-id t (Call.locally e) = ground arith
step-id t (Call.remotely m) = ground arith
step-id t (Call.responds r nonce) = ground arith

-- Only a local confirmation sets this side's flag.
step_confirms_mine :
    (t : Transaction) (c : Call)
    → t.confirmed.mine ≡ false
    → (c ≡ Call.locally LocalEvent.confirm) ⊎ ((step t c).confirmed.mine ≡ false)
unfolding step local remote apply_status_response reconcile_status
step_confirms_mine t (Call.locally e) h = ground arith
step_confirms_mine t (Call.remotely m) h = ground arith
step_confirms_mine t (Call.responds r nonce) h = ground arith

-- Only a confirm message of this attempt sets the peer's.
step_confirms_peer :
    (t : Transaction) (c : Call)
    → t.confirmed.peer ≡ false
    → IsPeerConfirm t.id c ⊎ ((step t c).confirmed.peer ≡ false)
unfolding step local remote apply_status_response reconcile_status
step_confirms_peer t (Call.locally e) h = ground arith
step_confirms_peer t (Call.remotely m) h = ground (arith, bytes_eq→eq m.transaction t.id)
step_confirms_peer t (Call.responds r nonce) h = ground arith

run_confirms_mine :
    (t : Transaction) (cs : List Call)
    → t.confirmed.mine ≡ false
    → (run t cs).confirmed.mine ≡ true
    → HasCall (λ c. c ≡ Call.locally LocalEvent.confirm) cs
unfolding run
run_confirms_mine t [] h k = cc
run_confirms_mine t (c ∷ cs) h k = elim (step_confirms_mine t c h) [
  | inl e ↦ inl e
  | inr h' ↦ inr (run_confirms_mine (step t c) cs h' k)
]

run_confirms_peer :
    (t : Transaction) (cs : List Call)
    → t.confirmed.peer ≡ false
    → (run t cs).confirmed.peer ≡ true
    → HasCall (IsPeerConfirm t.id) cs
unfolding run
run_confirms_peer t [] h k = cc
run_confirms_peer t (c ∷ cs) h k = elim (step_confirms_peer t c h) [
  | inl e ↦ inl e
  | inr h' ↦ inr (
      subst (λ i. HasCall (IsPeerConfirm i) cs) (step-id t c)
        (run_confirms_peer (step t c) cs h' k))
]

-- The phases that a commit decision made on this side or the peer's leads to.
abbrev is_committing : Phase → Bool
is_committing Phase.commit_pending = true
is_committing Phase.committed = true
is_committing Phase.bonded = true
is_committing _ = false

-- No transaction commits unless the user confirmed here and the peer sent its confirmation for this
-- very attempt.
pub commit_needs_confirmations :
    (id : List ℕ) (role : Role) (cs : List Call)
    → is_committing (run (new id role) cs).phase ≡ true
    → HasCall (λ c. c ≡ Call.locally LocalEvent.confirm) cs × HasCall (IsPeerConfirm id) cs
unfolding new
commit_needs_confirmations id role cs h = (
  run_confirms_mine (new id role) cs refl
      (ground (arith, run-IsInOrder (new id role) cs (new-IsInOrder id role))),
  run_confirms_peer (new id role) cs refl
      (ground (arith, run-IsInOrder (new id role) cs (new-IsInOrder id role))),
)
