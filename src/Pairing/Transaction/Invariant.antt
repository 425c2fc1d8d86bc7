-- ===== src/Pairing/Transaction/Invariant.antt =====
-- The flags that a phase allows: those of the rounds passed are all set, those of the rounds ahead
-- are clear. `validate` checks half of it when a transaction is restored.
use desk_unlock.Prelude.{◌≡◌, refl, Bool, true, not, ◌&&◌, false, ◌↔◌, arith, ok, List, ℕ}
use desk_unlock.Pairing.Types.{
  StatusState, StatusMessage, Phase, Role, LocalEvent, Message, Flags, is_both,
}
use desk_unlock.Pairing.State.{Transaction, new, validate, reconcile_status}
use desk_unlock.Pairing.Transaction.{local, remote, apply_status_response}

abbrev is_neither : Flags → Bool
is_neither f = not f.mine && not f.peer

-- A step-by-step form of the invariant, over the phase and the four pairs of flags.
abbrev in_order : Phase → Flags → Flags → Flags → Flags → Bool
in_order Phase.negotiating cap con pre fin = is_neither con && is_neither pre && is_neither fin
in_order Phase.oob_pending cap con pre fin =
    is_both cap && not (is_both con) && is_neither pre && is_neither fin
in_order Phase.preparing cap con pre fin =
    is_both cap && is_both con && not (is_both pre) && is_neither fin
in_order Phase.prepared cap con pre fin =
    is_both cap && is_both con && is_both pre && is_neither fin
in_order Phase.commit_pending cap con pre fin =
    is_both cap && is_both con && is_both pre && is_neither fin
in_order Phase.committed cap con pre fin =
    is_both cap && is_both con && is_both pre && not (is_both fin)
in_order Phase.bonded cap con pre fin = is_both cap && is_both con && is_both pre && is_both fin
in_order (Phase.aborted _) cap con pre fin = true
in_order Phase.uncertain cap con pre fin = true

abbrev pub IsInOrder : Transaction → Type 0
IsInOrder t = in_order t.phase t.capabilities t.confirmed t.prepared t.committed ≡ true

abbrev IsValid : Transaction → Type 0
IsValid t = validate t ≡ ok tt

pub new-IsInOrder : (id : List ℕ) (role : Role) → IsInOrder (new id role)
unfolding new
new-IsInOrder id role = refl

pub local-IsInOrder : (t : Transaction) (e : LocalEvent) → IsInOrder t → IsInOrder (local t e).0
unfolding local
local-IsInOrder t e v = ground arith

pub remote-IsInOrder : (t : Transaction) (m : Message) → IsInOrder t → IsInOrder (remote t m).0
unfolding remote
remote-IsInOrder t m v = ground arith

reconcile_status-IsInOrder :
    (t : Transaction) (s : StatusState) → IsInOrder t → IsInOrder (reconcile_status t s).0
unfolding reconcile_status
reconcile_status-IsInOrder t s v = ground arith

pub apply_status_response-IsInOrder :
    (t : Transaction) (r : StatusMessage) (nonce : ℕ)
    → IsInOrder t
    → IsInOrder (apply_status_response t r nonce).0
unfolding apply_status_response
apply_status_response-IsInOrder t r nonce v = grind (arith, reconcile_status-IsInOrder)

-- The one ordered state that `validate` refuses: this side offered the protocol before the peer.
abbrev IsEarlyOffer : Transaction → Type 0
IsEarlyOffer t =
    (t.phase ≡ Phase.negotiating) × (t.capabilities.mine ≡ true) × (t.capabilities.peer ≡ false)

-- A transaction with its flags in order is valid exactly if it is not an early offer: a negotiating
-- one that offered the protocol before the peer.
validate-IsInOrder : (t : Transaction) → IsInOrder t → IsValid t ↔ ¬ IsEarlyOffer t
unfolding validate
validate-IsInOrder t v = (λ h e. ground arith, λ n. ground arith)
