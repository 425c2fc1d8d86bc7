-- ===== src/Reconcile/Safety.antt =====
-- When the command of crates/syauth-cli/src/reconcile.rs touches the active bonds and keys.
use desk_unlock.Prelude.{
  ℕ, ◌≡◌, ◌≢◌, ◌⊎◌, inl, inr, refl, ap, ◌∙◌, arith, none, some, List, String, ok, Option, ◌==◌,
  bytes_eq, eq→bytes_eq, bytes_eq→eq, Option-cases, Result-cases, Bool-cases,
}
use desk_unlock.Pairing.Types.{StatusState, StatusMessage, Role}
use desk_unlock.Pairing.State.{Transaction, recovered, from_recovery_status, validate}
use desk_unlock.Bonds.Store.{Bond, load}
use desk_unlock.Bonds.Journal.{find_field, lines, transaction_name, peer_address_name, state_name}
use desk_unlock.Bonds.Recovery.{Files, Directory}
use desk_unlock.Bonds.Recovery.Safety.{trust, discard-trust}
use desk_unlock.Reconcile.{
  ReconcileResult, Reconciled, Attempt, Phone, apply_status_decision, recover, with_status,
  from_fields, hex_id, first, read_to_string, run_reconcile, decide, attempt, query, local_status,
}
use desk_unlock.Reconcile.Decision.{
  verdict, carried_out, IsRecorded, apply_status_decision-verdict, apply_status_decision_stale,
}

carried_out-trust :
    (g : List ℕ → String) (id : String) (r : ReconcileResult) (s : Files)
    → r ≢ ReconcileResult.bonded
    → trust (carried_out g id r s).1.directory ≡ trust s.directory
unfolding carried_out
carried_out-trust g id ReconcileResult.bonded s n = absurd (n refl)
carried_out-trust g id ReconcileResult.aborted s n = discard-trust id s
carried_out-trust g id ReconcileResult.uncertain s n = refl

-- An attempt's transaction is the one that its record describes.
abbrev IsRead : Attempt → Type 0
IsRead a = IsRecorded a.recorded × (a.tx ≡ recovered a.id Role.coordinator a.recorded)

local_status-IsRecorded :
    (text : Option (List ℕ)) {l : StatusState} → local_status text ≡ ok l → IsRecorded l
local_status-IsRecorded text {l} h = ground arith

with_status-IsRead :
    (id address : List ℕ) (pending : Bond) (state : Option (List ℕ)) {a : Attempt}
    → with_status id address pending state ≡ ok a
    → IsRead a
unfolding with_status from_recovery_status validate
with_status-IsRead id address pending state h = ground arith

fields-IsRead :
    (g : List ℕ → String) (d : Directory) (fields : List (List ℕ)) {a : Attempt}
    → from_fields g d fields ≡ ok a
    → IsRead a
unfolding from_fields
fields-IsRead g d fields {a} h =
    let state = find_field state_name fields in
    elim (Result-cases (hex_id (find_field transaction_name fields))) [
      | inr (x, e) ↦ absurd (ground (arith, e))
      | inl (id, e) ↦ elim (Option-cases (find_field peer_address_name fields)) [
        | inl k ↦ absurd (ground (arith, e, k))
        | inr (address, k) ↦ elim (Result-cases (load g d.pending_bonds)) [
          | inr (x, l) ↦ absurd (ground (arith, e, k, l))
          | inl (store, l) ↦ elim (Option-cases (first store.bonds)) [
            | inl f ↦ absurd (ground (arith, e, k, l, f))
            | inr (b, f) ↦ ground (arith, e, k, l, f, with_status-IsRead id address b state {a = a})
          ]
        ]
      ]
    ]

recover-IsRead : (g : List ℕ → String) (d : Directory) {a : Attempt} → recover g d ≡ ok a → IsRead a
unfolding recover
recover-IsRead g d {a} h = elim (Option-cases (read_to_string d.journal)) [
  | inl e ↦ absurd (ground (arith, e))
  | inr (text, e) ↦ fields-IsRead g d (lines text) {a = a} (ground (arith, e))
]

verdict-bonded :
    (l remote : StatusState)
    → (verdict l remote ≢ ReconcileResult.bonded)
      ⊎ ((l ≡ StatusState.commit_pending)
          × ((remote ≡ StatusState.committed) ⊎ (remote ≡ StatusState.bonded)))
unfolding verdict
verdict-bonded l remote = ground arith

-- The phone's answer confirms the commit of an attempt.
abbrev pub Confirms : Attempt → ℕ → StatusMessage → Type 0
Confirms a nonce r =
    (a.recorded ≡ StatusState.commit_pending)
    × (r.transaction ≡ a.id)
    × (r.nonce ≡ nonce)
    × ((r.state ≡ some StatusState.committed) ⊎ (r.state ≡ some StatusState.bonded))

response_of :
    (a : Attempt) (nonce : ℕ) (r : StatusMessage)
    → (((r.transaction ≢ a.id) ⊎ (r.nonce ≢ nonce) ⊎ (r.state ≡ none)))
      ⊎ ((remote : StatusState) × (r
            ≡ record { transaction = a.id; nonce = nonce; state = some remote }))
response_of a nonce r = elim (Option-cases r.state) [
  | inl e ↦ inl (inr (inr e))
  | inr (remote, e) ↦ elim (Bool-cases (r.nonce == nonce)) [
    | inr n ↦ inl (inr (inl (ground (arith, n))))
    | inl n ↦ elim (Bool-cases (bytes_eq r.transaction a.id)) [
      | inr t ↦ inl (inl λ h. ground (arith, t, eq→bytes_eq r.transaction a.id h))
      | inl t ↦ inr (remote, ground (arith, e, n, bytes_eq→eq r.transaction a.id t))
    ]
  ]
]

decide-trust :
    (g : List ℕ → String) (nonce : ℕ) (a : Attempt) (r : StatusMessage) (s : Files)
    → IsRead a
    → (trust (decide g nonce a (ok r) s).1.directory ≡ trust s.directory) ⊎ Confirms a nonce r
decide-trust g nonce a r s (is, tx) = elim (response_of a nonce r) [
  | inl bad ↦
      let same : a.tx.id ≡ a.id = ap (λ (t : Transaction). t.id) tx in
      let bad' : (r.transaction ≢ a.tx.id) ⊎ (r.nonce ≢ nonce) ⊎ (r.state ≡ none) = rw same bad in
      let (x, e) = apply_status_decision_stale g a.pending a.tx nonce r s bad' in
      inl (ap (λ (o : Reconciled). trust o.1.directory) e)
  | inr (remote, e) ↦ elim (verdict-bonded a.recorded remote) [
    | inl n ↦
        let runs : apply_status_decision g a.pending a.tx r nonce s
            ≡ carried_out g a.pending.peer_id (verdict a.recorded remote) s =
          rw tx (apply_status_decision-verdict g a.pending a.id nonce a.recorded remote r s is e) in
        inl (
          ap (λ (o : Reconciled). trust o.1.directory) runs
          ∙ carried_out-trust g a.pending.peer_id (verdict a.recorded remote) s n)
    | inr (l, c) ↦ inr (
      l,
      ap (λ (m : StatusMessage). m.transaction) e,
      ap (λ (m : StatusMessage). m.nonce) e,
      elim c [
        | inl k ↦ inl (ap (λ (m : StatusMessage). m.state) e ∙ ap some k)
        | inr k ↦ inr (ap (λ (m : StatusMessage). m.state) e ∙ ap some k)
      ],
    )
  ]
]

attempt-trust :
    (g : List ℕ → String) (phone : Phone) (nonce : ℕ) (a : Attempt) (s : Files)
    → IsRead a
    → (trust (attempt g phone nonce (ok a) s).1.directory ≡ trust s.directory)
      ⊎ ((r : StatusMessage) × (phone a.address (query a.id nonce) ≡ ok r) × Confirms a nonce r)
attempt-trust g phone nonce a s is = elim (Result-cases (phone a.address (query a.id nonce))) [
  | inr (x, e) ↦ inl (rw e refl)
  | inl (r, e) ↦ elim (decide-trust g nonce a r s is) [
    | inl t ↦ inl (rw e t)
    | inr c ↦ inr (r, e, c)
  ]
]

-- A reconciliation touches the active bonds and keys only if the journal records a pending commit, or
-- no state at all, and the phone at the journal's address answers the query of its transaction, with
-- the query's nonce, that it has committed or is bonded. That holds whichever calls of the file system
-- fail, and whatever else the phone may answer.
pub run_reconcile-trust :
    (g : List ℕ → String) (phone : Phone) (nonce : ℕ) (s : Files)
    → let after = (run_reconcile g phone nonce s).1 in
      (trust after.directory ≡ trust s.directory)
      ⊎ ((a : Attempt) × (r : StatusMessage) × (recover g s.directory ≡ ok a)
          × (phone a.address (query a.id nonce) ≡ ok r)
          × Confirms a nonce r)
unfolding run_reconcile
run_reconcile-trust g phone nonce s = elim (Result-cases (recover g s.directory)) [
  | inr (x, e) ↦ inl (rw (e, run_reconcile) refl)
  | inl (a, e) ↦ elim (attempt-trust g phone nonce a s (recover-IsRead g s.directory {a = a} e)) [
    | inl t ↦ inl (rw (e, run_reconcile) t)
    | inr (r, answers, c) ↦ inr (a, r, e, answers, c)
  ]
]
