-- ===== src/Reconcile.antt =====
-- crates/syauth-cli/src/reconcile.rs: the command that finishes a pairing which was interrupted after it
-- had been staged. It reads the journal and the staged bond, asks the phone for its status, and promotes,
-- discards or keeps what is staged. The phone's answer at an address, with all that the Bluetooth
-- stack does for it, is a function that the command is given, and so is the nonce that it draws.
pub mod Decision
pub mod Safety
pub mod Resume
use desk_unlock.Prelude.{
  ℕ, Bool, true, false, not, ◌||◌, Option, none, some, List, [], ◌∷◌, String, if◌then◌else◌, Result,
  ok, err, ok_or, refuse_if, ◌>>=◌, ◌>>◌, bytes_eq, utf8, is_utf8,
}
use desk_unlock.Pairing.Types.{
  TransactionError, StatusState, StatusMessage, Phase, Role, LocalEvent,
}
use desk_unlock.Pairing.State.{Transaction, from_recovery_status, reconcile_status}
use desk_unlock.Pairing.Transaction.{Outcome, local, apply_status_response}
use desk_unlock.Bonds.Store.{Bond, BondError, load}
use desk_unlock.Bonds.Journal.{
  JournalError, find_field, lines, parse_transaction, transaction_name, peer_id_name,
  peer_address_name, state_name, pre_commit_text, commit_pending_text,
}
use desk_unlock.Bonds.Recovery.{RecoveryError, Journal, Directory, Files, promote, discard}

-- What the text of a rejected transaction tells.
pub data Reason : Type 0 where
  query_received : Reason
  rejected : TransactionError → Reason
  recovery : RecoveryError → Reason

pub data ReconcileError : Type 0 where
  no_journal malformed_journal io panicked : ReconcileError
  transport : String → ReconcileError
  transaction : Reason → ReconcileError
  bond : BondError → ReconcileError

pub data ReconcileResult : Type 0 where
  bonded aborted uncertain : ReconcileResult

-- `fs::read_to_string`, where any failure is an unavailable journal.
abbrev pub read_to_string : Journal → Option (List ℕ)
read_to_string Journal.absent = none
read_to_string Journal.unreadable = none
read_to_string (Journal.content text) = if is_utf8 text then some text else none

-- `hex_id` parses an identifier as `read_journal` does.
abbrev to_hex_error : JournalError → ReconcileError
to_hex_error JournalError.panicked = ReconcileError.panicked
to_hex_error _ = ReconcileError.malformed_journal

abbrev hex_result : Result JournalError (List ℕ) → Result ReconcileError (List ℕ)
hex_result (ok id) = ok id
hex_result (err e) = err (to_hex_error e)

abbrev pub hex_id : Option (List ℕ) → Result ReconcileError (List ℕ)
hex_id text = hex_result (parse_transaction text)

abbrev required {ℓ} : {A : Type ℓ} → Option A → Result ReconcileError A
required o = ok_or o ReconcileError.malformed_journal

abbrev bond_result {ℓ} : {A : Type ℓ} → Result BondError A → Result ReconcileError A
bond_result (ok a) = ok a
bond_result (err e) = err (ReconcileError.bond e)

abbrev pub first : List Bond → Option Bond
first [] = none
first (b ∷ _) = some b

abbrev aborted_text : List ℕ
aborted_text = b'a' ∷ b'b' ∷ b'o' ∷ b'r' ∷ b't' ∷ b'e' ∷ b'd' ∷ []

-- The state that the journal records, `commit_pending` if it records none.
abbrev pub local_status : Option (List ℕ) → Result ReconcileError StatusState
local_status none = ok StatusState.commit_pending
local_status (some text) =
    if bytes_eq text pre_commit_text
    then ok StatusState.pre_commit
    else if bytes_eq text commit_pending_text
    then ok StatusState.commit_pending
    else if bytes_eq text aborted_text
    then ok StatusState.aborted
    else err ReconcileError.malformed_journal

abbrev pub transaction_result {ℓ} :
    {A : Type ℓ} → Result TransactionError A → Result ReconcileError A
transaction_result (ok a) = ok a
transaction_result (err e) = err (ReconcileError.transaction (Reason.rejected e))

-- What `run_reconcile` has read before it asks the phone.
pub record Attempt : Type 0 where
  pub id : List ℕ
  pub address : List ℕ
  pub pending : Bond
  pub recorded : StatusState
  pub tx : Transaction

-- The transaction at the state that the journal records.
unfoldable pub with_status :
    List ℕ → List ℕ → Bond → Option (List ℕ) → Result ReconcileError Attempt
with_status id address pending state = do
  recorded ← local_status state
  tx ← transaction_result (from_recovery_status id Role.coordinator recorded)
  ok (record { id = id; address = address; pending = pending; recorded = recorded; tx = tx })

-- `run_reconcile` from the fields of the journal to the transaction.
unfoldable pub from_fields :
    (List ℕ → String) → Directory → List (List ℕ) → Result ReconcileError Attempt
from_fields peer_id_of d fields = do
  id ← hex_id (find_field transaction_name fields)
  peer_id ← required (find_field peer_id_name fields)
  address ← required (find_field peer_address_name fields)
  store ← bond_result (load peer_id_of d.pending_bonds)
  pending ← required (first store.bonds)
  refuse_if (not (bytes_eq (utf8 pending.peer_id) peer_id)) ReconcileError.malformed_journal
  with_status id address pending (find_field state_name fields)

unfoldable pub recover : (List ℕ → String) → Directory → Result ReconcileError Attempt
recover peer_id_of d = do
  text ← ok_or (read_to_string d.journal) ReconcileError.no_journal
  from_fields peer_id_of d (lines text)

abbrev pub Reconciled : Type 0
Reconciled = Result ReconcileError ReconcileResult × Files

-- `finalize`, and the result when it succeeds.
abbrev pub finalized : Result RecoveryError (Unit {0}) × Files → Reconciled
finalized (ok _, s) = (ok ReconcileResult.bonded, s)
finalized (err RecoveryError.io, s) = (err ReconcileError.io, s)
finalized (err e, s) = (err (ReconcileError.transaction (Reason.recovery e)), s)

-- The `match` on the phase that ends `apply_status_decision`.
abbrev pub conclude : (List ℕ → String) → Bond → Phase → Files → Reconciled
conclude peer_id_of pending Phase.bonded s = finalized (promote peer_id_of pending.peer_id s)
conclude peer_id_of pending (Phase.aborted _) s =
    (ok ReconcileResult.aborted, (discard pending.peer_id s).1)
conclude _ _ _ s = (ok ReconcileResult.uncertain, s)

abbrev is_unknown : StatusState → Bool
is_unknown StatusState.unknown = true
is_unknown _ = false

abbrev is_uncertain : Phase → Bool
is_uncertain Phase.uncertain = true
is_uncertain _ = false

-- A reconciliation with the phone's status, after this side's own commit.
abbrev reconciled_after : StatusState → Outcome → Result TransactionError Phase
reconciled_after remote (tx, ok _) = (reconcile_status tx remote).1
reconciled_after remote (tx, err e) = err e

-- The phase after the block on a committed transaction.
abbrev pub settled_phase : Transaction → StatusState → Result TransactionError Phase
settled_phase tx remote = elim tx.phase [
  | Phase.committed ↦ reconciled_after remote (local tx LocalEvent.committed)
  | p ↦ ok p
]

abbrev concluded : (List ℕ → String) → Bond → Result TransactionError Phase → Files → Reconciled
concluded peer_id_of pending (ok p) s = conclude peer_id_of pending p s
concluded peer_id_of pending (err e) s = (err (ReconcileError.transaction (Reason.rejected e)), s)

-- What follows the response to the transaction.
abbrev applied :
    (List ℕ → String)
    → Bond
    → StatusState
    → Transaction × Result TransactionError Phase
    → Files
    → Reconciled
applied peer_id_of pending remote (tx, err e) s =
    (err (ReconcileError.transaction (Reason.rejected e)), s)
applied peer_id_of pending remote (tx, ok _) s =
    let act = concluded peer_id_of pending (settled_phase tx remote) s in
    if is_unknown remote || is_uncertain tx.phase then (ok ReconcileResult.uncertain, s) else act

unfoldable pub apply_status_decision :
    (List ℕ → String) → Bond → Transaction → StatusMessage → ℕ → Files → Reconciled
apply_status_decision peer_id_of pending tx response nonce s = elim response.state [
  | none ↦ (err (ReconcileError.transaction Reason.query_received), s)
  | some remote ↦ applied peer_id_of pending remote (apply_status_response tx response nonce) s
]

-- What the phone at an address answers to a status message.
abbrev pub Phone : Type 0
Phone = List ℕ → StatusMessage → Result ReconcileError StatusMessage

abbrev pub query : List ℕ → ℕ → StatusMessage
query id nonce = record { transaction = id; nonce = nonce; state = none }

abbrev pub decide :
    (List ℕ → String) → ℕ → Attempt → Result ReconcileError StatusMessage → Files → Reconciled
decide peer_id_of nonce a (ok response) s =
    apply_status_decision peer_id_of a.pending a.tx response nonce s
decide peer_id_of nonce a (err e) s = (err e, s)

abbrev pub attempt :
    (List ℕ → String) → Phone → ℕ → Result ReconcileError Attempt → Files → Reconciled
attempt peer_id_of phone nonce (ok a) s =
    decide peer_id_of nonce a (phone a.address (query a.id nonce)) s
attempt peer_id_of phone nonce (err e) s = (err e, s)

unfoldable pub run_reconcile : (List ℕ → String) → Phone → ℕ → Files → Reconciled
run_reconcile peer_id_of phone nonce s =
    attempt peer_id_of phone nonce (recover peer_id_of s.directory) s

-- Without a journal there is nothing to do, and a phone that is out of reach is no failure.
abbrev pub cli_result : Result ReconcileError ReconcileResult → Result ReconcileError (Unit {0})
cli_result (ok _) = ok tt
cli_result (err ReconcileError.no_journal) = ok tt
cli_result (err (ReconcileError.transport _)) = ok tt
cli_result (err e) = err e

unfoldable pub run_reconcile_cli :
    (List ℕ → String) → Phone → ℕ → Files → Result ReconcileError (Unit {0}) × Files
run_reconcile_cli peer_id_of phone nonce s =
    let (r, after) = run_reconcile peer_id_of phone nonce s in (cli_result r, after)
