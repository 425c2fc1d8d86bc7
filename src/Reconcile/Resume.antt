-- ===== src/Reconcile/Resume.antt =====
-- A pairing that is cut off after the commit was marked, and that the command of
-- crates/syauth-cli/src/reconcile.rs finishes from what crates/syauth-presenced/src/runtime.rs has left.
use desk_unlock.Prelude.{
  ℕ, ◌≡◌, ◌⊎◌, inl, inr, refl, ap, ◌∙◌, none, some, List, [], ◌∷◌, String, ok, length, utf8,
  bytes_eq, eq→bytes_eq, str_eq_refl, arith,
}
use desk_unlock.Pairing.Types.{StatusState, Role}
use desk_unlock.Pairing.State.{recovered, from_recovery_status, validate}
use desk_unlock.Bonds.Store.{Bond, BondStore, Disk, load, find}
use desk_unlock.Bonds.Laws.{IsDistinct}
use desk_unlock.Bonds.Journal.{
  JournalState, find_field, parse_transaction, transaction_name, peer_id_name, peer_address_name,
  state_name, hex, commit_pending_text,
}
use desk_unlock.Bonds.Journal.RoundTrip.{
  IsJournal, journal_text-is_utf8, journal_lines, journal_fields, parse_transaction-hex,
}
use desk_unlock.Bonds.Recovery.{Directory, Journal, saved}
use desk_unlock.Bonds.Recovery.Backing.{bonds_of}
use desk_unlock.Bonds.Recovery.Activation.{
  journal_of, staged_in, promote_runs, replaced_ok, unfailing, alone_loads,
}
use desk_unlock.Presence.Commits.{Machine, PairCommitRequest, staged_bond, pair_commit_consumer}
use desk_unlock.Presence.Commits.Sequence.{
  unfinished, journal_for, key_for, handle_stage, handle_mark,
}
use desk_unlock.Reconcile.{
  ReconcileResult, Attempt, Phone, query, recover, from_fields, with_status, run_reconcile,
}
use desk_unlock.Reconcile.Decision.{verdict, carried_out, apply_status_decision-verdict}

-- What the command reads of a journal that records the commit.
abbrev marked_attempt : Bond → List ℕ → String → Attempt
marked_attempt b t address = record {
  id = t;
  address = utf8 address;
  pending = b;
  recorded = StatusState.commit_pending;
  tx = recovered t Role.coordinator StatusState.commit_pending;
}

with_status-marked :
    (t : List ℕ) (address : String) (b : Bond)
    → with_status t (utf8 address) b (some commit_pending_text) ≡ ok (marked_attempt b t address)
unfolding with_status from_recovery_status validate bytes_eq
with_status-marked t address b = refl

from_fields-marked :
    (g : List ℕ → String) (t : List ℕ) (address : String) (b : Bond) (d : Directory)
    (fields : List (List ℕ))
    → d.pending_bonds ≡ saved (record { bonds = b ∷ [] })
    → g b.pubkey ≡ b.peer_id
    → parse_transaction (find_field transaction_name fields) ≡ ok t
    → find_field peer_id_name fields ≡ some (utf8 b.peer_id)
    → find_field peer_address_name fields ≡ some (utf8 address)
    → find_field state_name fields ≡ some commit_pending_text
    → from_fields g d fields ≡ ok (marked_attempt b t address)
unfolding from_fields
from_fields-marked g t address b d fields p own tx id at state =
    rw (p, tx, id, at, state, from_fields)
      (rw (alone_loads g b own, eq→bytes_eq (utf8 b.peer_id) (utf8 b.peer_id) refl)
        (with_status-marked t address b))

recover-marked :
    (g : List ℕ → String) (t : List ℕ) (address : String) (b : Bond) (key : List ℕ) (d : Directory)
    → g b.pubkey ≡ b.peer_id
    → IsJournal (journal_of t b.peer_id address JournalState.commit_pending)
    → recover g (staged_in d (journal_of t b.peer_id address JournalState.commit_pending) b key)
      ≡ ok (marked_attempt b t address)
unfolding recover
recover-marked g t address b key d own (n, bytes, p, a, pu, au) =
    let j = journal_of t b.peer_id address JournalState.commit_pending in
    let dir = staged_in d j b key in
    let (tx, id, at, state) =
      journal_fields (hex t) (utf8 b.peer_id) (utf8 address) commit_pending_text in
    rw (journal_text-is_utf8 j bytes pu au, journal_lines j bytes p a)
      (from_fields-marked g t address b dir _ refl own
        (ap parse_transaction tx ∙ parse_transaction-hex t n bytes) id at state)

verdict-committed :
    (remote : StatusState)
    → (remote ≡ StatusState.committed) ⊎ (remote ≡ StatusState.bonded)
    → verdict StatusState.commit_pending remote ≡ ReconcileResult.bonded
unfolding verdict
verdict-committed remote c = ground arith

run-marked :
    (g : List ℕ → String) (phone : Phone) (nonce : ℕ) (remote : StatusState) (t : List ℕ)
    (address : String) (b : Bond) (key : List ℕ) (d : Directory)
    → g b.pubkey ≡ b.peer_id
    → IsJournal (journal_of t b.peer_id address JournalState.commit_pending)
    → (remote ≡ StatusState.committed) ⊎ (remote ≡ StatusState.bonded)
    → phone (utf8 address) (query t nonce)
      ≡ ok (record { transaction = t; nonce = nonce; state = some remote })
    → let s =
        unfailing
          (staged_in d (journal_of t b.peer_id address JournalState.commit_pending) b key) in
      run_reconcile g phone nonce s ≡ carried_out g b.peer_id ReconcileResult.bonded s
unfolding run_reconcile
run-marked g phone nonce remote t address b key d own is c answers =
    let s =
      unfailing (staged_in d (journal_of t b.peer_id address JournalState.commit_pending) b key) in
    rw (recover-marked g t address b key d own is, run_reconcile)
      (rw answers (
        apply_status_decision-verdict g b t nonce StatusState.commit_pending remote _ s
          (inr (inl refl)) refl
        ∙ ap (λ v. carried_out g b.peer_id v s) (verdict-committed remote c)))

-- A pairing that is cut off after its commit was marked is finished by a reconciliation: if the phone
-- at the request's address answers the query of the transaction that it has committed or is bonded, the
-- result is bonded, and the phone has the bond and the key that the daemon had staged, with nothing left
-- staged. No call of the file system fails, the active store loads with one bond for each peer, the
-- transaction has 16 bytes, and the phone's identifier and address each stand on one line.
pub reconcile_resumes :
    (m : Machine) (now : ℕ) (r : PairCommitRequest) (d : Directory) (active : BondStore)
    (phone : Phone) (nonce : ℕ) (remote : StatusState)
    → load m.peer_id_of d.active_bonds ≡ ok active
    → IsDistinct active.bonds
    → length (m.bond_key_of r.host_pubkey r.phone_pubkey) ≡ 32
    → IsJournal
        (journal_of r.transaction (m.peer_id_of r.phone_pubkey) r.peer JournalState.pre_commit)
    → (remote ≡ StatusState.committed) ⊎ (remote ≡ StatusState.bonded)
    → phone (utf8 r.peer) (query r.transaction nonce)
      ≡ ok (record { transaction = r.transaction; nonce = nonce; state = some remote })
    → let (_, cut_off) =
        pair_commit_consumer m (unfinished now r) (record { directory = d; faults = [] }) in
      let (result, after) = run_reconcile m.peer_id_of phone nonce cut_off in
      let new = after.directory in
      let id = m.peer_id_of r.phone_pubkey in
      (result ≡ ok ReconcileResult.bonded)
      × (find (bonds_of new.active_bonds) id ≡ some (staged_bond m now r))
      × (new.active_key id ≡ some (m.bond_key_of r.host_pubkey r.phone_pubkey))
      × (new.pending_bonds ≡ Disk.missing)
      × (new.pending_key id ≡ none)
      × (new.journal ≡ Journal.absent)
unfolding pair_commit_consumer carried_out
reconcile_resumes m now r d active phone nonce remote l distinct n is c answers =
    let b = staged_bond m now r in
    let (store, e, mine) = replaced_ok active b distinct in
    let id = m.peer_id_of r.phone_pubkey in
    let key = key_for m r in
    let j = journal_for m r JournalState.commit_pending in
    rw
      (
        handle_stage m now r d,
        handle_mark m now r d is,
        run-marked m.peer_id_of phone nonce remote r.transaction r.peer b key d refl is c answers,
        promote_runs m.peer_id_of j b key d {active = active} {store = store} l e refl n,
      )
      (refl, mine, rw (str_eq_refl id) refl, refl, rw (str_eq_refl id) refl, refl)
