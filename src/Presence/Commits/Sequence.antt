-- ===== src/Presence/Commits/Sequence.antt =====
-- The requests of one successful pairing, as `pair_commit_consumer` of
-- crates/syauth-presenced/src/runtime.rs carries them out one after the other.
use desk_unlock.Prelude.{
  some, none, ℕ, ◌≡◌, refl, Bool, true, false, ok, str_eq_refl, str_neq, sym, ◌≢◌, String, List, [],
  ◌∷◌, length,
}
use desk_unlock.Engine.Actions.{PairCommitPhase}
use desk_unlock.Bonds.Store.{BondStore, Disk, load, find}
use desk_unlock.Bonds.Laws.{IsDistinct}
use desk_unlock.Bonds.Journal.{JournalState, JournalRecord}
use desk_unlock.Bonds.Journal.RoundTrip.{IsJournal}
use desk_unlock.Bonds.Recovery.{Directory, Files, Journal, replaced}
use desk_unlock.Bonds.Recovery.Backing.{bonds_of, find-replaced}
use desk_unlock.Bonds.Recovery.Marking.{mark_runs}
use desk_unlock.Bonds.Recovery.Activation.{
  journal_of, staged_in, stage_runs, promote_runs, replaced_ok, unfailing, with_peer,
}
use desk_unlock.Presence.Commits.{
  Machine, PairCommitRequest, Handled, handle, staged_bond, stage_pair_trust, pair_commit_consumer,
}

-- An answer of success, with or without the reload command.
abbrev pub answered : Bool → Handled
answered reload = record { reply = true; reload = reload; stop = false }

-- The requests of a pairing that is cut off before the promotion.
abbrev pub unfinished : ℕ → PairCommitRequest → List (ℕ × PairCommitRequest)
unfinished now r =
    (now, record r { phase = PairCommitPhase.stage })
    ∷ (now, record r { phase = PairCommitPhase.mark_commit })
    ∷ []

-- The requests of one pairing.
abbrev pub pairing : ℕ → PairCommitRequest → List (ℕ × PairCommitRequest)
pairing now r =
    (now, record r { phase = PairCommitPhase.stage })
    ∷ (now, record r { phase = PairCommitPhase.mark_commit })
    ∷ (now, record r { phase = PairCommitPhase.promote })
    ∷ []

abbrev pub journal_for : Machine → PairCommitRequest → JournalState → JournalRecord
journal_for m r state = journal_of r.transaction (m.peer_id_of r.phone_pubkey) r.peer state

abbrev pub key_for : Machine → PairCommitRequest → List ℕ
key_for m r = m.bond_key_of r.host_pubkey r.phone_pubkey

-- The staged directory, with the journal in one of its states.
abbrev pub in_state : Machine → ℕ → PairCommitRequest → Directory → JournalState → Files
in_state m now r d state =
    unfailing (staged_in d (journal_for m r state) (staged_bond m now r) (key_for m r))

pub handle_stage :
    (m : Machine) (now : ℕ) (r : PairCommitRequest) (d : Directory)
    → handle m now (record r { phase = PairCommitPhase.stage }) (unfailing d)
      ≡ (answered false, in_state m now r d JournalState.pre_commit)
unfolding handle stage_pair_trust
handle_stage m now r d =
    rw (stage_runs r.transaction r.peer (staged_bond m now r) (key_for m r) d) refl

pub handle_mark :
    (m : Machine) (now : ℕ) (r : PairCommitRequest) (d : Directory)
    → IsJournal (journal_for m r JournalState.pre_commit)
    → handle m now
        (record r { phase = PairCommitPhase.mark_commit })
        (in_state m now r d JournalState.pre_commit)
      ≡ (answered false, in_state m now r d JournalState.commit_pending)
unfolding handle
handle_mark m now r d is =
    rw
      (mark_runs (journal_for m r JournalState.pre_commit)
        (in_state m now r d JournalState.pre_commit).directory is refl)
      refl

handle_promote :
    (m : Machine) (now : ℕ) (r : PairCommitRequest) (d : Directory) {active store : BondStore}
    → load m.peer_id_of d.active_bonds ≡ ok active
    → replaced active (staged_bond m now r) ≡ ok store
    → length (key_for m r) ≡ 32
    → handle m now
        (record r { phase = PairCommitPhase.promote })
        (in_state m now r d JournalState.commit_pending)
      ≡ (answered true, unfailing (with_peer d (staged_bond m now r) (key_for m r) store))
unfolding handle
handle_promote m now r d {active} {store} l e n =
    rw
      (promote_runs m.peer_id_of (journal_for m r JournalState.commit_pending) (staged_bond m now r)
        (key_for m r) d {active = active} {store = store} l e refl n)
      refl

-- The requests of a pairing, made one after the other when no call of the file system fails and the
-- active store loads with one bond for each peer, are all answered with success, and leave the phone
-- with the bond and the key that were staged and with nothing staged, and every other peer with its own; the reload command goes out once,
-- for the promotion, and nothing stops the daemon. The transaction has 16 bytes, and the phone's
-- identifier and label each stand on one line.
pub consumer_establishes_trust :
    (m : Machine) (now : ℕ) (r : PairCommitRequest) (d : Directory) (active : BondStore)
    (j : String)
    → load m.peer_id_of d.active_bonds ≡ ok active
    → IsDistinct active.bonds
    → length (m.bond_key_of r.host_pubkey r.phone_pubkey) ≡ 32
    → IsJournal
        (journal_of r.transaction (m.peer_id_of r.phone_pubkey) r.peer JournalState.pre_commit)
    → j ≢ m.peer_id_of r.phone_pubkey
    → let (answers, after) =
        pair_commit_consumer m (pairing now r) (record { directory = d; faults = [] }) in
      let new = after.directory in
      let id = m.peer_id_of r.phone_pubkey in
      (answers ≡ answered false ∷ answered false ∷ answered true ∷ [])
      × (find (bonds_of new.active_bonds) id ≡ some (staged_bond m now r))
      × (new.active_key id ≡ some (m.bond_key_of r.host_pubkey r.phone_pubkey))
      × (find (bonds_of new.active_bonds) j ≡ find active.bonds j)
      × (new.active_key j ≡ d.active_key j)
      × (new.pending_bonds ≡ Disk.missing)
      × (new.pending_key id ≡ none)
      × (new.journal ≡ Journal.absent)
unfolding pair_commit_consumer
consumer_establishes_trust m now r d active j l distinct n is other =
    let (store, e, mine) = replaced_ok active (staged_bond m now r) distinct in
    let id = m.peer_id_of r.phone_pubkey in
    let differs = str_neq id j (λ h. other (sym h)) in
    rw
      (
        handle_stage m now r d,
        handle_mark m now r d is,
        handle_promote m now r d {active = active} {store = store} l e n,
      )
      (
        refl,
        mine,
        rw (str_eq_refl id) refl,
        find-replaced active (staged_bond m now r) j e other,
        rw differs refl,
        refl,
        rw (str_eq_refl id) refl,
        refl,
      )
