-- ===== src/Examples/CommitRuns.antt =====
-- Requests to the daemon's storage and reconciliations on concrete inputs.
use desk_unlock.Prelude.{
  ◌≡◌, ◌⊎◌, ◌↔◌, ◌++◌, refl, inl, inr, ℕ, true, false, List, [], ◌∷◌, some, none, ok, err, arith,
  replicate, utf8, is_utf8,
}
use desk_unlock.Engine.Actions.{PairCommitPhase}
use desk_unlock.Pairing.Types.{StatusState, StatusMessage, Role}
use desk_unlock.Pairing.State.{recovered}
use desk_unlock.Bonds.Store.{Disk, load, find, mark_revoked, with_revoked, check_ids}
use desk_unlock.Bonds.Journal.{
  JournalState, JournalRecord, JournalError, journal_text, parse_journal, line, transaction_name,
  chomp, parse_id, find_field, strip_prefix, lines, lines_from, version_line, peer_id_name,
  peer_address_name,
}
use desk_unlock.Bonds.Journal.RoundTrip.{IsJournal, parse_journal-journal_text}
use desk_unlock.Bonds.Journal.Panics.{CutsCharacter, parse_journal_panics}
use desk_unlock.Bonds.Recovery.{Files, Journal}
use desk_unlock.Bonds.Recovery.Safety.{trust}
use desk_unlock.Bonds.Recovery.Backing.{bonds_of}
use desk_unlock.Bonds.Recovery.Activation.{journal_of}
use desk_unlock.Presence.Commits.{
  Machine, PairCommitRequest, handle, staged_bond, pair_commit_consumer, any_bonded, revoke_in,
  save_revoked, bond_dir_has_a_bonded_peer,
}
use desk_unlock.Presence.Commits.Trust.{handle-trust}
use desk_unlock.Presence.Commits.Revocation.{handle-IsRevocation, IsAnswered, Spares}
use desk_unlock.Presence.Commits.Sequence.{
  consumer_establishes_trust, pairing, unfinished, answered,
}
use desk_unlock.Reconcile.{
  ReconcileResult, Phone, Attempt, apply_status_decision, run_reconcile, recover, query,
}
use desk_unlock.Reconcile.Decision.{verdict, carried_out, apply_status_decision-verdict}
use desk_unlock.Reconcile.Safety.{run_reconcile-trust, Confirms}
use desk_unlock.Reconcile.Resume.{reconcile_resumes}
use desk_unlock.Examples.RecoveryRuns.{
  other_id, bond_of, active, paired, id_of, active_loads, active-IsDistinct,
}

abbrev machine : Machine
machine = record {
  peer_id_of = id_of;
  bond_key_of = λ _ _. replicate 32 9;
  display_name = λ _. some "Pixel 8";
  hex_encode = λ _. "a1";
}

abbrev request_for : PairCommitPhase → PairCommitRequest
request_for phase = record {
  phase = phase;
  transaction = replicate 16 7;
  phone_pubkey = replicate 32 5;
  host_pubkey = replicate 32 4;
  peer = "AA:BB";
}

abbrev staging : PairCommitRequest
staging = request_for PairCommitPhase.stage

abbrev unfailing : Files
unfailing = record { directory = paired; faults = [] }

-- The bonds cannot be read again.
abbrev unreadable_later : Files
unreadable_later = record { directory = paired; faults = none ∷ none ∷ none ∷ some 0 ∷ [] }

-- The write of the staged key fails.
abbrev failing : Files
failing = record { directory = paired; faults = none ∷ some 0 ∷ [] }

handle-trust_example : trust (handle machine 4 staging failing).1.directory ≡ trust paired
handle-trust_example =
    handle-trust machine 4 staging failing (λ h. ground arith) (λ h. ground arith)

abbrev revoking : PairCommitRequest
revoking = request_for PairCommitPhase.revoke

handle-IsRevocation_example :
    IsAnswered machine "a1" unreadable_later (handle machine 4 revoking unreadable_later)
    × Spares "b2" unreadable_later (handle machine 4 revoking unreadable_later).1
handle-IsRevocation_example =
    handle-IsRevocation machine 4 revoking unreadable_later "b2" refl other_id

-- The last bond is revoked, and the daemon stops.
revoked_last :
    (handle machine 4 revoking unfailing).0 ≡ record { reply = true; reload = false; stop = true }
unfolding handle revoke_in save_revoked bond_dir_has_a_bonded_peer any_bonded load check_ids find
    mark_revoked with_revoked
revoked_last = refl

abbrev staged_journal : JournalRecord
staged_journal = journal_of (replicate 16 7) "a1" "AA:BB" JournalState.pre_commit

staged_journal-IsJournal : IsJournal staged_journal
unfolding utf8 is_utf8 chomp
staged_journal-IsJournal = (refl, omega arith, (omega arith, refl), (omega arith, refl), refl, refl)

consumer_establishes_trust_example :
    let (answers, after) = pair_commit_consumer machine (pairing 4 staging) unfailing in
    let new = after.directory in
    (answers ≡ answered false ∷ answered false ∷ answered true ∷ [])
    × (find (bonds_of new.active_bonds) "a1" ≡ some (staged_bond machine 4 staging))
    × (new.active_key "a1" ≡ some (replicate 32 9))
    × (find (bonds_of new.active_bonds) "b2" ≡ find active.bonds "b2")
    × (new.active_key "b2" ≡ paired.active_key "b2")
    × (new.pending_bonds ≡ Disk.missing)
    × (new.pending_key "a1" ≡ none)
    × (new.journal ≡ Journal.absent)
consumer_establishes_trust_example =
    consumer_establishes_trust machine 4 staging paired active "b2" active_loads active-IsDistinct
      refl staged_journal-IsJournal other_id

-- A phone that answers with one state.
abbrev says : StatusState → Phone
says state address q =
    ok (record { transaction = q.transaction; nonce = q.nonce; state = some state })

reconcile_resumes_example :
    let (_, cut_off) = pair_commit_consumer machine (unfinished 4 staging) unfailing in
    let (result, after) = run_reconcile id_of (says StatusState.bonded) 77 cut_off in
    let new = after.directory in
    (result ≡ ok ReconcileResult.bonded)
    × (find (bonds_of new.active_bonds) "a1" ≡ some (staged_bond machine 4 staging))
    × (new.active_key "a1" ≡ some (replicate 32 9))
    × (new.pending_bonds ≡ Disk.missing)
    × (new.pending_key "a1" ≡ none)
    × (new.journal ≡ Journal.absent)
reconcile_resumes_example =
    reconcile_resumes machine 4 staging paired active (says StatusState.bonded) 77
      StatusState.bonded active_loads active-IsDistinct refl staged_journal-IsJournal (inr refl)
      refl

-- The files that a pairing leaves which is cut off before its promotion.
abbrev interrupted : Files
interrupted = (pair_commit_consumer machine (unfinished 4 staging) unfailing).1

run_reconcile-trust_example :
    (trust (run_reconcile id_of (says StatusState.aborted) 77 interrupted).1.directory
      ≡ trust interrupted.directory)
    ⊎ ((a : Attempt) × (r : StatusMessage) × (recover id_of interrupted.directory ≡ ok a)
        × (says StatusState.aborted a.address (query a.id 77) ≡ ok r)
        × Confirms a 77 r)
run_reconcile-trust_example = run_reconcile-trust id_of (says StatusState.aborted) 77 interrupted

apply_status_decision-verdict_example :
    apply_status_decision id_of
      (bond_of "a1" "phone")
      (recovered (replicate 16 7) Role.coordinator StatusState.pre_commit)
      (record { transaction = replicate 16 7; nonce = 77; state = some StatusState.aborted })
      77
      unfailing
    ≡ carried_out id_of "a1" (verdict StatusState.pre_commit StatusState.aborted) unfailing
apply_status_decision-verdict_example =
    apply_status_decision-verdict id_of (bond_of "a1" "phone") (replicate 16 7) 77
      StatusState.pre_commit StatusState.aborted
      (record { transaction = replicate 16 7; nonce = 77; state = some StatusState.aborted })
      unfailing (inl refl) refl

abbrev marked : JournalRecord
marked = journal_of (replicate 16 7) "a1" "AA:BB" JournalState.commit_pending

parse_journal-journal_text_example : parse_journal (journal_text marked) ≡ ok marked
parse_journal-journal_text_example = parse_journal-journal_text marked staged_journal-IsJournal

-- The identifier's second pair of digits is cut within a character.
abbrev cut_digits : List ℕ
cut_digits = b'0' ∷ b'1' ∷ b'0' ∷ 195 ∷ 169 ∷ replicate 27 48

-- A whole journal but for its identifier.
abbrev cut_journal : List ℕ
cut_journal =
    (version_line ++ 10 ∷ [])
    ++ line peer_id_name (b'a' ∷ [])
    ++ line transaction_name cut_digits
    ++ line peer_address_name (b'b' ∷ [])

cut_journal-is_utf8 : is_utf8 cut_journal ≡ true
unfolding is_utf8
cut_journal-is_utf8 = refl

cut_journal_field : find_field transaction_name (lines cut_journal) ≡ some cut_digits
unfolding find_field strip_prefix lines_from chomp
cut_journal_field = refl

parse_journal_panics_example :
    (parse_journal cut_journal ≡ err JournalError.panicked) ↔ CutsCharacter cut_digits
parse_journal_panics_example =
    parse_journal_panics cut_journal cut_digits cut_journal-is_utf8 cut_journal_field refl

cut_digits-CutsCharacter : CutsCharacter cut_digits
unfolding parse_id
cut_digits-CutsCharacter = (
  b'0' ∷ b'1' ∷ [],
  replicate 27 48,
  1 ∷ [],
  b'0',
  195,
  169,
  refl,
  refl,
  omega arith,
  omega arith,
)

-- So this journal makes the reader panic.
cut_journal_panics : parse_journal cut_journal ≡ err JournalError.panicked
cut_journal_panics =
    (parse_journal_panics cut_journal cut_digits cut_journal-is_utf8 cut_journal_field refl).1
      cut_digits-CutsCharacter
