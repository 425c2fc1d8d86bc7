-- ===== src/Bonds/Recovery/Marking.antt =====
-- What `mark_commit_pending` of crates/syauth-core/src/pair_recovery.rs makes of the files.
use desk_unlock.Prelude.{none, some, ◌≡◌, refl, ap, ◌∙◌, arith, ok, err, [], Option, Result}
use desk_unlock.Bonds.Journal.{
  JournalState, JournalRecord, JournalError, journal_text, parse_journal,
}
use desk_unlock.Bonds.Journal.RoundTrip.{IsJournal, parse_journal-journal_text}
use desk_unlock.Bonds.Recovery.{
  Directory, Files, Journal, read_from, read_journal, mark_commit_pending, write_journal, parsed,
  after, ◌>>=◌, require, RecoveryError,
}
use desk_unlock.Bonds.Recovery.Safety.{trust}

write_journal-trust :
    (j : JournalRecord) (s : Files) → trust (write_journal j s).1.directory ≡ trust s.directory
unfolding write_journal
write_journal-trust j s = ground arith

-- What `mark_commit_pending` does once the journal has been read.
abbrev marking :
    Result RecoveryError (Option JournalRecord) × Files → Result RecoveryError (Unit {0}) × Files
marking r =
    after
      (λ found.
        require found >>= λ j. write_journal (record j { state = JournalState.commit_pending }))
      r

marking-trust :
    (r : Result RecoveryError (Option JournalRecord)) (s : Files)
    → trust (marking (r, s)).1.directory ≡ trust s.directory
marking-trust (ok none) s = refl
marking-trust (ok (some j)) s =
    write_journal-trust (record j { state = JournalState.commit_pending }) s
marking-trust (err e) s = refl

parsed-keeps : (r : Result JournalError JournalRecord) (s : Files) → (parsed r s).1 ≡ s
parsed-keeps (ok j) s = refl
parsed-keeps (err JournalError.io) s = refl
parsed-keeps (err JournalError.malformed) s = refl
parsed-keeps (err JournalError.panicked) s = refl

read_from-keeps : (j : Journal) (s : Files) → (read_from j s).1 ≡ s
read_from-keeps Journal.absent s = refl
read_from-keeps Journal.unreadable s = refl
read_from-keeps (Journal.content text) s = parsed-keeps (parse_journal text) s

pub mark_commit_pending-trust :
    (s : Files) → trust (mark_commit_pending s).1.directory ≡ trust s.directory
unfolding mark_commit_pending read_journal
mark_commit_pending-trust s =
    let r = read_from s.directory.journal s in
    marking-trust r.0 r.1 ∙ ap (λ t. trust t.directory) (read_from-keeps s.directory.journal s)

-- A journal that can be read is written again, as pending.
pub mark_runs :
    (j : JournalRecord) (d : Directory)
    → IsJournal j
    → d.journal ≡ Journal.content (journal_text j)
    → mark_commit_pending (record { directory = d; faults = [] }) ≡ (
      ok tt,
      record {
        directory = record d {
          journal =
              Journal.content (journal_text (record j { state = JournalState.commit_pending }));
        };
        faults = [];
      },
    )
unfolding mark_commit_pending read_journal write_journal
mark_runs j d is e =
    rw (e, mark_commit_pending, read_journal) (rw (parse_journal-journal_text j is) refl)
