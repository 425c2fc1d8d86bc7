-- ===== src/Examples/RecoveryRuns.antt =====
-- Staging, promotion and discarding on concrete inputs.
use desk_unlock.Prelude.{
  ◌≡◌, ◌≢◌, refl, ℕ, true, List, [], ◌∷◌, String, some, none, ok, err, arith, replicate, str_eq,
  eq→str_eq, if◌then◌else◌,
}
use desk_unlock.Bonds.Store.{
  Bond, BondStatus, BondStore, Disk, find, load, add, remove, without, check_ids,
}
use desk_unlock.Bonds.Laws.{IsDistinct}
use desk_unlock.Bonds.Journal.{version_line, journal_text}
use desk_unlock.Bonds.Recovery.{
  RecoveryError, Journal, Directory, Files, saved, stage, promote, install_key, copy_key, activate,
  replaced, write_journal,
}
use desk_unlock.Bonds.Recovery.Backing.{IsBacked, promote-IsBacked}

abbrev pub bond_of : String → String → Bond
bond_of id name = record {
  peer_id = id;
  pubkey = replicate 32 5;
  name = name;
  created_at = 4;
  status = BondStatus.bonded;
}

abbrev renewed : Bond
renewed = bond_of "a1" "new phone"

abbrev key_bytes : List ℕ
key_bytes = replicate 32 9

abbrev pub id_of : List ℕ → String
id_of _ = "a1"

abbrev pub active : BondStore
active = record { bonds = bond_of "a1" "phone" ∷ [] }

-- A directory where the peer has a bond and a key already.
abbrev pub paired : Directory
paired = record {
  active_bonds = saved active;
  active_key = λ j. if str_eq "a1" j then some (replicate 32 1) else none;
  pending_bonds = Disk.missing;
  pending_key = λ _. none;
  journal = Journal.absent;
}

abbrev unfailing : Files
unfailing = record { directory = paired; faults = [] }

abbrev address : String
address = "AA:BB:CC:DD:EE:FF"

-- With the save of the staged bond and the staged key done and the journal's write failed.
staged_torn :
    (stage (replicate 16 7) "a1" address renewed key_bytes (record {
      directory = paired;
      faults = none ∷ none ∷ none ∷ some 9 ∷ [];
    })).1.directory.journal
    ≡ Journal.content version_line
unfolding stage write_journal add find journal_text
staged_torn = refl

promoted_without_staging : (promote id_of "a1" unfailing) ≡ (err RecoveryError.malformed, unfailing)
unfolding promote load find
promoted_without_staging = refl

abbrev staged_files : Files
staged_files = (stage (replicate 16 7) "a1" address renewed key_bytes unfailing).1

find_only : (id : String) (b : Bond) → find active.bonds id ≡ some b → str_eq "a1" id ≡ true
unfolding find
find_only id b h = ground arith

staged_files-IsBacked : IsBacked staged_files.directory
unfolding stage write_journal add find journal_text
staged_files-IsBacked id b h = (replicate 32 1, rw (find_only id b h) refl)

-- The active key is replaced, and then the save of the active bonds fails.
abbrev failing_later : Files
failing_later = record { directory = staged_files.directory; faults = none ∷ none ∷ some 0 ∷ [] }

promote-IsBacked_example : IsBacked (promote id_of "a1" failing_later).1.directory
promote-IsBacked_example = promote-IsBacked id_of "a1" failing_later staged_files-IsBacked

promoted_partly : (promote id_of "a1" failing_later).0 ≡ err RecoveryError.io
unfolding stage write_journal add find promote load check_ids install_key copy_key activate replaced
    remove without
promoted_partly = refl

pub active_loads : load id_of paired.active_bonds ≡ ok active
unfolding load check_ids
active_loads = refl

pub active-IsDistinct : IsDistinct active.bonds
unfolding find
active-IsDistinct = (refl, tt)

abbrev pub mine : String
mine = "a1"

abbrev pub theirs : String
theirs = "b2"

pub other_id : theirs ≢ mine
other_id e = ground (arith, eq→str_eq theirs mine e)
