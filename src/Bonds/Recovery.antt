-- ===== src/Bonds/Recovery.antt =====
-- `stage`, `mark_commit_pending`, `promote`, `discard` and `discard_all` of
-- crates/syauth-core/src/pair_recovery.rs, on the files of the bond directory. The key files of the peers are a function of the peer's identifier,
-- which is hexadecimal, so no staged name is an active one. Whether each call of the file system
-- succeeds is an oracle: a failed call changes nothing, as bonds and keys are written to a temporary
-- file that is renamed, except that a failed write of the journal leaves it torn. What creates a
-- directory or sets a mode fails with the write that it prepares.
pub mod Safety
pub mod Keys
pub mod Backing
pub mod Marking
pub mod Activation
use desk_unlock.Prelude.{
  ℕ, Bool, true, false, not, Option, none, some, List, [], ◌∷◌, String, str_eq, ◌==◌, length,
  if◌then◌else◌, Result, ok, err, take, utf8,
}
use desk_unlock.Bonds.Journal.{
  JournalState, JournalRecord, JournalError, journal_text, parse_journal,
}
use desk_unlock.Bonds.Store.{
  Bond, BondError, BondStore, BondFile, Disk, schema_version_latest, load, find, add, remove,
}

pub data RecoveryError : Type 0 where
  io malformed panicked : RecoveryError
  bond : BondError → RecoveryError

-- The journal's file.
pub data Journal : Type 0 where
  absent unreadable : Journal
  content : List ℕ → Journal

-- The files under the bond directory.
pub record Directory : Type 0 where
  pub active_bonds : Disk
  pub active_key : String → Option (List ℕ)
  pub pending_bonds : Disk
  pub pending_key : String → Option (List ℕ)
  pub journal : Journal

-- The directory, and for each further call of the file system whether it fails, with the number of
-- bytes that a failed write leaves; past the end of the list every call succeeds.
pub record Files : Type 0 where
  pub directory : Directory
  pub faults : List (Option ℕ)

abbrev pub Recovery : Type 0 → Type 0
Recovery A = Files → Result RecoveryError A × Files

abbrev pub after :
    {A B : Type 0}
    → (A → Recovery B)
    → Result RecoveryError A × Files
    → Result RecoveryError B × Files
after k (ok a, s) = k a s
after k (err e, s) = (err e, s)

infixl 5 ◌>>=◌ ◌>>◌
abbrev pub ◌>>=◌ : {A B : Type 0} → Recovery A → (A → Recovery B) → Recovery B
◌>>=◌ m k s = after k (m s)

abbrev pub ◌>>◌ : {B : Type 0} → Recovery (Unit {0}) → Recovery B → Recovery B
m >> k = m >>= λ _. k

-- A call of the file system: what it makes of the directory if it succeeds, and if it fails.
abbrev calling :
    (Directory → Directory)
    → (ℕ → Directory → Directory)
    → Directory
    → List (Option ℕ)
    → Result RecoveryError (Unit {0}) × Files
calling done failed d [] = (ok tt, record { directory = done d; faults = [] })
calling done failed d (some n ∷ fs) =
    (err RecoveryError.io, record { directory = failed n d; faults = fs })
calling done failed d (none ∷ fs) = (ok tt, record { directory = done d; faults = fs })

abbrev pub call : (Directory → Directory) → Recovery (Unit {0})
call f s = calling f (λ _ d. d) s.directory s.faults

-- A call whose failure is ignored: `let _ = fs::remove_file(..)`.
abbrev pub try_call : (Directory → Directory) → Recovery (Unit {0})
try_call f s = (ok tt, (call f s).1)

-- `?` on a result of the bond store.
abbrev bond_result : {A : Type 0} → Result BondError A → Recovery A
bond_result (ok a) s = (ok a, s)
bond_result (err e) s = (err (RecoveryError.bond e), s)

abbrev pub require : {A : Type 0} → Option A → Recovery A
require (some a) s = (ok a, s)
require none s = (err RecoveryError.malformed, s)

abbrev guard : Bool → Recovery (Unit {0})
guard true s = (ok tt, s)
guard false s = (err RecoveryError.malformed, s)

abbrev pub set_key :
    (String → Option (List ℕ)) → String → Option (List ℕ) → String → Option (List ℕ)
set_key keys id k j = if str_eq id j then k else keys j

-- The file that `save` leaves.
abbrev pub saved : BondStore → Disk
saved s = Disk.file (record { schema_version = schema_version_latest; bonds = s.bonds })

abbrev pub bond_key_bytes : ℕ
bond_key_bytes = 32

unfoldable pub discard : String → Recovery (Unit {0})
discard id = do
  try_call λ d. record d { journal = Journal.absent }
  try_call λ d. record d { pending_bonds = Disk.missing }
  try_call λ d. record d { pending_key = set_key d.pending_key id none }

unfoldable pub remove_pending_keys : List Bond → Recovery (Unit {0})
remove_pending_keys [] s = (ok tt, s)
remove_pending_keys (b ∷ bs) s =
    remove_pending_keys bs
      (try_call (λ d. record d { pending_key = set_key d.pending_key b.peer_id none }) s).1

unfoldable pub write_journal : JournalRecord → Recovery (Unit {0})
write_journal j = do
  call λ d. d
  λ s.
      calling (λ d. record d { journal = Journal.content (journal_text j) })
        (λ n d. record d { journal = Journal.content (take n (journal_text j)) }) s.directory
        s.faults

abbrev pub parsed : Result JournalError JournalRecord → Recovery (Option JournalRecord)
parsed (ok j) s = (ok (some j), s)
parsed (err JournalError.io) s = (err RecoveryError.io, s)
parsed (err JournalError.malformed) s = (err RecoveryError.malformed, s)
parsed (err JournalError.panicked) s = (err RecoveryError.panicked, s)

abbrev pub read_from : Journal → Recovery (Option JournalRecord)
read_from Journal.absent s = (ok none, s)
read_from Journal.unreadable s = (err RecoveryError.io, s)
read_from (Journal.content text) s = parsed (parse_journal text) s

unfoldable pub read_journal : Recovery (Option JournalRecord)
read_journal s = read_from s.directory.journal s

unfoldable pub mark_commit_pending : Recovery (Unit {0})
mark_commit_pending = do
  found ← read_journal
  j ← require found
  write_journal (record j { state = JournalState.commit_pending })

unfoldable pub discard_all : (List ℕ → String) → Recovery (Unit {0})
discard_all peer_id_of = do
  λ s. elim (load peer_id_of s.directory.pending_bonds) [
    | ok store ↦ remove_pending_keys store.bonds s
    | err _ ↦ (ok tt, s)
  ]
  try_call λ d. record d { journal = Journal.absent }
  try_call λ d. record d { pending_bonds = Disk.missing }

-- The store that an operation leaves, if it is not refused.
abbrev pub checked : BondStore × Result BondError (Unit {0}) → Result BondError BondStore
checked (s, ok _) = ok s
checked (s, err e) = err e

unfoldable pub stage : List ℕ → String → String → Bond → List ℕ → Recovery (Unit {0})
stage transaction id address b key = do
  pending ← bond_result (checked (add (record { bonds = [] }) b))
  call λ d. record d { pending_bonds = saved pending }
  call λ d. record d { pending_key = set_key d.pending_key id (some key) }
  write_journal (record {
    transaction = transaction;
    peer_id = utf8 id;
    peer_address = utf8 address;
    state = JournalState.pre_commit;
  })

-- The staged key takes the active one's place.
unfoldable pub copy_key : String → List ℕ → Recovery (Unit {0})
copy_key id key = do
  call λ d. d
  guard (length key == bond_key_bytes)
  call λ d. record d { active_key = set_key d.active_key id (some key) }

-- Without a staged key the active one has to be there.
unfoldable pub install_key : String → Recovery (Unit {0})
install_key id s = elim (s.directory.pending_key id) [
  | some key ↦ copy_key id key s
  | none ↦ elim (s.directory.active_key id) [
    | some _ ↦ (ok tt, s)
    | none ↦ (err RecoveryError.malformed, s)
  ]
]

-- The bond replaces the one that its peer has among the active bonds.
unfoldable pub replaced : BondStore → Bond → Result BondError BondStore
replaced active b = elim (find active.bonds b.peer_id) [
  | some _ ↦ elim (checked (remove active b.peer_id)) [
    | ok freed ↦ checked (add freed b)
    | err e ↦ err e
  ]
  | none ↦ checked (add active b)
]

unfoldable pub activate : (List ℕ → String) → Bond → Recovery (Unit {0})
activate peer_id_of b s =
    (do
      active ← bond_result (load peer_id_of s.directory.active_bonds)
      store ← bond_result (replaced active b)
      call λ d. record d { active_bonds = saved store })
      s

unfoldable pub promote : (List ℕ → String) → String → Recovery (Unit {0})
promote peer_id_of id s =
    (do
      staged ← bond_result (load peer_id_of s.directory.pending_bonds)
      b ← require (find staged.bonds id)
      install_key id
      activate peer_id_of b
      discard id)
      s
