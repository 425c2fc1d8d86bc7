-- ===== src/Presence/Commits.antt =====
-- `pair_commit_consumer` of crates/syauth-presenced/src/runtime.rs with what it calls there:
-- `stage_pair_trust`, `revoke_bond_by_peer_id` and `bond_dir_has_a_bonded_peer`. It is the daemon's
-- side of the requests of `drive_pair_transaction`, on the files of the bond directory. An error is
-- only logged, so that a request's answer is whether there was one.
pub mod Trust
pub mod Revocation
pub mod Sequence
use desk_unlock.Prelude.{
  ℕ, Bool, true, false, not, if◌then◌else◌, ◌||◌, Option, none, some, List, [], ◌∷◌, String, Result,
  ok, err,
}
use desk_unlock.Engine.Actions.{PairCommitPhase}
use desk_unlock.Bonds.Store.{
  Bond, BondStatus, BondStore, Disk, is_revoked, load, find, mark_revoked,
}
use desk_unlock.Bonds.Recovery.{
  RecoveryError, Directory, Files, Recovery, call, try_call, set_key, saved, stage,
  mark_commit_pending, promote, discard, checked,
}

-- What the consumer calls outside the repository: BLAKE3 as `peer_id_from_pubkey` and
-- `bond_key_from_pubkeys` use it, the Bluetooth name of a peer, and `hex::encode`.
pub record Machine : Type 0 where
  pub peer_id_of : List ℕ → String
  pub bond_key_of : List ℕ → List ℕ → List ℕ
  pub display_name : String → Option String
  pub hex_encode : List ℕ → String

-- Without the channel of the answer.
pub record PairCommitRequest : Type 0 where
  pub phase : PairCommitPhase
  pub transaction : List ℕ
  pub phone_pubkey : List ℕ
  pub host_pubkey : List ℕ
  pub peer : String

-- What a request leads to: its answer, the reload command, and the signal that stops the daemon.
pub record Handled : Type 0 where
  pub reply : Bool
  pub reload : Bool
  pub stop : Bool

pub data CommitError : Type 0 where
  failed : RecoveryError → CommitError
  no_bond : String → CommitError

abbrev pub Outcome : Type 0
Outcome = Result CommitError (Unit {0}) × Files

-- `map_err`.
abbrev pub to_outcome : Result RecoveryError (Unit {0}) × Files → Outcome
to_outcome (ok a, s) = (ok a, s)
to_outcome (err e, s) = (err (CommitError.failed e), s)

unfoldable pub any_bonded : List Bond → Bool
any_bonded [] = false
any_bonded (b ∷ bs) = not (is_revoked b) || any_bonded bs

-- What a read of the active bonds gives: it may fail as any call of the file system.
abbrev pub reading : Directory → List (Option ℕ) → Disk × Files
reading d [] = (d.active_bonds, record { directory = d; faults = [] })
reading d (none ∷ fs) = (d.active_bonds, record { directory = d; faults = fs })
reading d (some _ ∷ fs) = (Disk.unreadable, record { directory = d; faults = fs })

abbrev pub read_active : Files → Disk × Files
read_active s = reading s.directory s.faults

unfoldable pub bond_dir_has_a_bonded_peer : (List ℕ → String) → Disk → Bool
bond_dir_has_a_bonded_peer peer_id_of disk = elim (load peer_id_of disk) [
  | ok store ↦ any_bonded store.bonds
  | err _ ↦ false
]

abbrev pub dissociated : String
dissociated = "phone: device dissociated"

-- The save of the revoked bond, and after it the removal of the key, whose failure is ignored.
abbrev pub remove_key_after : String → Result RecoveryError (Unit {0}) × Files → Outcome
remove_key_after id (ok _, s) =
    to_outcome (try_call (λ d. record d { active_key = set_key d.active_key id none }) s)
remove_key_after id (err e, s) = to_outcome (err e, s)

unfoldable pub save_revoked : BondStore → String → Files → Outcome
save_revoked store id s = elim (checked (mark_revoked store id dissociated)) [
  | ok revoked ↦ remove_key_after id (call (λ d. record d { active_bonds = saved revoked }) s)
  | err e ↦ (err (CommitError.failed (RecoveryError.bond e)), s)
]

-- The revocation, with what the read of the bonds gave.
unfoldable pub revoke_in : (List ℕ → String) → String → Disk × Files → Outcome
revoke_in peer_id_of id (disk, s) = elim (load peer_id_of disk) [
  | ok store ↦ elim (find store.bonds id) [
    | some _ ↦ save_revoked store id s
    | none ↦ (err (CommitError.no_bond id), s)
  ]
  | err e ↦ (err (CommitError.failed (RecoveryError.bond e)), s)
]

abbrev pub revoke_bond_by_peer_id : (List ℕ → String) → String → Files → Outcome
revoke_bond_by_peer_id peer_id_of id s = revoke_in peer_id_of id (read_active s)

abbrev unwrap_or : String → Option String → String
unwrap_or fallback none = fallback
unwrap_or fallback (some name) = name

-- The bond that a request stages, at the time that the clock shows.
abbrev pub staged_bond : Machine → ℕ → PairCommitRequest → Bond
staged_bond m now r = record {
  peer_id = m.peer_id_of r.phone_pubkey;
  pubkey = r.phone_pubkey;
  name = unwrap_or r.peer (m.display_name r.peer);
  created_at = now;
  status = BondStatus.bonded;
}

unfoldable pub stage_pair_trust : Machine → ℕ → PairCommitRequest → String → Recovery (Unit {0})
stage_pair_trust m now r peer_id =
    stage r.transaction peer_id r.peer (record (staged_bond m now r) { peer_id = peer_id })
      (m.bond_key_of r.host_pubkey r.phone_pubkey)

-- The `match` on the phase.
abbrev pub act : Machine → ℕ → PairCommitRequest → PairCommitPhase → Files → Outcome
act m now r PairCommitPhase.stage s =
    to_outcome (stage_pair_trust m now r (m.peer_id_of r.phone_pubkey) s)
act m now r PairCommitPhase.mark_commit s = to_outcome (mark_commit_pending s)
act m now r PairCommitPhase.promote s =
    to_outcome (promote m.peer_id_of (m.peer_id_of r.phone_pubkey) s)
act m now r PairCommitPhase.discard s = to_outcome (discard (m.peer_id_of r.phone_pubkey) s)
act m now r PairCommitPhase.revoke s =
    revoke_bond_by_peer_id m.peer_id_of (m.hex_encode r.transaction) s

abbrev is_promote : PairCommitPhase → Bool
is_promote PairCommitPhase.promote = true
is_promote _ = false

abbrev is_revoke : PairCommitPhase → Bool
is_revoke PairCommitPhase.revoke = true
is_revoke _ = false

-- After a revocation the bonds are read again, and the daemon stops if none is found bonded.
abbrev pub stopping : Machine → Disk × Files → Handled × Files
stopping m (disk, s) = (
  record {
    reply = true;
    reload = false;
    stop = not (bond_dir_has_a_bonded_peer m.peer_id_of disk);
  },
  s,
)

-- What follows from the outcome.
abbrev pub settle : Machine → PairCommitPhase → Outcome → Handled × Files
settle m phase (ok _, s) =
    if is_revoke phase
    then stopping m (read_active s)
    else (record { reply = true; reload = is_promote phase; stop = false }, s)
settle m phase (err _, s) = (record { reply = false; reload = false; stop = false }, s)

-- One turn of the loop.
unfoldable pub handle : Machine → ℕ → PairCommitRequest → Files → Handled × Files
handle m now r s = settle m r.phase (act m now r r.phase s)

-- The requests that come in, each with the time at which it does.
unfoldable pub pair_commit_consumer :
    Machine → List (ℕ × PairCommitRequest) → Files → List Handled × Files
pair_commit_consumer m [] s = ([], s)
pair_commit_consumer m ((now, r) ∷ rs) s =
    let (h, s') = handle m now r s in
    let (hs, final) = pair_commit_consumer m rs s' in (h ∷ hs, final)
