-- ===== src/Presence/Commits/Trust.antt =====
-- Which requests to `pair_commit_consumer` of crates/syauth-presenced/src/runtime.rs touch the active
-- bonds and keys.
use desk_unlock.Prelude.{
  ℕ, ◌≡◌, ◌≢◌, refl, ap, ◌∙◌, arith, ok, err, Result, List, String, Option, none, some, [], ◌∷◌,
}
use desk_unlock.Bonds.Store.{Disk}
use desk_unlock.Engine.Actions.{PairCommitPhase}
use desk_unlock.Bonds.Recovery.{RecoveryError, Directory, Files, mark_commit_pending, discard}
use desk_unlock.Bonds.Recovery.Safety.{trust, stage-trust, discard-trust}
use desk_unlock.Bonds.Recovery.Marking.{mark_commit_pending-trust}
use desk_unlock.Presence.Commits.{
  Machine, PairCommitRequest, Outcome, to_outcome, act, settle, stage_pair_trust, handle,
  staged_bond, reading,
}

-- A read leaves the directory as it is.
pub reading-keeps : (d : Directory) (fs : List (Option ℕ)) → (reading d fs).1.directory ≡ d
reading-keeps d [] = refl
reading-keeps d (none ∷ fs) = refl
reading-keeps d (some n ∷ fs) = refl

pub settle-keeps :
    (m : Machine) (p : PairCommitPhase) (o : Outcome) → (settle m p o).1.directory ≡ o.1.directory
settle-keeps m PairCommitPhase.revoke (ok a, s) = reading-keeps s.directory s.faults
settle-keeps m PairCommitPhase.stage (ok a, s) = refl
settle-keeps m PairCommitPhase.mark_commit (ok a, s) = refl
settle-keeps m PairCommitPhase.promote (ok a, s) = refl
settle-keeps m PairCommitPhase.discard (ok a, s) = refl
settle-keeps m p (err e, s) = refl

to_outcome-keeps : (r : Result RecoveryError (Unit {0}) × Files) → (to_outcome r).1 ≡ r.1
to_outcome-keeps (ok a, s) = refl
to_outcome-keeps (err e, s) = refl

abbrev trust_of : Files → Disk × (String → Option (List ℕ))
trust_of s = trust s.directory

act-trust :
    (m : Machine) (now : ℕ) (r : PairCommitRequest) (p : PairCommitPhase) (s : Files)
    → p ≢ PairCommitPhase.promote
    → p ≢ PairCommitPhase.revoke
    → trust (act m now r p s).1.directory ≡ trust s.directory
unfolding stage_pair_trust
act-trust m now r PairCommitPhase.stage s n k =
    let id = m.peer_id_of r.phone_pubkey in
    let b = record (staged_bond m now r) { peer_id = id } in
    let key = m.bond_key_of r.host_pubkey r.phone_pubkey in
    ap trust_of (to_outcome-keeps (stage_pair_trust m now r id s))
    ∙ stage-trust r.transaction id r.peer b key s
act-trust m now r PairCommitPhase.mark_commit s n k =
    ap trust_of (to_outcome-keeps (mark_commit_pending s)) ∙ mark_commit_pending-trust s
act-trust m now r PairCommitPhase.promote s n k = ground arith
act-trust m now r PairCommitPhase.discard s n k =
    let id = m.peer_id_of r.phone_pubkey in
    ap trust_of (to_outcome-keeps (discard id s)) ∙ discard-trust id s
act-trust m now r PairCommitPhase.revoke s n k = ground arith

-- A request that is neither a promotion nor a revocation leaves the active bonds and keys as they
-- were, whichever calls of the file system fail.
pub handle-trust :
    (m : Machine) (now : ℕ) (r : PairCommitRequest) (s : Files)
    → r.phase ≢ PairCommitPhase.promote
    → r.phase ≢ PairCommitPhase.revoke
    → trust (handle m now r s).1.directory ≡ trust s.directory
unfolding handle
handle-trust m now r s n k =
    ap trust (settle-keeps m r.phase (act m now r r.phase s)) ∙ act-trust m now r r.phase s n k
