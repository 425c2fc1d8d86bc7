-- ===== src/Revoke.antt =====
-- crates/syauth-cli/src/revoke.rs: the command with which the operator revokes a bond, on the files of the
-- bond directory. Whether the line can be printed is an argument.
pub mod Effect
use desk_unlock.Prelude.{
  Bool, Option, none, some, List, ℕ, String, Result, ok, err, ◌>>=◌, if◌then◌else◌,
}
use desk_unlock.Bonds.Store.{Bond, BondStatus, BondError, BondStore, load, find, mark_revoked}
use desk_unlock.Bonds.Recovery.{RecoveryError, Files, call, saved}

pub data RevokeError : Type 0 where
  unknown_id : String → RevokeError
  bond : BondError → RevokeError
  io : RevokeError

pub data RevokeOutcome : Type 0 where
  revoked already_revoked : String → String → RevokeOutcome

abbrev to_status : String → Option Bond → Result RevokeError BondStatus
to_status id none = err (RevokeError.unknown_id id)
to_status id (some b) = ok b.status

unfoldable pub lookup_status : BondStore → String → Result RevokeError BondStatus
lookup_status store id = to_status id (find store.bonds id)

-- `mark_revoked` and `?` on its result.
abbrev pub marked :
    String
    → String
    → BondStore × Result BondError (Unit {0})
    → BondStore × Result RevokeError RevokeOutcome
marked id reason (store, ok _) = (store, ok (RevokeOutcome.revoked id reason))
marked id reason (store, err e) = (store, err (RevokeError.bond e))

unfoldable pub apply_revoke :
    BondStore → String → String → BondStore × Result RevokeError RevokeOutcome
apply_revoke store id reason = elim (lookup_status store id) [
  | err e ↦ (store, err e)
  | ok (BondStatus.revoked existing) ↦ (store, ok (RevokeOutcome.already_revoked id existing))
  | ok BondStatus.bonded ↦ marked id reason (mark_revoked store id reason)
]

abbrev printed : Bool → RevokeOutcome → Result RevokeError RevokeOutcome
printed prints outcome = if prints then ok outcome else err RevokeError.io

abbrev saved_then :
    Bool
    → RevokeOutcome
    → Result RecoveryError (Unit {0}) × Files
    → Result RevokeError RevokeOutcome × Files
saved_then prints outcome (ok _, s) = (printed prints outcome, s)
saved_then prints outcome (err _, s) = (err (RevokeError.bond BondError.io), s)

-- The store is saved only if the bond was not revoked already.
abbrev pub finish :
    Bool
    → BondStore × Result RevokeError RevokeOutcome
    → Files
    → Result RevokeError RevokeOutcome × Files
finish prints (store, err e) s = (err e, s)
finish prints (store, ok (RevokeOutcome.already_revoked id reason)) s =
    (printed prints (RevokeOutcome.already_revoked id reason), s)
finish prints (store, ok (RevokeOutcome.revoked id reason)) s =
    saved_then prints (RevokeOutcome.revoked id reason)
      (call (λ d. record d { active_bonds = saved store }) s)

-- The outcome is what is printed.
unfoldable pub run_revoke :
    (List ℕ → String) → String → String → Bool → Files → Result RevokeError RevokeOutcome × Files
run_revoke peer_id_of id reason prints s = elim (load peer_id_of s.directory.active_bonds) [
  | err e ↦ (err (RevokeError.bond e), s)
  | ok store ↦ finish prints (apply_revoke store id reason) s
]
