-- ===== src/Bonds/Store.antt =====
-- `Bond`, `BondStore` and its operations in crates/syauth-core/src/bond.rs. A method that takes
-- `&mut self` returns the store that it leaves and its result. `peer_id_of` stands for
-- `peer_id_from_pubkey`, the hexadecimal form of a BLAKE3 hash; a file is what the TOML reader makes
-- of it. A time is a number of nanoseconds.
use desk_unlock.Prelude.{
  ℕ, Bool, true, false, not, Option, none, some, List, [], ◌∷◌, ◌++◌, String, str_eq, ltb,
  if◌then◌else◌, Result, ok, err, ◌>>◌, refuse_if,
}

pub data BondStatus : Type 0 where
  bonded : BondStatus
  revoked : String → BondStatus

pub record Bond : Type 0 where
  pub peer_id : String
  pub pubkey : List ℕ
  pub name : String
  pub created_at : ℕ
  pub status : BondStatus

abbrev pub is_revoked : Bond → Bool
is_revoked b = elim b.status [ BondStatus.revoked _ ↦ true | BondStatus.bonded ↦ false ]

pub data BondError : Type 0 where
  io parse : BondError
  unsupported_schema_version : ℕ → BondError
  already_bonded unknown_peer : String → BondError
  peer_id_mismatch : String → String → BondError

pub record BondStore : Type 0 where
  pub bonds : List Bond

pub record BondFile : Type 0 where
  pub schema_version : ℕ
  pub bonds : List Bond

-- What reading the file gives: no file, another I/O error, or a text that the TOML reader takes or
-- refuses.
pub data Disk : Type 0 where
  missing unreadable malformed : Disk
  file : BondFile → Disk

abbrev pub schema_version_latest : ℕ
schema_version_latest = 1

-- The loop of `load` over the bonds.
unfoldable pub check_ids : (List ℕ → String) → List Bond → Result BondError (Unit {0})
check_ids peer_id_of [] = ok tt
check_ids peer_id_of (b ∷ bs) =
    let rest = check_ids peer_id_of bs in
    let expected : String = peer_id_of b.pubkey in
    if not (str_eq b.peer_id expected)
    then err (BondError.peer_id_mismatch b.peer_id expected)
    else rest

unfoldable pub load : (List ℕ → String) → Disk → Result BondError BondStore
load peer_id_of Disk.missing = ok (record { bonds = [] })
load peer_id_of Disk.unreadable = err BondError.io
load peer_id_of Disk.malformed = err BondError.parse
load peer_id_of (Disk.file f) = do
  refuse_if (ltb schema_version_latest f.schema_version)
      (BondError.unsupported_schema_version f.schema_version)
  check_ids peer_id_of f.bonds
  ok (record { bonds = f.bonds })

-- `find_index` with the bond that stands there.
unfoldable pub find : List Bond → String → Option Bond
find [] id = none
find (b ∷ bs) id = let rest = find bs id in if str_eq b.peer_id id then some b else rest

unfoldable pub add : BondStore → Bond → BondStore × Result BondError (Unit {0})
add s b = elim (find s.bonds b.peer_id) [
  | some _ ↦ (s, err (BondError.already_bonded b.peer_id))
  | none ↦ (record { bonds = s.bonds ++ b ∷ [] }, ok tt)
]

-- `self.bonds.remove(i)` at the first bond of the peer.
unfoldable pub without : List Bond → String → List Bond
without [] id = []
without (b ∷ bs) id = let rest = without bs id in if str_eq b.peer_id id then bs else b ∷ rest

unfoldable pub remove : BondStore → String → BondStore × Result BondError (Unit {0})
remove s id = elim (find s.bonds id) [
  | some _ ↦ (record { bonds = without s.bonds id }, ok tt)
  | none ↦ (s, err (BondError.unknown_peer id))
]

abbrev pub revoke_bond : String → Bond → Bond
revoke_bond reason b = if is_revoked b then b else record b { status = BondStatus.revoked reason }

-- The first bond of the peer revoked, unless it already is.
unfoldable pub with_revoked : List Bond → String → String → List Bond
with_revoked [] id reason = []
with_revoked (b ∷ bs) id reason =
    let rest = with_revoked bs id reason in
    if str_eq b.peer_id id then revoke_bond reason b ∷ bs else b ∷ rest

unfoldable pub mark_revoked : BondStore → String → String → BondStore × Result BondError (Unit {0})
mark_revoked s id reason = elim (find s.bonds id) [
  | some _ ↦ (record { bonds = with_revoked s.bonds id reason }, ok tt)
  | none ↦ (s, err (BondError.unknown_peer id))
]
