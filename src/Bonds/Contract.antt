-- ===== src/Bonds/Contract.antt =====
-- What the operations of the store promise, by what each makes of the lookup of a peer.
use desk_unlock.Prelude.{
  subst, ◌≡◌, ◌≢◌, ◌⊎◌, ◌≤◌, refl, ap, sym, ◌∙◌, arith, some, none, ok, err, ℕ, List, [], ◌∷◌,
  String, str_eq, Bool-cases, Option-cases, Result-cases, inl, inr, str_eq_refl, str_eq→eq,
}
use desk_unlock.Bonds.Store.{
  Bond, BondError, BondStore, BondFile, Disk, is_revoked, check_ids, load, find, add, remove,
  revoke_bond, with_revoked, mark_revoked,
}
use desk_unlock.Bonds.Laws.{
  IsDistinct, AreGenuine, append-IsDistinct, without-IsDistinct, find-append, find-without_same,
  find-without_other, find-with_revoked, find-with_revoked_other, revoked_bond,
}

with_revoked-none :
    (bs : List Bond) (id reason j : String)
    → find bs j ≡ none
    → find (with_revoked bs id reason) j ≡ none
unfolding find with_revoked
with_revoked-none [] id reason j f = refl
with_revoked-none (b ∷ bs) id reason j f = ground (arith, with_revoked-none bs id reason j)

with_revoked-IsDistinct :
    (bs : List Bond) (id reason : String) → IsDistinct bs → IsDistinct (with_revoked bs id reason)
unfolding with_revoked
with_revoked-IsDistinct [] id reason d = tt
with_revoked-IsDistinct (b ∷ bs) id reason d = elim (Bool-cases (str_eq b.peer_id id)) [
  | inl e ↦
      rw (e, with_revoked) (elim (Bool-cases (is_revoked b)) [ inl r ↦ rw r d | inr r ↦ rw r d ])
  | inr e ↦
      rw (e, with_revoked)
        (with_revoked-none bs id reason b.peer_id d.0, with_revoked-IsDistinct bs id reason d.1)
]

-- A store with one bond for each peer stays one, whichever of its operations is called.
pub store-IsDistinct :
    (s : BondStore) (b : Bond) (id reason : String)
    → IsDistinct s.bonds
    → IsDistinct (add s b).0.bonds
      × IsDistinct (remove s id).0.bonds
      × IsDistinct (mark_revoked s id reason).0.bonds
unfolding add remove mark_revoked
store-IsDistinct s b id reason d = (
  elim (Option-cases (find s.bonds b.peer_id)) [
    | inl e ↦ rw (e, add) (append-IsDistinct s.bonds b d e)
    | inr (x, e) ↦ rw (e, add) d
  ],
  elim (Option-cases (find s.bonds id)) [
    | inl e ↦ rw (e, remove) d
    | inr (x, e) ↦ rw (e, remove) (without-IsDistinct s.bonds id d)
  ],
  elim (Option-cases (find s.bonds id)) [
    | inl e ↦ rw (e, mark_revoked) d
    | inr (x, e) ↦ rw (e, mark_revoked) (with_revoked-IsDistinct s.bonds id reason d)
  ],
)

-- Adding a bond for a new peer makes it that peer's bond; for a known peer it is an error that changes
-- nothing, so no bond is overwritten.
add_finds :
    (s : BondStore) (b : Bond)
    → (find s.bonds b.peer_id ≡ none)
        × ((add s b).1 ≡ ok tt)
        × (find (add s b).0.bonds b.peer_id ≡ some b)
      ⊎ ((old : Bond) × (find s.bonds b.peer_id ≡ some old)
          × (add s b ≡ (s, err (BondError.already_bonded b.peer_id))))
unfolding add
add_finds s b = elim (Option-cases (find s.bonds b.peer_id)) [
  | inl e ↦
      inl (
        e,
        rw (e, add) refl,
        ground (arith, find-append s.bonds b b.peer_id, str_eq_refl b.peer_id),
      )
  | inr (old, e) ↦ inr (old, e, rw (e, add) refl)
]

-- In a store with one bond for each peer, a removed peer has no bond left, and the others keep theirs.
remove_finds :
    (s : BondStore) (id j : String)
    → IsDistinct s.bonds
    → j ≢ id
    → (find (remove s id).0.bonds id ≡ none) × (find (remove s id).0.bonds j ≡ find s.bonds j)
unfolding remove
remove_finds s id j d n = elim (Option-cases (find s.bonds id)) [
  | inl e ↦ (rw (e, remove) e, rw (e, remove) refl)
  | inr (x, e) ↦ (
    rw (e, remove) (find-without_same s.bonds id d),
    rw (e, remove) (find-without_other s.bonds id j n),
  )
]

pub find-mark_revoked :
    (s : BondStore) (id reason : String)
    → find (mark_revoked s id reason).0.bonds id ≡ revoked_bond reason (find s.bonds id)
unfolding mark_revoked
find-mark_revoked s id reason = elim (Option-cases (find s.bonds id)) [
  | inl e ↦ ground arith
  | inr (x, e) ↦
      rw (e, mark_revoked) (find-with_revoked s.bonds id reason ∙ ap (revoked_bond reason) e)
]

-- Revoking a peer makes its bond revoked and keeps a reason that was there before; the other peers
-- keep their bonds, and an unknown peer is an error that changes nothing.
mark_revoked_finds :
    (s : BondStore) (id reason j : String)
    → j ≢ id
    → (find (mark_revoked s id reason).0.bonds id ≡ revoked_bond reason (find s.bonds id))
      × (find (mark_revoked s id reason).0.bonds j ≡ find s.bonds j)
      × ((find s.bonds id ≢ none)
          ⊎ (mark_revoked s id reason ≡ (s, err (BondError.unknown_peer id))))
unfolding mark_revoked
mark_revoked_finds s id reason j n = (
  find-mark_revoked s id reason,
  elim (Option-cases (find s.bonds id)) [
    | inl e ↦ rw (e, mark_revoked) refl
    | inr (x, e) ↦ rw (e, mark_revoked) (find-with_revoked_other s.bonds id reason j n)
  ],
  elim (Option-cases (find s.bonds id)) [
    | inl e ↦ inr (rw (e, mark_revoked) refl)
    | inr (x, e) ↦ inl (λ h. ground arith)
  ],
)

revoke_bond-revoked :
    (b : Bond) (reason again : String)
    → revoke_bond again (revoke_bond reason b) ≡ revoke_bond reason b
revoke_bond-revoked b reason again = ground arith

-- A second revocation of a peer, with any reason, leaves its bond as the first left it.
mark_revoked_idempotent :
    (s : BondStore) (id reason again : String)
    → let once = (mark_revoked s id reason).0 in
      find (mark_revoked once id again).0.bonds id ≡ find once.bonds id
mark_revoked_idempotent s id reason again =
    let once = (mark_revoked s id reason).0 in
    elim (Option-cases (find s.bonds id)) [
      | inl e ↦ ground (arith, find-mark_revoked once id again, find-mark_revoked s id reason)
      | inr (b, e) ↦ ground (
        arith,
        find-mark_revoked once id again,
        find-mark_revoked s id reason,
        revoke_bond-revoked b reason again,
      )
    ]

check_ids-AreGenuine :
    (f : List ℕ → String) (bs : List Bond) → check_ids f bs ≡ ok tt → AreGenuine f bs
unfolding check_ids
check_ids-AreGenuine f [] h = tt
check_ids-AreGenuine f (b ∷ bs) h = elim (Bool-cases (str_eq b.peer_id (f b.pubkey))) [
  | inl e ↦ (str_eq→eq b.peer_id (f b.pubkey) e, check_ids-AreGenuine f bs (ground arith))
  | inr e ↦ absurd (ground arith)
]

-- A store that was loaded is empty for want of a file, or holds the bonds of a file of a known
-- version, each under the identifier of its own public key.
load-AreGenuine :
    (f : List ℕ → String) (disk : Disk) {s : BondStore}
    → load f disk ≡ ok s
    → ((disk ≡ Disk.missing) × (s.bonds ≡ []))
      ⊎ ((file : BondFile) × (disk ≡ Disk.file file)
          × (file.schema_version ≤ 1)
          × (s.bonds ≡ file.bonds)
          × AreGenuine f s.bonds)
unfolding load
load-AreGenuine f Disk.missing {s} h = inl (refl, ground arith)
load-AreGenuine f Disk.unreadable {s} h = absurd (ground arith)
load-AreGenuine f Disk.malformed {s} h = absurd (ground arith)
load-AreGenuine f (Disk.file file) {s} h = elim (Result-cases (check_ids f file.bonds)) [
  | inr (x, e) ↦ absurd (ground arith)
  | inl (u, e) ↦
      let same : s.bonds ≡ file.bonds = ground arith in
      inr (
        file,
        refl,
        ground arith,
        same,
        subst (AreGenuine f) (sym same) (check_ids-AreGenuine f file.bonds e),
      )
]
