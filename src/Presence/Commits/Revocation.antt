-- ===== src/Presence/Commits/Revocation.antt =====
-- What `revoke_bond_by_peer_id` of crates/syauth-presenced/src/runtime.rs does, and when the daemon
-- stops after it.
use desk_unlock.Prelude.{
  subst, none, some, ℕ, ◌≡◌, ◌≢◌, refl, ap, sym, ◌∙◌, arith, false, true, not, ok, err, inl, inr,
  ◌⊎◌, List, [], ◌∷◌, String, Option, Bool, ◌||◌, drop, Bool-cases, Option-cases, Result-cases,
  str_neq,
}
use desk_unlock.Engine.Actions.{PairCommitPhase}
use desk_unlock.Bonds.Store.{
  Bond, BondStore, Disk, is_revoked, load, find, mark_revoked, with_revoked, check_ids, revoke_bond,
}
use desk_unlock.Bonds.Laws.{find-with_revoked, find-with_revoked_other, revoked_bond}
use desk_unlock.Bonds.Recovery.{Directory, Files, saved, call, set_key, checked}
use desk_unlock.Bonds.Recovery.Backing.{bonds_of, load-bonds_of}
use desk_unlock.Presence.Commits.Trust.{settle-keeps}
use desk_unlock.Presence.Commits.{
  Machine, PairCommitRequest, Handled, Outcome, handle, dissociated, any_bonded,
  bond_dir_has_a_bonded_peer, revoke_bond_by_peer_id, revoke_in, reading, stopping, save_revoked,
  remove_key_after, settle,
}

revoke_bond-id : (reason : String) (b : Bond) → (revoke_bond reason b).peer_id ≡ b.peer_id
revoke_bond-id reason b = ground arith

revoke_bond-pubkey : (reason : String) (b : Bond) → (revoke_bond reason b).pubkey ≡ b.pubkey
revoke_bond-pubkey reason b = ground arith

check_ids-with_revoked :
    (peer_id_of : List ℕ → String) (bs : List Bond) (id reason : String)
    → check_ids peer_id_of bs ≡ ok tt
    → check_ids peer_id_of (with_revoked bs id reason) ≡ ok tt
unfolding check_ids with_revoked
check_ids-with_revoked peer_id_of [] id reason h = refl
check_ids-with_revoked peer_id_of (b ∷ bs) id reason h = ground (
  arith,
  check_ids-with_revoked peer_id_of bs id reason,
  revoke_bond-id reason b,
  revoke_bond-pubkey reason b,
)

load-check_ids :
    (peer_id_of : List ℕ → String) (f : Disk) {s : BondStore}
    → load peer_id_of f ≡ ok s
    → check_ids peer_id_of s.bonds ≡ ok tt
unfolding load check_ids
load-check_ids g Disk.missing h = ground arith
load-check_ids g Disk.unreadable h = ground arith
load-check_ids g Disk.malformed h = ground arith
load-check_ids g (Disk.file file) h = elim (Result-cases (check_ids g file.bonds)) [
  | inl (u, e) ↦ ground (arith, e)
  | inr (x, e) ↦ ground (arith, e)
]

abbrev store_of : List Bond → String → BondStore
store_of bs id = record { bonds = with_revoked bs id dissociated }

revoked-loads :
    (peer_id_of : List ℕ → String) (f : Disk) (store : BondStore) (id : String)
    → load peer_id_of f ≡ ok store
    → load peer_id_of (saved (store_of store.bonds id)) ≡ ok (store_of store.bonds id)
unfolding load
revoked-loads peer_id_of f store id h =
    rw
      (check_ids-with_revoked peer_id_of store.bonds id dissociated (load-check_ids peer_id_of f h))
      refl

-- A revocation that succeeds: the directory that it leaves, but for the peer's key.
abbrev Revokes : (List ℕ → String) → String → Directory → Directory → Type 0
Revokes peer_id_of id before after =
    (store : BondStore) × (b : Bond) × (load peer_id_of before.active_bonds ≡ ok store)
    × (find store.bonds id ≡ some b)
    × (after.active_bonds ≡ saved (store_of store.bonds id))
    × ((after.active_key ≡ before.active_key)
        ⊎ (after.active_key ≡ set_key before.active_key id none))

-- Either it fails and changes nothing, or it revokes, with the given calls to come.
abbrev IsRevocation : (List ℕ → String) → String → Directory → List (Option ℕ) → Outcome → Type 0
IsRevocation peer_id_of id d left o =
    ((o.0 ≢ ok tt) × (o.1.directory ≡ d))
    ⊎ ((o.0 ≡ ok tt) × (o.1.faults ≡ left) × Revokes peer_id_of id d o.1.directory)

marked_ok :
    (store : BondStore) (id : String) {b : Bond}
    → find store.bonds id ≡ some b
    → checked (mark_revoked store id dissociated) ≡ ok (store_of store.bonds id)
unfolding mark_revoked
marked_ok store id e = rw (e, mark_revoked) refl

abbrev saving : String → BondStore → Files → Outcome
saving id store s = remove_key_after id (call (λ d. record d { active_bonds = saved store }) s)

saving-Revokes :
    (peer_id_of : List ℕ → String) (store : BondStore) (b : Bond) (id : String) (d : Directory)
    (fs : List (Option ℕ))
    → load peer_id_of d.active_bonds ≡ ok store
    → find store.bonds id ≡ some b
    → IsRevocation peer_id_of id d
        (drop 2 fs)
        (saving id (store_of store.bonds id) (record { directory = d; faults = fs }))
saving-Revokes g store b id d [] l e = inr (refl, refl, (store, b, l, e, refl, inr refl))
saving-Revokes g store b id d (some n ∷ fs) l e = inl (λ h. ground arith, refl)
saving-Revokes g store b id d (none ∷ []) l e = inr (refl, refl, (store, b, l, e, refl, inr refl))
saving-Revokes g store b id d (none ∷ some n ∷ fs) l e =
    inr (refl, refl, (store, b, l, e, refl, inl refl))
saving-Revokes g store b id d (none ∷ none ∷ fs) l e =
    inr (refl, refl, (store, b, l, e, refl, inr refl))

save_revoked_runs :
    (store : BondStore) (b : Bond) (id : String) (s : Files)
    → find store.bonds id ≡ some b
    → save_revoked store id s ≡ saving id (store_of store.bonds id) s
unfolding save_revoked
save_revoked_runs store b id s e = rw (marked_ok store id {b = b} e, save_revoked) refl

revoke_in-Revokes :
    (peer_id_of : List ℕ → String) (id : String) (s : Files)
    → IsRevocation peer_id_of id s.directory
        (drop 2 s.faults)
        (revoke_in peer_id_of id (s.directory.active_bonds, s))
unfolding revoke_in
revoke_in-Revokes g id s = elim (Result-cases (load g s.directory.active_bonds)) [
  | inl (store, e) ↦ elim (Option-cases (find store.bonds id)) [
    | inl k ↦ rw (e, k, revoke_in) (inl (λ h. ground arith, refl))
    | inr (b, k) ↦
        let runs : revoke_in g id (s.directory.active_bonds, s)
            ≡ saving id (store_of store.bonds id) s =
          rw (e, revoke_in) (rw k (save_revoked_runs store b id s k)) in
        subst (IsRevocation g id s.directory (drop 2 s.faults))
          {x = saving id (store_of store.bonds id) s} (sym runs)
          (saving-Revokes g store b id s.directory s.faults e k)
  ]
  | inr (x, e) ↦ rw (e, revoke_in) (inl (λ h. ground arith, refl))
]

revoke_read-Revokes :
    (peer_id_of : List ℕ → String) (id : String) (d : Directory) (fs : List (Option ℕ))
    → IsRevocation peer_id_of id d (drop 3 fs) (revoke_in peer_id_of id (reading d fs))
unfolding revoke_in load
revoke_read-Revokes g id d [] = revoke_in-Revokes g id (record { directory = d; faults = [] })
revoke_read-Revokes g id d (none ∷ fs) =
    revoke_in-Revokes g id (record { directory = d; faults = fs })
revoke_read-Revokes g id d (some n ∷ fs) = inl (λ h. ground arith, refl)

revoked_is_revoked : (reason : String) (b : Bond) → is_revoked (revoke_bond reason b) ≡ true
revoked_is_revoked reason b = elim (Bool-cases (is_revoked b)) [
  | inl e ↦ rw e e
  | inr e ↦ rw e refl
]

-- The bonds of the directory after a revocation.
abbrev bonds_in : Files → List Bond
bonds_in s = bonds_of s.directory.active_bonds

-- What holds after a revocation of `id`, for another peer `j`.
abbrev pub Spares : String → Files → Files → Type 0
Spares j s s' =
    (find (bonds_in s') j ≡ find (bonds_in s) j)
    × (s'.directory.active_key j ≡ s.directory.active_key j)

IsRevocation-Spares :
    (g : List ℕ → String) (id j : String) (s : Files) (left : List (Option ℕ)) (o : Outcome)
    → j ≢ id
    → IsRevocation g id s.directory left o
    → Spares j s o.1
IsRevocation-Spares g id j s left o n (inl (k, e)) = (
  ap (λ (d : Directory). find (bonds_of d.active_bonds) j) e,
  ap (λ (d : Directory). d.active_key j) e,
)
IsRevocation-Spares g id j s left o n (inr (k, left_over, (store, b, l, f, e, keys))) =
    let same : find (bonds_in o.1) j ≡ find (with_revoked store.bonds id dissociated) j =
      ap (λ f. find (bonds_of f) j) e in
    let before : find store.bonds j ≡ find (bonds_in s) j =
      ap (λ bs. find bs j) (load-bonds_of g s.directory.active_bonds {s = store} l) in
    (
      same ∙ find-with_revoked_other store.bonds id dissociated j n ∙ before,
      elim keys [
        | inl a ↦ ap (λ (k : String → Option (List ℕ)). k j) a
        | inr a ↦
            ap (λ (k : String → Option (List ℕ)). k j) a ∙ rw (str_neq id j (λ h. n (sym h))) refl
      ],
    )

-- Whether the next call fails.
abbrev pub first_fails : List (Option ℕ) → Bool
first_fails [] = false
first_fails (none ∷ _) = false
first_fails (some _ ∷ _) = true

-- What the consumer makes of a request to revoke `id`. Of the calls of the file system that one which
-- succeeds makes, the fourth is the one that reads the bonds again.
abbrev pub IsAnswered : Machine → String → Files → Handled × Files → Type 0
IsAnswered m id s r =
    ((r.0.reply ≡ false) × (r.0.stop ≡ false) × (r.1.directory ≡ s.directory))
    ⊎ ((r.0.reply ≡ true)
        × (r.0.stop ≡ (first_fails (drop 3 s.faults) || not (any_bonded (bonds_in r.1))))
        × ((b : Bond) × (find (bonds_in r.1) id ≡ some b) × (is_revoked b ≡ true)))

refused-IsAnswered :
    (m : Machine) (id : String) (s : Files) (o : Outcome)
    → o.0 ≢ ok tt
    → o.1.directory ≡ s.directory
    → IsAnswered m id s (settle m PairCommitPhase.revoke o)
refused-IsAnswered m id s (err x, t) n e = inl (refl, refl, e)
refused-IsAnswered m id s (ok u, t) n e = absurd (n refl)

revoked_held :
    (g : List ℕ → String) (id : String) (before after : Directory)
    → Revokes g id before after
    → (b : Bond) × (find (bonds_of after.active_bonds) id ≡ some b) × (is_revoked b ≡ true)
revoked_held g id before after (store, b, l, f, e, keys) = (
  revoke_bond dissociated b,
  ap (λ f. find (bonds_of f) id) e
      ∙ find-with_revoked store.bonds id dissociated
      ∙ ap (revoked_bond dissociated) f,
  revoked_is_revoked dissociated b,
)

read_bonded :
    (g : List ℕ → String) (id : String) (before after : Directory)
    → Revokes g id before after
    → bond_dir_has_a_bonded_peer g after.active_bonds ≡ any_bonded (bonds_of after.active_bonds)
unfolding bond_dir_has_a_bonded_peer
read_bonded g id before after (store, b, l, f, e, keys) =
    rw (e, revoked-loads g before.active_bonds store id l, bond_dir_has_a_bonded_peer) refl

stopping-IsAnswered :
    (m : Machine) (id : String) (s : Files) (d : Directory) (fs : List (Option ℕ))
    → fs ≡ drop 3 s.faults
    → Revokes m.peer_id_of id s.directory d
    → IsAnswered m id s (stopping m (reading d fs))
unfolding bond_dir_has_a_bonded_peer load
stopping-IsAnswered m id s d [] left r =
    let found = read_bonded m.peer_id_of id s.directory d r in
    inr (refl, rw (← left) (ap not found), revoked_held m.peer_id_of id s.directory d r)
stopping-IsAnswered m id s d (none ∷ fs) left r =
    let found = read_bonded m.peer_id_of id s.directory d r in
    inr (refl, rw (← left) (ap not found), revoked_held m.peer_id_of id s.directory d r)
stopping-IsAnswered m id s d (some n ∷ fs) left r =
    inr (refl, rw (← left) refl, revoked_held m.peer_id_of id s.directory d r)

done-IsAnswered :
    (m : Machine) (id : String) (s : Files) (o : Outcome)
    → o.0 ≡ ok tt
    → o.1.faults ≡ drop 3 s.faults
    → Revokes m.peer_id_of id s.directory o.1.directory
    → IsAnswered m id s (settle m PairCommitPhase.revoke o)
done-IsAnswered m id s (err x, t) h left r = ground arith
done-IsAnswered m id s (ok u, t) h left r = stopping-IsAnswered m id s t.directory t.faults left r

-- A revocation leaves every other peer its bond and its key. If it is answered with success, the peer's
-- bond stands in the active file as revoked, and the daemon stops exactly if no bond of the file is
-- bonded or the file cannot be read again; if not, nothing has changed and the daemon goes on. That
-- holds whichever calls of the file system fail.
pub handle-IsRevocation :
    (m : Machine) (now : ℕ) (r : PairCommitRequest) (s : Files) (j : String)
    → r.phase ≡ PairCommitPhase.revoke
    → j ≢ m.hex_encode r.transaction
    → IsAnswered m (m.hex_encode r.transaction) s (handle m now r s)
      × Spares j s (handle m now r s).1
unfolding handle
handle-IsRevocation m now r s j p n =
    let id = m.hex_encode r.transaction in
    let o = revoke_bond_by_peer_id m.peer_id_of id s in
    let is = revoke_read-Revokes m.peer_id_of id s.directory s.faults in
    let kept = settle-keeps m PairCommitPhase.revoke o in
    let spared = IsRevocation-Spares m.peer_id_of id j s (drop 3 s.faults) o n is in
    rw (p, handle)
      (
        elim is [
          | inl (k, e) ↦ refused-IsAnswered m id s o k e
          | inr (k, left, w) ↦ done-IsAnswered m id s o k left w
        ],
        (
          ap (λ (d : Directory). find (bonds_of d.active_bonds) j) kept ∙ spared.0,
          ap (λ (d : Directory). d.active_key j) kept ∙ spared.1,
        ),
      )
