-- ===== src/Revoke/Effect.antt =====
-- What the command of crates/syauth-cli/src/revoke.rs leaves.
use desk_unlock.Prelude.{
  none, some, ℕ, ◌≡◌, ◌≢◌, refl, ap, sym, ◌∙◌, arith, true, Bool, ok, err, inl, inr, ◌⊎◌, Result,
  List, [], ◌∷◌, String, Option, Option-cases, Result-cases,
}
use desk_unlock.Bonds.Store.{
  Bond, BondStatus, BondStore, is_revoked, load, find, mark_revoked, with_revoked, revoke_bond,
}
use desk_unlock.Bonds.Laws.{find-with_revoked, find-with_revoked_other, revoked_bond}
use desk_unlock.Bonds.Recovery.{Directory, Files}
use desk_unlock.Bonds.Recovery.Backing.{bonds_of, load-bonds_of}
use desk_unlock.Revoke.{RevokeError, RevokeOutcome, lookup_status, apply_revoke, finish, run_revoke}

-- The command never touches a key, whatever fails.
run_revoke-keys :
    (g : List ℕ → String) (id reason : String) (prints : Bool) (s : Files)
    → (run_revoke g id reason prints s).1.directory.active_key ≡ s.directory.active_key
unfolding run_revoke
run_revoke-keys g id reason prints s = ground arith

apply_revoke-bonded :
    (store : BondStore) (id reason : String) (b : Bond)
    → find store.bonds id ≡ some b
    → b.status ≡ BondStatus.bonded
    → apply_revoke store id reason ≡ (
      record { bonds = with_revoked store.bonds id reason },
      ok (RevokeOutcome.revoked id reason),
    )
unfolding apply_revoke lookup_status mark_revoked
apply_revoke-bonded store id reason b e fresh = ground arith

status_cases :
    (st : BondStatus)
    → (st ≡ BondStatus.bonded) ⊎ ((existing : String) × (st ≡ BondStatus.revoked existing))
status_cases BondStatus.bonded = inl refl
status_cases (BondStatus.revoked existing) = inr (existing, refl)

apply_revoke-revoked :
    (store : BondStore) (id reason existing : String) (b : Bond)
    → find store.bonds id ≡ some b
    → b.status ≡ BondStatus.revoked existing
    → apply_revoke store id reason ≡ (store, ok (RevokeOutcome.already_revoked id existing))
unfolding apply_revoke lookup_status
apply_revoke-revoked store id reason existing b e k = ground arith

apply_revoke-unknown :
    (store : BondStore) (id reason : String)
    → find store.bonds id ≡ none
    → apply_revoke store id reason ≡ (store, err (RevokeError.unknown_id id))
unfolding apply_revoke lookup_status
apply_revoke-unknown store id reason e = ground arith

abbrev bonds_in : Files → List Bond
bonds_in s = bonds_of s.directory.active_bonds

-- The peer's bond is in the file, and is revoked.
abbrev pub HoldsRevoked : String → Files → Type 0
HoldsRevoked id s = (b : Bond) × (find (bonds_in s) id ≡ some b) × (is_revoked b ≡ true)

-- A run that fails changes nothing; one that succeeds leaves the bond revoked and the others alone.
abbrev pub IsRevoked : String → String → Files → Result RevokeError RevokeOutcome × Files → Type 0
IsRevoked id j s r =
    (((o : RevokeOutcome) → r.0 ≢ ok o) × (r.1.directory ≡ s.directory))
    ⊎ (((o : RevokeOutcome) × (r.0 ≡ ok o))
        × HoldsRevoked id r.1
        × (find (bonds_in r.1) j ≡ find (bonds_in s) j))

revoked_in :
    (id reason : String) (store : BondStore) (b : Bond)
    → find store.bonds id ≡ some b
    → b.status ≡ BondStatus.bonded
    → (b' : Bond) × (find (with_revoked store.bonds id reason) id ≡ some b')
      × (is_revoked b' ≡ true)
revoked_in id reason store b e k = (
  revoke_bond reason b,
  find-with_revoked store.bonds id reason ∙ ap (revoked_bond reason) e,
  ground (arith, k),
)

spared :
    (id j reason : String) (store : BondStore) (d : Directory)
    → j ≢ id
    → store.bonds ≡ bonds_of d.active_bonds
    → find (with_revoked store.bonds id reason) j ≡ find (bonds_of d.active_bonds) j
spared id j reason store d other same =
    find-with_revoked_other store.bonds id reason j other ∙ ap (λ bs. find bs j) same

saving-IsRevoked :
    (id j reason : String) (store : BondStore) (b : Bond) (d : Directory) (fs : List (Option ℕ))
    → j ≢ id
    → store.bonds ≡ bonds_of d.active_bonds
    → find store.bonds id ≡ some b
    → b.status ≡ BondStatus.bonded
    → IsRevoked id j
        (record { directory = d; faults = fs })
        (finish true
          (
            record { bonds = with_revoked store.bonds id reason },
            ok (RevokeOutcome.revoked id reason),
          )
          (record { directory = d; faults = fs }))
saving-IsRevoked id j reason store b d (some n ∷ fs) other same e k =
    inl (λ o h. ground arith, refl)
saving-IsRevoked id j reason store b d [] other same e k = inr (
  (RevokeOutcome.revoked id reason, refl),
  revoked_in id reason store b e k,
  spared id j reason store d other same,
)
saving-IsRevoked id j reason store b d (none ∷ fs) other same e k = inr (
  (RevokeOutcome.revoked id reason, refl),
  revoked_in id reason store b e k,
  spared id j reason store d other same,
)

run_revoke-IsRevoked :
    (g : List ℕ → String) (id j reason : String) (s : Files)
    → j ≢ id
    → IsRevoked id j s (run_revoke g id reason true s)
unfolding run_revoke
run_revoke-IsRevoked g id j reason s other = elim (Result-cases (load g s.directory.active_bonds)) [
  | inr (x, e) ↦ rw (e, run_revoke) (inl (λ o h. ground arith, refl))
  | inl (store, e) ↦
      let same = load-bonds_of g s.directory.active_bonds {s = store} e in
      elim (Option-cases (find store.bonds id)) [
        | inl k ↦
            rw (e, run_revoke)
              (rw (apply_revoke-unknown store id reason k) (inl (λ o h. ground arith, refl)))
        | inr (b, k) ↦ elim (status_cases b.status) [
          | inl f ↦
              rw (e, run_revoke)
                (rw (apply_revoke-bonded store id reason b k f)
                  (saving-IsRevoked id j reason store b s.directory s.faults other same k f))
          | inr (existing, f) ↦
              rw (e, run_revoke)
                (rw (apply_revoke-revoked store id reason existing b k f) (
                  inr (
                    (RevokeOutcome.already_revoked id existing, refl),
                    (b, ap (λ bs. find bs id) (sym same) ∙ k, ground (arith, f)),
                    refl,
                  )))
        ]
      ]
]

-- If its line can be printed, the command leaves every key where it was; it changes nothing if it fails,
-- and if it succeeds the peer's bond is in the file and revoked, and the other peers have theirs. That
-- holds whichever calls of the file system fail.
pub run_revoke-effect :
    (g : List ℕ → String) (id j reason : String) (s : Files)
    → j ≢ id
    → IsRevoked id j s (run_revoke g id reason true s)
      × ((run_revoke g id reason true s).1.directory.active_key ≡ s.directory.active_key)
run_revoke-effect g id j reason s other =
    (run_revoke-IsRevoked g id j reason s other, run_revoke-keys g id reason true s)
