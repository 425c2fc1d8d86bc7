-- ===== src/Bonds/Recovery/Keys.antt =====
-- What `promote` of crates/syauth-core/src/pair_recovery.rs does with the staged and the active key.
use desk_unlock.Prelude.{
  none, ◌≡◌, ◌≢◌, ◌⊎◌, refl, ap, sym, ◌∙◌, arith, some, ok, ℕ, List, [], ◌∷◌, String, str_eq,
  Result, length, inl, inr, Bool-cases, Option-cases, str_eq_refl, Option, ◌==◌,
}
use desk_unlock.Bonds.Recovery.{
  RecoveryError, Directory, Files, set_key, copy_key, bond_key_bytes, install_key,
}

pub set_key-kept :
    (keys : String → Option (List ℕ)) (id j : String) (k key : List ℕ)
    → keys j ≡ some key
    → (key' : List ℕ) × (set_key keys id (some k) j ≡ some key')
set_key-kept keys id j k key h = elim (Bool-cases (str_eq id j)) [
  | inl e ↦ (k, rw e refl)
  | inr e ↦ (key, rw e h)
]

-- What a run makes of the active keys: none or one for the peer is written, and the peer has a key
-- if it succeeds.
abbrev Installs : String → Directory → Result RecoveryError (Unit {0}) × Files → Type 0
Installs id d r =
    (r.1.directory.active_bonds ≡ d.active_bonds)
    × ((r.1.directory.active_key ≡ d.active_key)
          × ((r.0 ≢ ok tt) ⊎ ((k : List ℕ) × (d.active_key id ≡ some k)))
        ⊎ ((k : List ℕ) × (r.1.directory.active_key ≡ set_key d.active_key id (some k))))

copy_key-Installs_of :
    (id : String) (key : List ℕ) (d : Directory) (fs : List (Option ℕ))
    → Installs id d (copy_key id key (record { directory = d; faults = fs }))
unfolding copy_key
copy_key-Installs_of id key d [] = elim (Bool-cases (length key == bond_key_bytes)) [
  | inl e ↦ rw e (refl, inr (key, refl))
  | inr e ↦ rw e (refl, inl (refl, inl λ h. ground arith))
]
copy_key-Installs_of id key d (some n ∷ fs) = (refl, inl (refl, inl λ h. ground arith))
copy_key-Installs_of id key d (none ∷ []) = elim (Bool-cases (length key == bond_key_bytes)) [
  | inl e ↦ rw e (refl, inr (key, refl))
  | inr e ↦ rw e (refl, inl (refl, inl λ h. ground arith))
]
copy_key-Installs_of id key d (none ∷ some n ∷ fs) =
    elim (Bool-cases (length key == bond_key_bytes)) [
      | inl e ↦ rw e (refl, inl (refl, inl λ h. ground arith))
      | inr e ↦ rw e (refl, inl (refl, inl λ h. ground arith))
    ]
copy_key-Installs_of id key d (none ∷ none ∷ fs) =
    elim (Bool-cases (length key == bond_key_bytes)) [
      | inl e ↦ rw e (refl, inr (key, refl))
      | inr e ↦ rw e (refl, inl (refl, inl λ h. ground arith))
    ]

pub install_key-Installs : (id : String) (s : Files) → Installs id s.directory (install_key id s)
unfolding install_key
install_key-Installs id s = elim (Option-cases (s.directory.pending_key id)) [
  | inr (key, e) ↦ rw (e, install_key) (copy_key-Installs_of id key s.directory s.faults)
  | inl e ↦ elim (Option-cases (s.directory.active_key id)) [
    | inr (k, a) ↦ rw (e, a, install_key) (refl, inl (refl, inr (k, refl)))
    | inl a ↦ rw (e, a, install_key) (refl, inl (refl, inl λ h. ground arith))
  ]
]

pub install_key-installed :
    (id : String) (s s' : Files)
    → install_key id s ≡ (ok tt, s')
    → (k : List ℕ) × (s'.directory.active_key id ≡ some k)
install_key-installed id s s' h =
    let w : (install_key id s).1 ≡ s' = ap (λ x. x.1) h in
    let at : (install_key id s).1.directory.active_key id ≡ s'.directory.active_key id =
      ap (λ (x : Files). x.directory.active_key id) w in
    elim (install_key-Installs id s).1 [
      | inl (e, inl n) ↦ absurd (n (ap (λ x. x.0) h))
      | inl (e, inr (k, a)) ↦ (k, sym at ∙ ap (λ (m : String → Option (List ℕ)). m id) e ∙ a)
      | inr (k, e) ↦
          (k, sym at ∙ ap (λ (m : String → Option (List ℕ)). m id) e ∙ rw (str_eq_refl id) refl)
    ]
