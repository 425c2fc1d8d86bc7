-- ===== src/Bonds/Recovery/Backing.antt =====
-- The active bonds of crates/syauth-core/src/pair_recovery.rs and the keys that they need.
use desk_unlock.Prelude.{
  none, subst, ◌≡◌, ◌≢◌, ◌⊎◌, refl, ap, sym, ◌∙◌, arith, true, some, ok, err, ℕ, List, [], ◌∷◌,
  String, str_eq, Result, inl, inr, Bool-cases, Option-cases, str_eq→eq, Option, str_neq,
  Result-cases, eq→str_eq,
}
use desk_unlock.Bonds.Store.{Bond, BondStore, Disk, load, find, add, remove}
use desk_unlock.Bonds.Laws.{find-append, find-without_other}
use desk_unlock.Bonds.Recovery.{
  RecoveryError, Directory, Files, Recovery, after, ◌>>◌, call, saved, discard, promote,
  install_key, activate, replaced,
}
use desk_unlock.Bonds.Recovery.Keys.{set_key-kept, install_key-Installs, install_key-installed}
use desk_unlock.Bonds.Recovery.Safety.{trust, discard-trust}

after-Keeps :
    (P : Directory → Type 0) {A B : Type 0} (k : A → Recovery B)
    (r : Result RecoveryError A × Files)
    → P r.1.directory
    → ((a : A) (s : Files) → r ≡ (ok a, s) → P (k a s).1.directory)
    → P (after k r).1.directory
after-Keeps P k (ok a, s) h f = f a s refl
after-Keeps P k (err e, s) h f = h

abbrev pub bonds_of : Disk → List Bond
bonds_of (Disk.file f) = f.bonds
bonds_of _ = []

-- Every active bond has an active key.
abbrev pub IsBacked : Directory → Type 0
IsBacked d =
    (id : String) (b : Bond)
    → find (bonds_of d.active_bonds) id ≡ some b
    → (key : List ℕ) × (d.active_key id ≡ some key)

pub load-bonds_of :
    (peer_id_of : List ℕ → String) (f : Disk) {s : BondStore}
    → load peer_id_of f ≡ ok s
    → s.bonds ≡ bonds_of f
unfolding load
load-bonds_of peer_id_of Disk.missing h = ground arith
load-bonds_of peer_id_of Disk.unreadable h = absurd (ground arith)
load-bonds_of peer_id_of Disk.malformed h = absurd (ground arith)
load-bonds_of peer_id_of (Disk.file f) h = ground arith

find_peer_id :
    (bs : List Bond) (id : String) {b : Bond} → find bs id ≡ some b → str_eq b.peer_id id ≡ true
unfolding find
find_peer_id [] id h = absurd (ground arith)
find_peer_id (x ∷ bs) id {b} h = ground (arith, find_peer_id bs id {b = b})

pub find-replaced :
    (s : BondStore) (b : Bond) (id : String) {s' : BondStore}
    → replaced s b ≡ ok s'
    → id ≢ b.peer_id
    → find s'.bonds id ≡ find s.bonds id
unfolding replaced remove add
find-replaced s b id {s'} h n = ground (
  arith,
  find-append s.bonds b id,
  find-append (desk_unlock.Bonds.Store.without s.bonds b.peer_id) b id,
  find-without_other s.bonds b.peer_id id n,
  str_neq b.peer_id id (λ e. n (sym e)),
)

calls_of :
    (f : Directory → Directory) (d : Directory) (fs : List (Option ℕ))
    → (let c = call f (record { directory = d; faults = fs }) in
        (c.1.directory ≡ f d) ⊎ (c.1.directory ≡ d))
calls_of f d [] = inl refl
calls_of f d (some n ∷ fs) = inr refl
calls_of f d (none ∷ fs) = inl refl

calls :
    (f : Directory → Directory) (s : Files)
    → ((call f s).1.directory ≡ f s.directory) ⊎ ((call f s).1.directory ≡ s.directory)
calls f s = calls_of f s.directory s.faults

install_key-IsBacked :
    (id : String) (s : Files) → IsBacked s.directory → IsBacked (install_key id s).1.directory
install_key-IsBacked id s h j b f =
    let r = install_key id s in
    let (same, keys) = install_key-Installs id s in
    let old = h j b (ap (λ (x : Disk). find (bonds_of x) j) (sym same) ∙ f) in
    elim keys [
      | inl (e, _) ↦ (old.0, ap (λ (m : String → Option (List ℕ)). m j) e ∙ old.1)
      | inr (k, e) ↦
          let (k', g) = set_key-kept s.directory.active_key id j k old.0 old.1 in
          (k', ap (λ (m : String → Option (List ℕ)). m j) e ∙ g)
    ]

replaced-IsBacked :
    (peer_id_of : List ℕ → String) (b : Bond) (s : Files) {active store : BondStore} {key : List ℕ}
    → load peer_id_of s.directory.active_bonds ≡ ok active
    → replaced active b ≡ ok store
    → IsBacked s.directory
    → s.directory.active_key b.peer_id ≡ some key
    → IsBacked (record s.directory { active_bonds = saved store })
replaced-IsBacked peer_id_of b s {active} {store} {key} l r h k id x f =
    elim (Bool-cases (str_eq b.peer_id id)) [
      | inl e ↦ (key, ap s.directory.active_key (sym (str_eq→eq b.peer_id id e)) ∙ k)
      | inr e ↦ h id x (
          ap (λ bs. find bs id) (sym (load-bonds_of peer_id_of s.directory.active_bonds l))
          ∙ sym (find-replaced active b id r (λ w. ground (arith, eq→str_eq b.peer_id id (sym w))))
          ∙ f)
    ]

saving-IsBacked :
    (store : BondStore) (s : Files)
    → IsBacked s.directory
    → IsBacked (record s.directory { active_bonds = saved store })
    → IsBacked (call (λ d. record d { active_bonds = saved store }) s).1.directory
saving-IsBacked store s h k = elim (calls (λ d. record d { active_bonds = saved store }) s) [
  | inl e ↦ subst IsBacked (sym e) k
  | inr e ↦ subst IsBacked (sym e) h
]

activate-IsBacked :
    (peer_id_of : List ℕ → String) (b : Bond) (s : Files) {key : List ℕ}
    → IsBacked s.directory
    → s.directory.active_key b.peer_id ≡ some key
    → IsBacked (activate peer_id_of b s).1.directory
unfolding activate
activate-IsBacked peer_id_of b s {key} h k =
    elim (Result-cases (load peer_id_of s.directory.active_bonds)) [
      | inr (x, e) ↦ rw (e, activate) h
      | inl (active, e) ↦ elim (Result-cases (replaced active b)) [
        | inr (x, r) ↦ rw (e, r, activate) h
        | inl (store, r) ↦
            rw (e, r, activate)
              (saving-IsBacked store s h (
                replaced-IsBacked peer_id_of b s {active = active} {store = store} {key = key} e r h
                  k))
      ]
    ]

trust-IsBacked : (d d' : Directory) → trust d' ≡ trust d → IsBacked d → IsBacked d'
trust-IsBacked d d' e h id b f =
    let (key, k) = h id b (ap (λ t. find (bonds_of t.0) id) (sym e) ∙ f) in
    (key, ap (λ t. t.1 id) e ∙ k)

promoted-IsBacked :
    (peer_id_of : List ℕ → String) (id : String) (b : Bond) (s : Files)
    → b.peer_id ≡ id
    → IsBacked s.directory
    → IsBacked (after (λ _. activate peer_id_of b >> discard id) (install_key id s)).1.directory
promoted-IsBacked peer_id_of id b s own h =
    after-Keeps IsBacked (λ _. activate peer_id_of b >> discard id) (install_key id s)
      (install_key-IsBacked id s h)
      λ _ s1 e1.
        let h1 =
          subst (λ (r : Result RecoveryError (Unit {0}) × Files). IsBacked r.1.directory) e1
            (install_key-IsBacked id s h) in
        let (key, k) = install_key-installed id s s1 e1 in
        let h2 =
          activate-IsBacked peer_id_of b s1 {key = key} h1 (ap s1.directory.active_key own ∙ k) in
        after-Keeps IsBacked (λ _. discard id) (activate peer_id_of b s1) h2
          λ _ s2 e2.
            trust-IsBacked s2.directory (discard id s2).1.directory (discard-trust id s2) (
              subst (λ (r : Result RecoveryError (Unit {0}) × Files). IsBacked r.1.directory) e2 h2)

-- Wherever a promotion stops, and whatever fails, every active bond has an active key if that was so
-- before.
pub promote-IsBacked :
    (peer_id_of : List ℕ → String) (id : String) (s : Files)
    → IsBacked s.directory
    → IsBacked (promote peer_id_of id s).1.directory
unfolding promote
promote-IsBacked peer_id_of id s h =
    elim (Result-cases (load peer_id_of s.directory.pending_bonds)) [
      | inr (x, e) ↦ rw (e, promote) h
      | inl (staged, e) ↦ elim (Option-cases (find staged.bonds id)) [
        | inl f ↦ rw (e, f, promote) h
        | inr (b, f) ↦
            rw (e, f, promote)
              (promoted-IsBacked peer_id_of id b s
                (str_eq→eq b.peer_id id (find_peer_id staged.bonds id {b = b} f)) h)
      ]
    ]
