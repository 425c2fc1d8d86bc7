-- ===== src/Bonds/Laws.antt =====
-- Lemmas on `add`, `remove` and `mark_revoked` of the bond store of crates/syauth-core.
use desk_unlock.Prelude.{
  ◌≡◌, ◌≢◌, refl, ap, sym, ◌∙◌, arith, some, none, ℕ, List, [], ◌∷◌, ◌++◌, String, str_eq, All,
  Bool-cases, inl, inr, str_eq→eq, str_neq, neq-str_eq, Option, if◌then◌else◌,
}
use desk_unlock.Bonds.Store.{Bond, find, without, revoke_bond, with_revoked}

-- Each peer stands in the list once.
abbrev pub IsDistinct : List Bond → Type 0
IsDistinct [] = Unit
IsDistinct (b ∷ bs) = (find bs b.peer_id ≡ none) × IsDistinct bs

-- Each identifier is the one of its public key.
abbrev pub AreGenuine : (List ℕ → String) → List Bond → Type 0
AreGenuine peer_id_of = All (λ b. b.peer_id ≡ peer_id_of b.pubkey)

pub find-append :
    (bs : List Bond) (b : Bond) (id : String)
    → find (bs ++ b ∷ []) id
      ≡ elim (find bs id) [ some x ↦ some x | none ↦ if str_eq b.peer_id id then some b else none ]
unfolding find
find-append [] b id = refl
find-append (x ∷ bs) b id = ground (arith, find-append bs b id)

pub append-IsDistinct :
    (bs : List Bond) (b : Bond)
    → IsDistinct bs
    → find bs b.peer_id ≡ none
    → IsDistinct (bs ++ b ∷ [])
unfolding find
append-IsDistinct [] b d f = (refl, tt)
append-IsDistinct (x ∷ bs) b d f = elim (Bool-cases (str_eq x.peer_id b.peer_id)) [
  | inl e ↦ absurd (ground arith)
  | inr e ↦
      let other = str_neq b.peer_id x.peer_id (λ h. neq-str_eq x.peer_id b.peer_id e (sym h)) in
      (ground (arith, find-append bs b x.peer_id), append-IsDistinct bs b d.1 (ground arith))
]

find-without-none :
    (bs : List Bond) (id j : String) → find bs j ≡ none → find (without bs id) j ≡ none
unfolding find without
find-without-none [] id j f = refl
find-without-none (b ∷ bs) id j f = ground (arith, find-without-none bs id j)

pub without-IsDistinct : (bs : List Bond) (id : String) → IsDistinct bs → IsDistinct (without bs id)
unfolding without
without-IsDistinct [] id d = tt
without-IsDistinct (b ∷ bs) id d = elim (Bool-cases (str_eq b.peer_id id)) [
  | inl e ↦ rw (e, without) d.1
  | inr e ↦ rw (e, without) (find-without-none bs id b.peer_id d.0, without-IsDistinct bs id d.1)
]

pub find-without_same :
    (bs : List Bond) (id : String) → IsDistinct bs → find (without bs id) id ≡ none
unfolding find without
find-without_same [] id d = refl
find-without_same (b ∷ bs) id d = elim (Bool-cases (str_eq b.peer_id id)) [
  | inl e ↦ ground (arith, ap (find bs) (str_eq→eq b.peer_id id e))
  | inr e ↦ ground (arith, find-without_same bs id d.1)
]

pub find-without_other :
    (bs : List Bond) (id j : String) → j ≢ id → find (without bs id) j ≡ find bs j
unfolding find without
find-without_other [] id j n = refl
find-without_other (b ∷ bs) id j n = elim (Bool-cases (str_eq b.peer_id id)) [
  | inl e ↦
      let other = str_neq b.peer_id j (λ h. n (sym h ∙ str_eq→eq b.peer_id id e)) in ground arith
  | inr e ↦ ground (arith, find-without_other bs id j n)
]

-- What a revocation makes of the bond that is found.
abbrev pub revoked_bond : String → Option Bond → Option Bond
revoked_bond reason none = none
revoked_bond reason (some b) = some (revoke_bond reason b)

pub find-with_revoked :
    (bs : List Bond) (id reason : String)
    → find (with_revoked bs id reason) id ≡ revoked_bond reason (find bs id)
unfolding find with_revoked
find-with_revoked [] id reason = refl
find-with_revoked (b ∷ bs) id reason = ground (arith, find-with_revoked bs id reason)

pub find-with_revoked_other :
    (bs : List Bond) (id reason j : String)
    → j ≢ id
    → find (with_revoked bs id reason) j ≡ find bs j
unfolding find with_revoked
find-with_revoked_other [] id reason j n = refl
find-with_revoked_other (b ∷ bs) id reason j n = elim (Bool-cases (str_eq b.peer_id id)) [
  | inl e ↦
      let other = str_neq b.peer_id j (λ h. n (sym h ∙ str_eq→eq b.peer_id id e)) in ground arith
  | inr e ↦ ground (arith, find-with_revoked_other bs id reason j n)
]
