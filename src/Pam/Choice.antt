-- ===== src/Pam/Choice.antt =====
-- Which bond an unlock challenges.
use desk_unlock.Prelude.{
  ◌≡◌, ◌⊎◌, ◌≤◌, refl, ap, true, false, arith, some, none, ℕ, List, [], ◌∷◌, ◌++◌, All, Bool-cases,
  inl, inr, ltb,
}
use desk_unlock.Bonds.Store.{Bond, BondStore, is_revoked}
use desk_unlock.Pam.Auth.{first_bonded, first_bonded_in}

-- A bond that is revoked, or not newer than a time.
abbrev IsOlder : ℕ → Bond → Type 0
IsOlder t x = (is_revoked x ≡ true) ⊎ (x.created_at ≤ t)

-- A bond that stands in a list, is not revoked, and is the newest of those that are not.
abbrev pub IsNewest : List Bond → Bond → Type 0
IsNewest bs b =
    ((before : List Bond) × (after : List Bond) × (bs ≡ before ++ b ∷ after))
    × (is_revoked b ≡ false)
    × All (IsOlder b.created_at) bs

IsOlder-le : (s t : ℕ) (bs : List Bond) → s ≤ t → All (IsOlder s) bs → All (IsOlder t) bs
IsOlder-le s t [] h a = tt
IsOlder-le s t (x ∷ bs) h (o, a) = (older o, IsOlder-le s t bs h a)
  where
    older : IsOlder s x → IsOlder t x
    older (inl r) = inl r
    older (inr l) = inr (omega (arith, l, h))

revoked-IsOlder : (t : ℕ) (bs : List Bond) → All (λ x. is_revoked x ≡ true) bs → All (IsOlder t) bs
revoked-IsOlder t [] a = tt
revoked-IsOlder t (x ∷ bs) (r, a) = (inl r, revoked-IsOlder t bs a)

abbrev Chosen : List Bond → Type 0
Chosen bs =
    (first_bonded_in bs ≡ none) × All (λ x. is_revoked x ≡ true) bs
    ⊎ ((b : Bond) × (first_bonded_in bs ≡ some b) × IsNewest bs b)

first_bonded_in-Chosen : (bs : List Bond) → Chosen bs
unfolding first_bonded_in
first_bonded_in-Chosen [] = inl (refl, tt)
first_bonded_in-Chosen (x ∷ bs) = elim (Bool-cases (is_revoked x)) [
  | inl r ↦ elim (first_bonded_in-Chosen bs) [
    | inl (e, a) ↦ inl (ground arith, (r, a))
    | inr (b, e, ((before, after, w), n, a)) ↦
        inr (b, ground arith, ((x ∷ before, after, ap (◌∷◌ x) w), n, (inl r, a)))
  ]
  | inr r ↦ elim (first_bonded_in-Chosen bs) [
    | inl (e, a) ↦ inr (
      x,
      ground arith,
      (([], bs, refl), r, (inr (omega arith), revoked-IsOlder x.created_at bs a)),
    )
    | inr (b, e, ((before, after, w), n, a)) ↦ elim (Bool-cases (ltb b.created_at x.created_at)) [
      | inl newer ↦ inr (
        x,
        ground arith,
        (
          ([], bs, refl),
          r,
          (inr (omega arith), IsOlder-le b.created_at x.created_at bs (ground arith) a),
        ),
      )
      | inr older ↦
          inr (b, ground arith, ((x ∷ before, after, ap (◌∷◌ x) w), n, (inr (ground arith), a)))
    ]
  ]
]

-- The bond that an unlock challenges is one of the store that is not revoked, and the newest of those;
-- there is none exactly when every bond is revoked.
pub first_bonded-IsNewest :
    (s : BondStore)
    → (first_bonded s ≡ none) × All (λ x. is_revoked x ≡ true) s.bonds
      ⊎ ((b : Bond) × (first_bonded s ≡ some b) × IsNewest s.bonds b)
unfolding first_bonded
first_bonded-IsNewest s = first_bonded_in-Chosen s.bonds
