-- ===== src/Presence/Peers/Laws.antt =====
-- Lookup after an update of the map.
use desk_unlock.Prelude.{
  ◌≡◌, ◌≢◌, refl, sym, ◌∙◌, some, none, [], ◌∷◌, String, str_eq, str_eq_refl, str_eq→eq, str_neq,
  Bool-cases, inl, inr,
}
use desk_unlock.Presence.Peers.{Map, get, put, remove}

module _ {ℓ} {V : Type ℓ} where
  pub get-put_same : (m : Map V) (k : String) (v : V) → get (put m k v) k ≡ some v
  unfolding get put
  get-put_same [] k v = rw (str_eq_refl k) refl
  get-put_same ((i, w) ∷ m) k v = elim (Bool-cases (str_eq i k)) [
    | inl e ↦ rw (e, str_eq_refl k) refl
    | inr e ↦ rw (e, e) (get-put_same m k v)
  ]

  pub get-put_other : (m : Map V) (j k : String) (v : V) → j ≢ k → get (put m j v) k ≡ get m k
  unfolding get put
  get-put_other [] j k v n = rw (str_neq j k n) refl
  get-put_other ((i, w) ∷ m) j k v n = elim (Bool-cases (str_eq i j)) [
    | inl e ↦ rw (e, str_neq j k n, str_neq i k (λ h. n (sym (str_eq→eq i j e) ∙ h))) refl
    | inr e ↦ elim (Bool-cases (str_eq i k)) [
      | inl f ↦ rw (e, f) refl
      | inr f ↦ rw (e, f) (get-put_other m j k v n)
    ]
  ]

  pub get-remove_same : (m : Map V) (k : String) → get (remove m k) k ≡ none
  unfolding get remove
  get-remove_same [] k = refl
  get-remove_same ((i, w) ∷ m) k = elim (Bool-cases (str_eq i k)) [
    | inl e ↦ rw e (get-remove_same m k)
    | inr e ↦ rw (e, e) (get-remove_same m k)
  ]

  pub get-remove_other : (m : Map V) (j k : String) → j ≢ k → get (remove m j) k ≡ get m k
  unfolding get remove
  get-remove_other [] j k n = refl
  get-remove_other ((i, w) ∷ m) j k n = elim (Bool-cases (str_eq i j)) [
    | inl e ↦ rw (e, str_neq i k (λ h. n (sym (str_eq→eq i j e) ∙ h))) (get-remove_other m j k n)
    | inr e ↦ elim (Bool-cases (str_eq i k)) [
      | inl f ↦ rw (e, f) refl
      | inr f ↦ rw (e, f) (get-remove_other m j k n)
    ]
  ]
