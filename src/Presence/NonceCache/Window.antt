-- ===== src/Presence/NonceCache/Window.antt =====
-- Lemmas on `NonceCache::insert` of crates/syauth-presenced/src/orchestrator.rs: what stays in the
-- window, and for how long.
use mathlib.Core.List.{append_assoc, append-nil}
use desk_unlock.Prelude.{
  ◌≡◌, ◌≤◌, ◌<◌, refl, ap, sym, ◌∙◌, true, arith, ℕ, zero, suc, ◌+◌, ◌-◌, List, [], ◌∷◌, ◌++◌,
  length, drop, length-append, length-drop, ltb, Bool-cases, inl, inr, bytes_eq_refl,
}
use desk_unlock.Presence.NonceCache.{NonceCache, empty, contains, insert, any_is}

abbrev pub insert_all : NonceCache → List (List ℕ) → NonceCache
insert_all c [] = c
insert_all c (n ∷ ns) = insert_all (insert c n) ns

-- At most 64 nonces.
abbrev pub IsBounded : NonceCache → Type 0
IsBounded c = length c.nonces ≤ 64

insert-IsBounded : (c : NonceCache) (n : List ℕ) → IsBounded c → IsBounded (insert c n)
unfolding insert
insert-IsBounded c n h =
    ground (arith, length-append c.nonces (n ∷ []), length-drop 1 (c.nonces ++ n ∷ []))

insert_window :
    (ns : List (List ℕ)) (n : List ℕ)
    → length ns ≤ 64
    → (insert (record { nonces = ns }) n).nonces ≡ drop (length ns + 1 - 64) (ns ++ n ∷ [])
unfolding insert
insert_window ns n h =
    let len = length-append ns (n ∷ []) in
    elim (Bool-cases (ltb 64 (length (ns ++ n ∷ [])))) [
      | inl full ↦
          rw full
            (ap (λ k. drop k (ns ++ n ∷ [])) {x = 1} {y = length ns + 1 - 64} (ground (arith, len)))
      | inr room ↦
          rw room
            (ap (λ k. drop k (ns ++ n ∷ [])) {x = 0} {y = length ns + 1 - 64} (ground (arith, len)))
    ]

-- Dropping from what an insertion leaves is dropping from the whole.
drop-append_drop {ℓ} :
    {A : Type ℓ} (k j : ℕ) (xs ys : List A)
    → k ≤ length xs
    → drop j (drop k xs ++ ys) ≡ drop (k + j) (xs ++ ys)
drop-append_drop zero j xs ys h = ap (λ i. drop i (xs ++ ys)) {x = j} {y = 0 + j} (omega arith)
drop-append_drop (suc k) j [] ys h = absurd (omega arith)
drop-append_drop (suc k) j (x ∷ xs) ys h =
    drop-append_drop k j xs ys (omega arith)
    ∙ ap (λ i. drop i (x ∷ xs ++ ys)) {x = suc (k + j)} {y = suc k + j} (omega arith)

insert_all_window :
    (c : NonceCache) (ns : List (List ℕ))
    → IsBounded c
    → (insert_all c ns).nonces ≡ drop (length c.nonces + length ns - 64) (c.nonces ++ ns)
insert_all_window c [] h =
    sym (append-nil c.nonces)
    ∙ ap (λ k. drop k (c.nonces ++ [])) {x = 0} {y = length c.nonces + 0 - 64} (omega (arith, h))
insert_all_window c (n ∷ ns) h =
    let k : ℕ = length c.nonces + 1 - 64 in
    let one = insert_window c.nonces n h in
    let len : length (insert c n).nonces ≡ length c.nonces + 1 - k =
      ap length one
      ∙ length-drop k (c.nonces ++ n ∷ [])
      ∙ ap (λ i. i - k) (length-append c.nonces (n ∷ [])) in
    let j : ℕ = length (insert c n).nonces + length ns - 64 in
    insert_all_window (insert c n) ns (insert-IsBounded c n h)
    ∙ ap (λ l. drop j (l ++ ns)) one
    ∙ drop-append_drop k j (c.nonces ++ n ∷ []) ns (omega (arith, length-append c.nonces (n ∷ [])))
    ∙ ap (drop (k + j)) (append_assoc c.nonces (n ∷ []) ns)
    ∙ ap (λ i. drop i (c.nonces ++ n ∷ ns)) {x = k + j} {y = length c.nonces + suc (length ns) - 64}
        (omega (arith, len, h))

-- From an empty cache, what is kept of any nonces put in is exactly the last 64 of them.
insert_all-empty : (ns : List (List ℕ)) → (insert_all empty ns).nonces ≡ drop (length ns - 64) ns
insert_all-empty ns =
    insert_all_window empty ns (omega arith)
    ∙ ap (λ k. drop k ns) {x = 0 + length ns - 64} {y = length ns - 64} (omega arith)

any_is-append : (n : List ℕ) (xs ys : List (List ℕ)) → any_is n (xs ++ n ∷ ys) ≡ true
any_is-append n [] ys = ground (arith, bytes_eq_refl n)
any_is-append n (x ∷ xs) ys = ground (arith, any_is-append n xs ys)

drop-append_le {ℓ} :
    {A : Type ℓ} (k : ℕ) (xs ys : List A) → k ≤ length xs → drop k (xs ++ ys) ≡ drop k xs ++ ys
drop-append_le zero xs ys h = refl
drop-append_le (suc k) [] ys h = absurd (omega arith)
drop-append_le (suc k) (x ∷ xs) ys h = drop-append_le k xs ys (omega arith)

-- A nonce that was put in is known until 64 others have been put in after it.
pub contains-insert_all :
    (c : NonceCache) (n : List ℕ) (ns : List (List ℕ))
    → IsBounded c
    → length ns < 64
    → contains (insert_all (insert c n) ns) n ≡ true
unfolding contains
contains-insert_all c n ns h b =
    let k : ℕ = length c.nonces + suc (length ns) - 64 in
    ap (any_is n)
      (insert_all_window c (n ∷ ns) h ∙ drop-append_le k c.nonces (n ∷ ns) (omega (arith, h, b)))
    ∙ any_is-append n (drop k c.nonces) ns

any_is-snoc : (n : List ℕ) (ns : List (List ℕ)) → any_is n (ns ++ n ∷ []) ≡ true
any_is-snoc n [] = rw (bytes_eq_refl n) refl
any_is-snoc n (m ∷ ns) = ground (arith, any_is-snoc n ns)

last_stays :
    (ns : List (List ℕ)) (n : List ℕ) → contains (insert (record { nonces = ns }) n) n ≡ true
unfolding contains insert
last_stays [] n = rw (bytes_eq_refl n) refl
last_stays (m ∷ ns) n = ground (arith, any_is-snoc n ns, any_is-snoc n (m ∷ ns))

-- What was put into a cache last is in it, however many nonces it holds.
pub contains-insert : (c : NonceCache) (n : List ℕ) → contains (insert c n) n ≡ true
contains-insert c n = last_stays c.nonces n
