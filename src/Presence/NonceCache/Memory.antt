-- ===== src/Presence/NonceCache/Memory.antt =====
-- A nonce in the cache of crates/syauth-presenced/src/orchestrator.rs, over the insertions that follow.
use desk_unlock.Prelude.{
  ◌≡◌, ◌⊎◌, ◌≤◌, ◌<◌, refl, ap, sym, ◌∙◌, true, arith, ℕ, suc, List, [], ◌∷◌, ◌++◌, length, inl,
  inr, length-append,
}
use desk_unlock.Presence.NonceCache.{NonceCache, contains, insert}
use desk_unlock.Presence.NonceCache.Window.{insert_all, IsBounded, contains-insert_all}

-- What a challenge with a nonce may do to a cache: nothing, or put the nonce in.
abbrev pub StepsTo : List ℕ → NonceCache → NonceCache → Type 0
StepsTo n a b = (b ≡ a) ⊎ (b ≡ insert a n)

-- A cache into which a nonce was put, and then at most `k` others.
abbrev pub Holds : List ℕ → ℕ → NonceCache → Type 0
Holds n k c =
    (before : NonceCache) × (later : List (List ℕ)) × IsBounded before
    × (length later ≤ k)
    × (c ≡ insert_all (insert before n) later)

insert_all-snoc :
    (c : NonceCache) (ns : List (List ℕ)) (m : List ℕ)
    → insert_all c (ns ++ m ∷ []) ≡ insert (insert_all c ns) m
insert_all-snoc c [] m = refl
insert_all-snoc c (n ∷ ns) m = insert_all-snoc (insert c n) ns m

pub StepsTo-Holds :
    (n m : List ℕ) (k : ℕ) (a b : NonceCache) → StepsTo m a b → Holds n k a → Holds n (suc k) b
StepsTo-Holds n m k a b (inl e) (c, later, h, l, w) = (c, later, h, omega (arith, l), e ∙ w)
StepsTo-Holds n m k a b (inr e) (c, later, h, l, w) = (
  c,
  later ++ m ∷ [],
  h,
  omega (arith, l, length-append later (m ∷ [])),
  e ∙ ap (λ x. insert x m) w ∙ sym (insert_all-snoc (insert c n) later m),
)

pub Holds-contains :
    (n : List ℕ) (k : ℕ) (c : NonceCache) → k < 64 → Holds n k c → contains c n ≡ true
Holds-contains n k c b (before, later, h, l, w) =
    ap (λ x. contains x n) w ∙ contains-insert_all before n later h (omega (arith, l, b))

pub Holds-suc : (n : List ℕ) (k : ℕ) (c : NonceCache) → Holds n k c → Holds n (suc k) c
Holds-suc n k c (before, later, h, l, w) = (before, later, h, omega (arith, l), w)
