-- ===== src/Presence/NonceCache.antt =====
-- `NonceCache` of crates/syauth-presenced/src/orchestrator.rs; the front of the deque is first.
pub mod Window
pub mod Memory
use desk_unlock.Prelude.{
  ℕ, Bool, false, ◌||◌, List, [], ◌∷◌, ◌++◌, ltb, if◌then◌else◌, length, drop, bytes_eq,
}

abbrev nonce_lru_cap : ℕ
nonce_lru_cap = 64

pub record NonceCache : Type 0 where
  pub nonces : List (List ℕ)

abbrev pub empty : NonceCache
empty = record { nonces = [] }

abbrev pub any_is : List ℕ → List (List ℕ) → Bool
any_is nonce [] = false
any_is nonce (n ∷ ns) = bytes_eq n nonce || any_is nonce ns

unfoldable pub contains : NonceCache → List ℕ → Bool
contains c nonce = any_is nonce c.nonces

-- `pop_front` is `drop 1`.
unfoldable pub insert : NonceCache → List ℕ → NonceCache
insert c nonce =
    let pushed : List (List ℕ) = c.nonces ++ nonce ∷ [] in
    record { nonces = if ltb nonce_lru_cap (length pushed) then drop 1 pushed else pushed }
