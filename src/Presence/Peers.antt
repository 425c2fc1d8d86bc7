-- ===== src/Presence/Peers.antt =====
-- The peer map of the `Orchestrator` in crates/syauth-presenced/src/orchestrator.rs, as an association
-- list: a key stands in it once, as in the `BTreeMap`, since `put` replaces.
pub mod Laws
use desk_unlock.Prelude.{
  ℕ, Bool, not, Option, none, some, List, [], ◌∷◌, String, str_eq, if◌then◌else◌,
}
use desk_unlock.Presence.NonceCache.{NonceCache, empty}

-- `challenge_slot` is left out: whether it admits a caller is part of the challenge's circumstances.
pub record PeerEntry : Type 0 where
  pub bond_key : List ℕ
  pub phone_pubkey : Option (List ℕ)
  pub nonce_cache : NonceCache
  pub last_challenge_at : Option ℕ
  pub last_connect_at : Option ℕ

-- `PeerEntry::new`.
abbrev pub new_entry : List ℕ → Option (List ℕ) → PeerEntry
new_entry bond_key phone_pubkey = record {
  bond_key = bond_key;
  phone_pubkey = phone_pubkey;
  nonce_cache = empty;
  last_challenge_at = none;
  last_connect_at = none;
}

abbrev pub Map {ℓ} : Type ℓ → Type ℓ
Map V = List (String × V)

module _ {ℓ} {V : Type ℓ} where
  unfoldable pub get : Map V → String → Option V
  get [] k = none
  get ((i, v) ∷ m) k = let rest = get m k in if str_eq i k then some v else rest

  unfoldable pub put : Map V → String → V → Map V
  put [] k v = (k, v) ∷ []
  put ((i, w) ∷ m) k v = let rest = put m k v in if str_eq i k then (k, v) ∷ m else (i, w) ∷ rest

  unfoldable pub remove : Map V → String → Map V
  remove [] k = []
  remove ((i, v) ∷ m) k = let rest = remove m k in if str_eq i k then rest else (i, v) ∷ rest
