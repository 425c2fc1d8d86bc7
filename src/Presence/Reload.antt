-- ===== src/Presence/Reload.antt =====
-- The reload of the bonds in crates/syauth-presenced/src/orchestrator.rs: the peers that the store
-- asks for, the difference to those there are, and its application. The order of a hash set is that
-- of the lists here. The notice to a removed phone, which changes no state, is left out.
pub mod Laws
pub mod Revocation
use desk_unlock.Prelude.{
  ℕ, Bool, true, false, not, ◌&&◌, Option, none, some, List, [], ◌∷◌, String, ◌==◌, if◌then◌else◌,
  length,
}
use desk_unlock.Auth.Crypto.{bond_key_len}
use desk_unlock.Bonds.Store.{Bond, BondStore, is_revoked, find}
use desk_unlock.Presence.Peers.{PeerEntry, new_entry, Map, get, put, remove}

-- Whether the peripheral takes a peer off and on, and what the key directory holds.
pub record Circumstances : Type 0 where
  pub removes : String → Bool
  pub adds : String → Bool
  pub key_file : String → Option (List ℕ)

abbrev pub load_bond_key : Circumstances → String → Option (List ℕ)
load_bond_key env id = elim (env.key_file id) [
  | none ↦ none
  | some bytes ↦ if length bytes == bond_key_len then some bytes else none
]

-- The loop of `compute_new_set`.
unfoldable pub new_set_from : Circumstances → List Bond → Map (List ℕ) → Map (List ℕ)
new_set_from env [] out = out
new_set_from env (b ∷ bs) out =
    let skipped = new_set_from env bs out in
    elim (load_bond_key env b.peer_id) [
      | none ↦ skipped
      | some key ↦
          let inserted = new_set_from env bs (put out b.peer_id key) in
          if is_revoked b then skipped else inserted
    ]

unfoldable pub compute_new_set : Circumstances → BondStore → Map (List ℕ)
unfolding new_set_from
compute_new_set env store = new_set_from env store.bonds []

-- The keys of one map that another does not have.
unfoldable pub missing_from : {V W : Type 0} → Map V → Map W → List String
missing_from m [] = []
missing_from m ((k, _) ∷ rest) =
    let others = missing_from m rest in elim (get m k) [ none ↦ k ∷ others | some _ ↦ others ]

unfoldable pub do_remove_peer : Circumstances → Map PeerEntry → String → Map PeerEntry
do_remove_peer env peers id = if env.removes id then remove peers id else peers

unfoldable pub do_add_peer :
    Circumstances → BondStore → Map PeerEntry → String → List ℕ → Map PeerEntry
do_add_peer env store peers id key = elim (find store.bonds id) [
  | none ↦ peers
  | some b ↦ if env.adds id then put peers id (new_entry key (some b.pubkey)) else peers
]

unfoldable pub remove_peers : Circumstances → List String → Map PeerEntry → Map PeerEntry
unfolding do_remove_peer
remove_peers env [] peers = peers
remove_peers env (id ∷ ids) peers = remove_peers env ids (do_remove_peer env peers id)

unfoldable pub add_peers :
    Circumstances → BondStore → Map (List ℕ) → List String → Map PeerEntry → Map PeerEntry
unfolding do_add_peer
add_peers env store new_set [] peers = peers
add_peers env store new_set (id ∷ ids) peers = elim (get new_set id) [
  | none ↦ add_peers env store new_set ids peers
  | some key ↦ add_peers env store new_set ids (do_add_peer env store peers id key)
]

-- The peers that `reload_bonds` leaves.
unfoldable pub reload_bonds : Circumstances → BondStore → Map PeerEntry → Map PeerEntry
unfolding remove_peers add_peers compute_new_set missing_from
reload_bonds env store peers =
    let new_set = compute_new_set env store in
    let to_add = missing_from peers new_set in
    let to_remove = missing_from new_set peers in
    add_peers env store new_set to_add (remove_peers env to_remove peers)
