-- ===== src/Presence/Reload/Laws.antt =====
-- Which peers a reload leaves.
use desk_unlock.Prelude.{
  ◌≡◌, refl, ap, true, false, ◌||◌, ◌&&◌, arith, some, none, ℕ, Bool, List, [], ◌∷◌, String, str_eq,
  Option, Bool-cases, Option-cases, inl, inr, if◌then◌else◌, str_eq→eq, neq-str_eq,
}
use desk_unlock.Bonds.Store.{BondStore, find}
use desk_unlock.Presence.Peers.{PeerEntry, new_entry, Map, get, put, remove}
use desk_unlock.Presence.Peers.Laws.{get-put_same, get-put_other, get-remove_same, get-remove_other}
use desk_unlock.Presence.Reload.{
  Circumstances, compute_new_set, missing_from, do_remove_peer, do_add_peer, remove_peers,
  add_peers, reload_bonds,
}

abbrev mem : String → List String → Bool
mem id [] = false
mem id (k ∷ ks) = str_eq k id || mem id ks

abbrev is_none : {V : Type 0} → Option V → Bool
is_none none = true
is_none (some _) = false

abbrev both : {V W : Type 0} → Option V → Option W → Bool
both none (some _) = true
both _ _ = false

mem-missing_from :
    {V W : Type 0} (m : Map V) (r : Map W) (id : String)
    → mem id (missing_from m r) ≡ both (get m id) (get r id)
unfolding missing_from get
mem-missing_from m [] id = ground arith
mem-missing_from m ((k, v) ∷ r) id = elim (Bool-cases (str_eq k id)) [
  | inl e ↦ ground (arith, mem-missing_from m r id, ap (get m) (str_eq→eq k id e))
  | inr e ↦ ground (arith, mem-missing_from m r id)
]

get-do_remove_peer :
    (env : Circumstances) (peers : Map PeerEntry) (k id : String)
    → get (do_remove_peer env peers k) id
      ≡ (if str_eq k id && env.removes id then none else get peers id)
unfolding do_remove_peer
get-do_remove_peer env peers k id = elim (Bool-cases (str_eq k id)) [
  | inl e ↦
      let same = str_eq→eq k id e in
      ground (arith, get-remove_same peers k, ap (get (remove peers k)) same, ap env.removes same)
  | inr e ↦ ground (arith, get-remove_other peers k id (neq-str_eq k id e))
]

get-remove_peers :
    (env : Circumstances) (ids : List String) (peers : Map PeerEntry) (id : String)
    → get (remove_peers env ids peers) id
      ≡ (if mem id ids && env.removes id then none else get peers id)
unfolding remove_peers
get-remove_peers env [] peers id = refl
get-remove_peers env (k ∷ ids) peers id = ground (
  arith,
  get-remove_peers env ids (do_remove_peer env peers k) id,
  get-do_remove_peer env peers k id,
)

-- The entry that adding a peer makes, if it makes one.
abbrev added : Circumstances → BondStore → Map (List ℕ) → String → Option PeerEntry
added env store new_set id = elim (get new_set id) [
  | none ↦ none
  | some key ↦ elim (find store.bonds id) [
    | none ↦ none
    | some b ↦ if env.adds id then some (new_entry key (some b.pubkey)) else none
  ]
]

abbrev pub or_else : {V : Type 0} → Option V → Option V → Option V
or_else (some v) w = some v
or_else none w = w

get-do_add_peer :
    (env : Circumstances) (store : BondStore) (new_set : Map (List ℕ)) (peers : Map PeerEntry)
    (k id : String) (key : List ℕ)
    → get new_set k ≡ some key
    → get (do_add_peer env store peers k key) id
      ≡ (if str_eq k id then or_else (added env store new_set id) (get peers id) else get peers id)
unfolding do_add_peer
get-do_add_peer env store new_set peers k id key h = elim (Option-cases (find store.bonds k)) [
  | inl f ↦ elim (Bool-cases (str_eq k id)) [
    | inl e ↦
        let same = str_eq→eq k id e in
        ground (arith, ap (get new_set) same, ap (find store.bonds) same)
    | inr e ↦ ground arith
  ]
  | inr (b, f) ↦
      let entry = new_entry key (some b.pubkey) in
      elim (Bool-cases (str_eq k id)) [
        | inl e ↦
            let same = str_eq→eq k id e in
            ground (
              arith,
              ap (get new_set) same,
              ap (find store.bonds) same,
              ap env.adds same,
              get-put_same peers k entry,
              ap (get (put peers k entry)) same,
            )
        | inr e ↦ ground (arith, get-put_other peers k id entry (neq-str_eq k id e))
      ]
]

get-add_peers :
    (env : Circumstances) (store : BondStore) (new_set : Map (List ℕ)) (ids : List String)
    (peers : Map PeerEntry) (id : String)
    → get (add_peers env store new_set ids peers) id
      ≡ (if mem id ids then or_else (added env store new_set id) (get peers id) else get peers id)
unfolding add_peers
get-add_peers env store new_set [] peers id = refl
get-add_peers env store new_set (k ∷ ids) peers id = elim (Option-cases (get new_set k)) [
  | inl e ↦ elim (Bool-cases (str_eq k id)) [
    | inl same ↦ ground (
      arith,
      get-add_peers env store new_set ids peers id,
      ap (get new_set) (str_eq→eq k id same),
    )
    | inr other ↦ ground (arith, get-add_peers env store new_set ids peers id)
  ]
  | inr (key, e) ↦ ground (
    arith,
    get-add_peers env store new_set ids (do_add_peer env store peers k key) id,
    get-do_add_peer env store new_set peers k id key e,
  )
]

-- What a reload makes of a peer's entry.
abbrev pub reloaded :
    Circumstances → BondStore → String → Option (List ℕ) → Option PeerEntry → Option PeerEntry
reloaded env store id none none = none
reloaded env store id none (some p) = if env.removes id then none else some p
reloaded env store id (some key) (some p) = some p
reloaded env store id (some key) none = elim (find store.bonds id) [
  | none ↦ none
  | some b ↦ if env.adds id then some (new_entry key (some b.pubkey)) else none
]

-- After a reload a peer that the store does not ask for is gone, if the peripheral takes it off; a new
-- one that the store asks for is there with its key and an empty nonce cache, if the peripheral takes
-- it on; and a peer that was there before and is still asked for keeps its entry.
pub get-reload_bonds :
    (env : Circumstances) (store : BondStore) (peers : Map PeerEntry) (id : String)
    → get (reload_bonds env store peers) id
      ≡ reloaded env store id (get (compute_new_set env store) id) (get peers id)
unfolding reload_bonds
get-reload_bonds env store peers id =
    let new_set = compute_new_set env store in
    let left = remove_peers env (missing_from new_set peers) peers in
    ground (
      arith,
      get-add_peers env store new_set (missing_from peers new_set) left id,
      get-remove_peers env (missing_from new_set peers) peers id,
      mem-missing_from new_set peers id,
      mem-missing_from peers new_set id,
    )
