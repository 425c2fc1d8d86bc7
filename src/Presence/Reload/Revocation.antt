-- ===== src/Presence/Reload/Revocation.antt =====
-- A revocation in the bond store, followed by a reload; and a bond key that changed on disk.
use desk_unlock.Prelude.{
  ◌≡◌, refl, ap, ◌∙◌, true, false, arith, some, none, ℕ, List, [], ◌∷◌, String, str_eq, Option,
  Bool-cases, Option-cases, inl, inr, if◌then◌else◌, str_eq→eq, neq-str_eq,
}
use desk_unlock.Bonds.Store.{Bond, BondStatus, BondStore, is_revoked, find, mark_revoked}
use desk_unlock.Bonds.Laws.{IsDistinct, revoked_bond}
use desk_unlock.Bonds.Contract.{store-IsDistinct, find-mark_revoked}
use desk_unlock.Presence.Peers.{PeerEntry, Map, get, put}
use desk_unlock.Presence.Peers.Laws.{get-put_same, get-put_other}
use desk_unlock.Presence.Reload.{
  Circumstances, load_bond_key, new_set_from, compute_new_set, reload_bonds,
}
use desk_unlock.Presence.Reload.Laws.{get-reload_bonds, or_else}

-- The key that a bond puts into the new set.
abbrev wanted : Circumstances → String → Option Bond → Option (List ℕ)
wanted env id none = none
wanted env id (some b) = if is_revoked b then none else load_bond_key env id

get-new_set_from :
    (env : Circumstances) (bs : List Bond) (out : Map (List ℕ)) (id : String)
    → IsDistinct bs
    → get (new_set_from env bs out) id ≡ or_else (wanted env id (find bs id)) (get out id)
unfolding new_set_from find
get-new_set_from env [] out id d = refl
get-new_set_from env (b ∷ bs) out id d = elim (Option-cases (load_bond_key env b.peer_id)) [
  | inl k ↦ elim (Bool-cases (str_eq b.peer_id id)) [
    | inl e ↦
        let same = str_eq→eq b.peer_id id e in
        ground (
          arith,
          get-new_set_from env bs out id d.1,
          ap (find bs) same,
          ap (load_bond_key env) same,
          d.0,
        )
    | inr e ↦ ground (arith, get-new_set_from env bs out id d.1)
  ]
  | inr (key, k) ↦ elim (Bool-cases (str_eq b.peer_id id)) [
    | inl e ↦
        let same = str_eq→eq b.peer_id id e in
        ground (
          arith,
          get-new_set_from env bs out id d.1,
          get-new_set_from env bs (put out b.peer_id key) id d.1,
          ap (find bs) same,
          ap (load_bond_key env) same,
          d.0,
          get-put_same out b.peer_id key,
          ap (get (put out b.peer_id key)) same,
        )
    | inr e ↦ ground (
      arith,
      get-new_set_from env bs out id d.1,
      get-new_set_from env bs (put out b.peer_id key) id d.1,
      get-put_other out b.peer_id id key (neq-str_eq b.peer_id id e),
    )
  ]
]

or_else-none : {V : Type 0} (o : Option V) → or_else o none ≡ o
or_else-none none = refl
or_else-none (some v) = refl

get-compute_new_set :
    (env : Circumstances) (s : BondStore) (id : String)
    → IsDistinct s.bonds
    → get (compute_new_set env s) id ≡ wanted env id (find s.bonds id)
unfolding compute_new_set get
get-compute_new_set env s id d =
    get-new_set_from env s.bonds [] id d ∙ or_else-none (wanted env id (find s.bonds id))

wanted-revoked :
    (env : Circumstances) (id reason : String) (o : Option Bond)
    → wanted env id (revoked_bond reason o) ≡ none
wanted-revoked env id reason none = refl
wanted-revoked env id reason (some b) = ground arith

-- After a peer is revoked in a store with one bond for each peer, a reload leaves the daemon without
-- it, if the peripheral takes it off: no challenge finds it any more.
pub revoked_peer_gone :
    (env : Circumstances) (s : BondStore) (peers : Map PeerEntry) (id reason : String)
    → IsDistinct s.bonds
    → env.removes id ≡ true
    → get (reload_bonds env (mark_revoked s id reason).0 peers) id ≡ none
revoked_peer_gone env s peers id reason d r =
    let s' = (mark_revoked s id reason).0 in
    let (_, _, d') = store-IsDistinct s gone id reason d in
    let unwanted : get (compute_new_set env s') id ≡ none =
      get-compute_new_set env s' id d'
      ∙ ap (wanted env id) (find-mark_revoked s id reason)
      ∙ wanted-revoked env id reason (find s.bonds id) in
    ground (arith, get-reload_bonds env s' peers id, unwanted)
  where
    gone : Bond
    gone = record {
      peer_id = id;
      pubkey = [];
      name = reason;
      created_at = 0;
      status = BondStatus.bonded;
    }

-- A reload does not refresh a key: a peer that is there and still bonded keeps the bond key that it
-- was added with, whatever key its file holds now.
reload_keeps_key :
    (env : Circumstances) (s : BondStore) (peers : Map PeerEntry) (id : String) (p : PeerEntry)
    (b : Bond) (key : List ℕ)
    → IsDistinct s.bonds
    → get peers id ≡ some p
    → find s.bonds id ≡ some b
    → is_revoked b ≡ false
    → load_bond_key env id ≡ some key
    → get (reload_bonds env s peers) id ≡ some p
reload_keeps_key env s peers id p b key d g f n k =
    ground (arith, get-reload_bonds env s peers id, get-compute_new_set env s id d)
