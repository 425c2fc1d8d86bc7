-- ===== src/Presence/Rotation/Union.antt =====
-- Which identifiers crates/syauth-presenced/src/orchestrator.rs publishes for a minute.
use desk_unlock.Prelude.{
  ℕ, ◌≡◌, ◌⊎◌, refl, sym, arith, true, false, List, [], ◌∷◌, String, bytes_eq, bytes_eq_refl,
  bytes_eq→eq, Bool-cases, inl, inr, ◌↔◌, All,
}
use desk_unlock.Presence.Peers.{PeerEntry, Map}
use desk_unlock.Presence.Rotation.{
  SystemTime, minute_index, contains_uuid, insert_uuid, session_uuids, build_uuid_union,
  snapshot_peers, rotate_once, peers_snapshot, PeerStatus, pair_mode_zero_bond_key,
}

contains-insert :
    (u v : List ℕ) (set : List (List ℕ))
    → contains_uuid (insert_uuid u set) v ≡ true
    → (v ≡ u) ⊎ (contains_uuid set v ≡ true)
unfolding contains_uuid
contains-insert u v set h = elim (Bool-cases (bytes_eq u v)) [
  | inl e ↦ inl (sym (bytes_eq→eq u v e))
  | inr e ↦ inr (ground arith)
]

contains-inserted : (u : List ℕ) (set : List (List ℕ)) → contains_uuid (insert_uuid u set) u ≡ true
unfolding contains_uuid
contains-inserted u set = ground (arith, bytes_eq_refl u)

contains-kept :
    (u v : List ℕ) (set : List (List ℕ))
    → contains_uuid set v ≡ true
    → contains_uuid (insert_uuid u set) v ≡ true
unfolding contains_uuid
contains-kept u v set h = ground arith

-- No identifier stands in the list twice.
abbrev pub HasNoRepeats : List (List ℕ) → Type 0
HasNoRepeats [] = Unit {0}
HasNoRepeats (u ∷ us) = (contains_uuid us u ≡ false) × HasNoRepeats us

insert-HasNoRepeats :
    (u : List ℕ) (set : List (List ℕ)) → HasNoRepeats set → HasNoRepeats (insert_uuid u set)
insert-HasNoRepeats u set h = elim (Bool-cases (contains_uuid set u)) [
  | inl e ↦ rw e h
  | inr e ↦ rw e (e, h)
]

-- A peer of the table has the identifier for the minute.
module _ (session_uuid_for : List ℕ → ℕ → List ℕ) where
  abbrev pub IsOfPeer : Map PeerEntry → ℕ → List ℕ → Type 0
  IsOfPeer [] minute u = ⊥
  IsOfPeer ((id, entry) ∷ m) minute u =
      (u ≡ session_uuid_for entry.bond_key minute) ⊎ IsOfPeer m minute u

  uuids-IsOfPeer :
      (m : Map PeerEntry) (minute : ℕ) (u : List ℕ)
      → contains_uuid (session_uuids session_uuid_for (snapshot_peers m) minute) u ≡ true
      → IsOfPeer m minute u
  unfolding snapshot_peers session_uuids contains_uuid
  uuids-IsOfPeer [] minute u h = ground arith
  uuids-IsOfPeer ((id, entry) ∷ m) minute u h =
      elim (contains-insert (session_uuid_for entry.bond_key minute) u
        (session_uuids session_uuid_for (snapshot_peers m) minute) h) [
          | inl e ↦ inl e
          | inr k ↦ inr (uuids-IsOfPeer m minute u k)
        ]

  IsOfPeer-uuids :
      (m : Map PeerEntry) (minute : ℕ) (u : List ℕ)
      → IsOfPeer m minute u
      → contains_uuid (session_uuids session_uuid_for (snapshot_peers m) minute) u ≡ true
  unfolding snapshot_peers session_uuids
  IsOfPeer-uuids [] minute u h = absurd h
  IsOfPeer-uuids ((id, entry) ∷ m) minute u (inl e) = rw e (
      contains-inserted (session_uuid_for entry.bond_key minute)
        (session_uuids session_uuid_for (snapshot_peers m) minute))
  IsOfPeer-uuids ((id, entry) ∷ m) minute u (inr h) =
      contains-kept (session_uuid_for entry.bond_key minute) u
        (session_uuids session_uuid_for (snapshot_peers m) minute) (IsOfPeer-uuids m minute u h)

  session_uuids-HasNoRepeats :
      (snapshot : List (String × List ℕ)) (minute : ℕ)
      → HasNoRepeats (session_uuids session_uuid_for snapshot minute)
  unfolding session_uuids
  session_uuids-HasNoRepeats [] minute = tt
  session_uuids-HasNoRepeats ((id, key) ∷ snapshot) minute =
      insert-HasNoRepeats (session_uuid_for key minute)
        (session_uuids session_uuid_for snapshot minute)
        (session_uuids-HasNoRepeats snapshot minute)

  -- The rows show identifiers that a set holds.
  abbrev pub AreShown : List (List ℕ) → List PeerStatus → Type 0
  AreShown set = All (λ row. contains_uuid set row.current_session_uuid ≡ true)

  peers_snapshot-AreShown :
      (m : Map PeerEntry) (now : ℕ) (set : List (List ℕ))
      → ((u : List ℕ)
          → IsOfPeer m (minute_index (SystemTime.since_epoch now)) u
          → contains_uuid set u ≡ true)
      → AreShown set (peers_snapshot session_uuid_for m now)
  unfolding peers_snapshot
  peers_snapshot-AreShown [] now set h = tt
  peers_snapshot-AreShown ((id, entry) ∷ m) now set h = (
    h (session_uuid_for entry.bond_key (minute_index (SystemTime.since_epoch now))) (inl refl),
    peers_snapshot-AreShown m now set λ u k. h u (inr k),
  )

  -- A rotation publishes, without repetition, exactly the identifiers of the peers for its minute and
  -- the one of the pair mode; and the status of the peers shows identifiers that a rotation at the same
  -- time publishes.
  pub rotate_once-publishes :
      (m : Map PeerEntry) (now : ℕ) (u : List ℕ)
      → let minute = minute_index (SystemTime.since_epoch now) in
        let set = rotate_once session_uuid_for m (SystemTime.since_epoch now) in
        HasNoRepeats set
        × ((contains_uuid set u ≡ true)
            ↔ ((u ≡ session_uuid_for pair_mode_zero_bond_key minute) ⊎ IsOfPeer m minute u))
        × AreShown set (peers_snapshot session_uuid_for m now)
  unfolding rotate_once build_uuid_union
  rotate_once-publishes m now u =
      let minute = minute_index (SystemTime.since_epoch now) in
      let pair = session_uuid_for pair_mode_zero_bond_key minute in
      let uuids = session_uuids session_uuid_for (snapshot_peers m) minute in
      (
        insert-HasNoRepeats pair uuids (session_uuids-HasNoRepeats (snapshot_peers m) minute),
        (
          λ h. elim (contains-insert pair u uuids h) [
            | inl e ↦ inl e
            | inr k ↦ inr (uuids-IsOfPeer m minute u k)
          ],
          λ h. elim h [
            | inl e ↦ rw e (contains-inserted pair uuids)
            | inr k ↦ contains-kept pair u uuids (IsOfPeer-uuids m minute u k)
          ],
        ),
        peers_snapshot-AreShown m now (insert_uuid pair uuids)
            λ v k. contains-kept pair v uuids (IsOfPeer-uuids m minute v k),
      )
