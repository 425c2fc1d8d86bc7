-- ===== src/Examples/RotationRuns.antt =====
-- Rotations of the session identifiers on concrete inputs.
use desk_unlock.Prelude.{
  ℕ, ◌≡◌, ◌≤◌, ◌+◌, ◌*◌, ◌⊎◌, ◌↔◌, arith, true, List, [], ◌∷◌, ◌++◌, take, replicate, none,
}
use desk_unlock.Presence.Peers.{PeerEntry, Map, new_entry}
use desk_unlock.Presence.Rotation.{
  SystemTime, align_to_next_minute, minute_index, contains_uuid, rotate_once, peers_snapshot,
  pair_mode_zero_bond_key,
}
use desk_unlock.Presence.Rotation.Minutes.{rotation_follows_minutes}
use desk_unlock.Presence.Rotation.Union.{rotate_once-publishes, HasNoRepeats, IsOfPeer, AreShown}

abbrev at : ℕ → SystemTime
at = SystemTime.since_epoch

-- Started 12.3 s into a minute; the third rotation comes 0.2 s late.
rotation_follows_minutes_example :
    let wait = align_to_next_minute (at 612300) in
    (1 ≤ wait)
    × (wait ≤ 60)
    × (minute_index (at (612300 + 1000 * wait + 60000 * 2 + 200))
        ≡ minute_index (at 612300) + 1 + 2)
rotation_follows_minutes_example = rotation_follows_minutes 612300 2 200 (omega arith) (omega arith)

-- The identifier is the key and the minute.
abbrev uuid_for : List ℕ → ℕ → List ℕ
uuid_for key minute = take 15 key ++ minute ∷ []

abbrev peers : Map PeerEntry
peers =
    ("a1", new_entry (replicate 32 9) none)
    ∷ ("b2", new_entry (replicate 32 7) none)
    ∷ ("c3", new_entry (replicate 32 9) none)
    ∷ []

abbrev sought : List ℕ
sought = replicate 15 7 ++ 10 ∷ []

rotate_once-publishes_example :
    let set = rotate_once uuid_for peers (at 612300) in
    HasNoRepeats set
    × ((contains_uuid set sought ≡ true)
        ↔ ((sought ≡ uuid_for pair_mode_zero_bond_key 10) ⊎ IsOfPeer uuid_for peers 10 sought))
    × AreShown uuid_for set (peers_snapshot uuid_for peers 612300)
rotate_once-publishes_example = rotate_once-publishes uuid_for peers 612300 sought
