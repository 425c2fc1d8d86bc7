-- ===== src/Presence/Rotation.antt =====
-- The rotation of the session identifiers in crates/syauth-presenced/src/orchestrator.rs, and the
-- snapshot for the status. A time is a number of milliseconds since the epoch. `session_uuid_for`, which
-- is HKDF, is a parameter. A `HashSet` is a list without repetition.
pub mod Minutes
pub mod Union
use desk_unlock.Prelude.{
  ℕ, suc, ◌+◌, ◌-◌, ◌*◌, ◌/◌, ◌%◌, ◌^◌, min, Bool, true, false, ◌||◌, Option, none, some, List, [],
  ◌∷◌, ◌++◌, String, ltb, leb, if◌then◌else◌, bytes_eq, length, take, replicate, map,
}
use desk_unlock.Bonds.Journal.{hex_digit}
use desk_unlock.Presence.Peers.{PeerEntry, Map}

abbrev pub seconds_per_minute : ℕ
seconds_per_minute = 60

abbrev pub short_uuid_hex_len : ℕ
short_uuid_hex_len = 8

pub data SystemTime : Type 0 where
  before_epoch : SystemTime
  since_epoch : ℕ → SystemTime

-- `duration_since(UNIX_EPOCH)` in whole seconds.
abbrev as_secs : ℕ → ℕ
as_secs ms = ms / 1000

-- In seconds.
abbrev pub align_to_next_minute : SystemTime → ℕ
align_to_next_minute SystemTime.before_epoch = seconds_per_minute
align_to_next_minute (SystemTime.since_epoch ms) =
    seconds_per_minute - as_secs ms % seconds_per_minute

-- An `i64`.
abbrev pub minute_index : SystemTime → ℕ
minute_index SystemTime.before_epoch = 0
minute_index (SystemTime.since_epoch ms) = min (as_secs ms / seconds_per_minute) (2 ^ 63 - 1)

-- The loop of `short_hex` with the text that it has written.
unfoldable pub short_hex_from : List ℕ → List ℕ → List ℕ
short_hex_from full [] = full
short_hex_from full (b ∷ bs) =
    let longer = full ++ hex_digit (b / 16) ∷ hex_digit (b % 16) ∷ [] in
    let rest = short_hex_from longer bs in
    if leb short_uuid_hex_len (length longer) then longer else rest

unfoldable pub short_hex : List ℕ → List ℕ
short_hex uuid = take short_uuid_hex_len (short_hex_from [] uuid)

unfoldable pub contains_uuid : List (List ℕ) → List ℕ → Bool
contains_uuid [] u = false
contains_uuid (v ∷ vs) u = bytes_eq v u || contains_uuid vs u

abbrev pub insert_uuid : List ℕ → List (List ℕ) → List (List ℕ)
insert_uuid u set = if contains_uuid set u then set else u ∷ set

abbrev pub pair_mode_zero_bond_key : List ℕ
pair_mode_zero_bond_key = replicate 32 0

pub record PeerStatus : Type 0 where
  pub peer_id : String
  pub last_challenge_ms_ago : Option ℕ
  pub last_connect_ms_ago : Option ℕ
  pub current_session_uuid : List ℕ

-- None without an instant, or with one after `now`; a `u64`.
abbrev pub ms_since : ℕ → Option ℕ → Option ℕ
ms_since now none = none
ms_since now (some then_at) =
    if ltb now then_at then none else some (min (now - then_at) (2 ^ 64 - 1))

unfoldable pub snapshot_peers : Map PeerEntry → List (String × List ℕ)
snapshot_peers [] = []
snapshot_peers ((id, entry) ∷ m) = (id, entry.bond_key) ∷ snapshot_peers m

module _ (session_uuid_for : List ℕ → ℕ → List ℕ) where
  -- The set that `collect` makes.
  unfoldable pub session_uuids : List (String × List ℕ) → ℕ → List (List ℕ)
  session_uuids [] minute = []
  session_uuids ((id, key) ∷ snapshot) minute =
      insert_uuid (session_uuid_for key minute) (session_uuids snapshot minute)

  unfoldable pub build_uuid_union : List (String × List ℕ) → ℕ → List (List ℕ)
  build_uuid_union snapshot minute =
      insert_uuid (session_uuid_for pair_mode_zero_bond_key minute) (session_uuids snapshot minute)

  -- One row of `peers_snapshot` without the counter, which the peer's slot decides.
  abbrev pub status_of : ℕ → String → PeerEntry → PeerStatus
  status_of now id entry = record {
    peer_id = id;
    last_challenge_ms_ago = ms_since now entry.last_challenge_at;
    last_connect_ms_ago = ms_since now entry.last_connect_at;
    current_session_uuid =
        session_uuid_for entry.bond_key (minute_index (SystemTime.since_epoch now));
  }

  unfoldable pub peers_snapshot : Map PeerEntry → ℕ → List PeerStatus
  peers_snapshot [] now = []
  peers_snapshot ((id, entry) ∷ m) now = status_of now id entry ∷ peers_snapshot m now

  -- What `rotate_once` publishes.
  unfoldable pub rotate_once : Map PeerEntry → SystemTime → List (List ℕ)
  rotate_once peers now = build_uuid_union (snapshot_peers peers) (minute_index now)
