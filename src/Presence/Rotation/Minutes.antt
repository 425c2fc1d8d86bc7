-- ===== src/Presence/Rotation/Minutes.antt =====
-- When the identifiers of crates/syauth-presenced/src/orchestrator.rs are rotated, and how they are shown.
use desk_unlock.Prelude.{
  ℕ, ◌≡◌, ◌≤◌, ◌<◌, ◌+◌, ◌*◌, ◌/◌, ◌%◌, ◌^◌, arith, List, [], ◌∷◌, ◌++◌, length, take, ap, ◌∙◌, sym,
  length-take, take-append-drop, take-append, drop, Bool-cases, inl, inr, leb,
}
use mathlib.Core.List.{append_assoc, append-nil}
use desk_unlock.Bonds.Journal.{hex, hex_digit}
use desk_unlock.Presence.Rotation.{
  SystemTime, align_to_next_minute, minute_index, short_hex, short_hex_from,
}

-- Timed from the first full minute after the start, the rotation number `k` falls in the minute `k + 1`
-- after that of the start, so that none is skipped and none comes twice: if it is late, with what the
-- start was past a full second, by less than a minute, and no number of a minute is out of range. The
-- wait for the first is at least a second and at most a minute.
pub rotation_follows_minutes :
    (start k late : ℕ)
    → start % 1000 + late < 60000
    → start + 60000 * (k + 2) < 60000 * 2 ^ 63
    → let wait = align_to_next_minute (SystemTime.since_epoch start) in
      (1 ≤ wait)
      × (wait ≤ 60)
      × (minute_index (SystemTime.since_epoch (start + 1000 * wait + 60000 * k + late))
          ≡ minute_index (SystemTime.since_epoch start) + 1 + k)
rotation_follows_minutes start k late short range = ground arith

long_enough : (full more : List ℕ) → 8 ≤ length full → take 8 full ≡ take 8 (full ++ more)
long_enough full more h =
    let parts = take-append-drop 8 full in
    let size = length-take 8 full in
    ap (take 8) (sym parts)
    ∙ take-append 8 (take 8 full) (drop 8 full) (omega (arith, size))
    ∙ sym (take-append 8 (take 8 full) (drop 8 full ++ more) (omega (arith, size)))
    ∙ ap (take 8) (sym (append_assoc (take 8 full) (drop 8 full) more) ∙ ap (λ l. l ++ more) parts)

short_hex_from-hex : (full bs : List ℕ) → take 8 (short_hex_from full bs) ≡ take 8 (full ++ hex bs)
unfolding short_hex_from hex
short_hex_from-hex full [] = ap (take 8) (sym (append-nil full))
short_hex_from-hex full (b ∷ bs) =
    let two : List ℕ = hex_digit (b / 16) ∷ hex_digit (b % 16) ∷ [] in
    let longer : List ℕ = full ++ two in
    let whole : longer ++ hex bs ≡ full ++ (hex_digit (b / 16) ∷ hex_digit (b % 16) ∷ hex bs) =
      append_assoc full two (hex bs) in
    elim (Bool-cases (leb 8 (length longer))) [
      | inl e ↦ rw e (long_enough longer (hex bs) (ground (arith, e)) ∙ ap (take 8) whole)
      | inr e ↦ rw e (short_hex_from-hex longer bs ∙ ap (take 8) whole)
    ]

-- The identifier is shown as the first eight characters of its whole hexadecimal form, although the loop
-- stops as soon as it has written eight.
short_hex-hex : (uuid : List ℕ) → short_hex uuid ≡ take 8 (hex uuid)
unfolding short_hex
short_hex-hex uuid = short_hex_from-hex [] uuid
