-- ===== src/Bonds/Journal/Panics.antt =====
-- Which journals make `read_journal` of crates/syauth-core/src/pair_recovery.rs panic.
use desk_unlock.Prelude.{
  ◌≡◌, ◌≢◌, ◌≤◌, ◌<◌, ◌+◌, ◌↔◌, zero, suc, refl, ap, sym, ◌∙◌, ℕ, true, false, arith, List, [], ◌∷◌,
  ◌++◌, Option, some, none, length, is_utf8, ok, err, Bool-cases, Option-cases, Result-cases, inl,
  inr,
}
use desk_unlock.Bonds.Journal.{
  lines, find_field, parse_id, parse_transaction, parse_state, parse_journal, parse_lines,
  transaction_name, state_name, peer_id_name, peer_address_name, is_boundary, with_peer,
  from_str_radix, JournalError, JournalState,
}

-- Behind some pairs of digits, which read as a number, comes a pair of bytes that is not the end of a
-- character, as the byte behind it continues one.
abbrev pub CutsCharacter : List ℕ → Type 0
CutsCharacter value =
    (digits rest : List ℕ) × (bytes : List ℕ) × (a b c : ℕ) × (value ≡ digits ++ a ∷ b ∷ c ∷ rest)
    × (parse_id digits ≡ ok bytes)
    × (128 ≤ c)
    × (c < 192)

no_boundary :
    (s : List ℕ)
    → is_boundary s ≡ false
    → (c : ℕ) × (rest : List ℕ) × (s ≡ c ∷ rest) × (128 ≤ c) × (c < 192)
no_boundary [] h = absurd (ground arith)
no_boundary (c ∷ rest) h = (c, rest, refl, ground arith, ground arith)

parse_id_step :
    (a b n : ℕ) (s bytes : List ℕ)
    → is_boundary s ≡ true
    → from_str_radix a b ≡ some n
    → parse_id s ≡ ok bytes
    → parse_id (a ∷ b ∷ s) ≡ ok (n ∷ bytes)
unfolding parse_id
parse_id_step a b n s bytes h e k = rw (h, e, k) refl

boundary_prefix :
    (digits rest : List ℕ) → is_boundary (digits ++ rest) ≡ true → is_boundary digits ≡ true
boundary_prefix [] rest h = refl
boundary_prefix (d ∷ digits) rest h = h

behind_pair :
    (x y n : ℕ) (s : List ℕ)
    → is_boundary s ≡ true
    → from_str_radix x y ≡ some n
    → CutsCharacter s
    → CutsCharacter (x ∷ y ∷ s)
behind_pair x y n s whole read (digits, rest, bytes, a, b, c, e, good, low, high) =
    let starts = boundary_prefix digits (a ∷ b ∷ c ∷ rest) (sym (ap is_boundary e) ∙ whole) in
    (
      x ∷ y ∷ digits,
      rest,
      n ∷ bytes,
      a,
      b,
      c,
      ap (λ t. x ∷ y ∷ t) e,
      parse_id_step x y n digits bytes starts read good,
      low,
      high,
    )

-- An identifier of an even length whose reading panics.
panicked-CutsCharacter :
    (k : ℕ) (value : List ℕ)
    → length value ≡ k + k
    → parse_id value ≡ err JournalError.panicked
    → CutsCharacter value
unfolding parse_id
panicked-CutsCharacter k [] n h = absurd (ground arith)
panicked-CutsCharacter k (a ∷ []) n h = absurd (omega arith)
panicked-CutsCharacter zero (a ∷ b ∷ s) n h = absurd (omega arith)
panicked-CutsCharacter (suc k) (a ∷ b ∷ s) n h = elim (Bool-cases (is_boundary s)) [
  | inr cut ↦
      let (c, rest, e, low, high) = no_boundary s cut in
      ([], rest, [], a, b, c, ap (λ t. a ∷ b ∷ t) e, refl, low, high)
  | inl whole ↦ elim (Option-cases (from_str_radix a b)) [
    | inl bad ↦ absurd (ground arith)
    | inr (n', read) ↦
        behind_pair a b n' s whole read (panicked-CutsCharacter k s (omega arith) (ground arith))
  ]
]

CutsCharacter-panicked :
    (digits rest bytes : List ℕ) (a b c : ℕ)
    → parse_id digits ≡ ok bytes
    → 128 ≤ c
    → c < 192
    → parse_id (digits ++ a ∷ b ∷ c ∷ rest) ≡ err JournalError.panicked
unfolding parse_id
CutsCharacter-panicked [] rest bytes a b c h low high = ground arith
CutsCharacter-panicked (x ∷ []) rest bytes a b c h low high = absurd (ground arith)
CutsCharacter-panicked (x ∷ y ∷ digits) rest bytes a b c h low high =
    elim (Bool-cases (is_boundary digits)) [
      | inr cut ↦ absurd (ground arith)
      | inl whole ↦ elim (Option-cases (from_str_radix x y)) [
        | inl bad ↦ absurd (ground arith)
        | inr (n, read) ↦ elim (Result-cases (parse_id digits)) [
          | inr (e, failed) ↦ absurd (ground arith)
          | inl (more, read_rest) ↦
              ground (arith, CutsCharacter-panicked digits rest more a b c read_rest low high)
        ]
      ]
    ]

parse_state_quiet : (o : Option (List ℕ)) → parse_state o ≢ err JournalError.panicked
parse_state_quiet none h = ground arith
parse_state_quiet (some text) h = ground arith

with_peer_quiet :
    (t : List ℕ) (s : JournalState) (i a : Option (List ℕ))
    → with_peer t s i a ≢ err JournalError.panicked
with_peer_quiet t s none a h = ground arith
with_peer_quiet t s (some i) none h = ground arith
with_peer_quiet t s (some i) (some a) h = ground arith

-- Only the identifier can make the reader panic.
parse_lines-panicked :
    (ls : List (List ℕ))
    → (parse_lines ls ≡ err JournalError.panicked)
      ↔ (parse_transaction (find_field transaction_name ls) ≡ err JournalError.panicked)
unfolding parse_lines
parse_lines-panicked ls = elim (Result-cases (parse_transaction (find_field transaction_name ls))) [
  | inr (e, failed) ↦ rw (failed, parse_lines) (λ h. ground arith, λ h. ground arith)
  | inl (t, read) ↦ elim (Result-cases (parse_state (find_field state_name ls))) [
    | inr (e, failed) ↦
        rw (read, failed, parse_lines)
          (
            λ h. absurd (parse_state_quiet (find_field state_name ls) (failed ∙ ground arith)),
            λ h. absurd (ground arith),
          )
    | inl (s, state) ↦
        rw (read, state, parse_lines)
          (
            λ h. absurd (
                with_peer_quiet t s (find_field peer_id_name ls) (find_field peer_address_name ls)
                  h),
            λ h. absurd (ground arith),
          )
  ]
]

parse_transaction-32 :
    (value : List ℕ) → length value ≡ 32 → parse_transaction (some value) ≡ parse_id value
unfolding parse_transaction
parse_transaction-32 value n = ground arith

-- A journal of valid text whose identifier has 32 bytes makes the reader panic exactly if, behind some
-- pairs of digits, the identifier has a pair of bytes that ends within a character, whatever its other
-- lines are.
pub parse_journal_panics :
    (text value : List ℕ)
    → is_utf8 text ≡ true
    → find_field transaction_name (lines text) ≡ some value
    → length value ≡ 32
    → (parse_journal text ≡ err JournalError.panicked) ↔ CutsCharacter value
unfolding parse_journal
parse_journal_panics text value u found n =
    let id : parse_transaction (find_field transaction_name (lines text)) ≡ parse_id value =
      ap parse_transaction found ∙ parse_transaction-32 value n in
    let only = parse_lines-panicked (lines text) in
    rw u (
      λ h. panicked-CutsCharacter 16 value n (sym id ∙ only.0 h),
      λ (digits, rest, bytes, a, b, c, e, read, low, high).
          only.1
            (id ∙ ap parse_id e ∙ CutsCharacter-panicked digits rest bytes a b c read low high),
    )
