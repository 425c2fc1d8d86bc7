-- ===== src/Bonds/Journal.antt =====
-- The text of `pairing-v2.journal` in crates/syauth-core/src/pair_recovery.rs: what `write_journal`
-- writes and what `read_journal` makes of it. A text is the list of its UTF-8 bytes. A slice of a text
-- that does not start and end between characters panics.
pub mod Lines
pub mod RoundTrip
pub mod Panics
use desk_unlock.Prelude.{
  ℕ, suc, ◌+◌, ◌-◌, ◌*◌, ◌/◌, ◌%◌, Bool, true, false, not, ◌&&◌, ◌||◌, Option, none, some, List, [],
  ◌∷◌, ◌++◌, ◌==◌, ltb, leb, if◌then◌else◌, Result, ok, err, length, bytes_eq, is_utf8,
}

pub data JournalState : Type 0 where
  pre_commit commit_pending : JournalState

pub record JournalRecord : Type 0 where
  pub transaction : List ℕ
  pub peer_id : List ℕ
  pub peer_address : List ℕ
  pub state : JournalState

-- How reading ends without a record.
pub data JournalError : Type 0 where
  io malformed panicked : JournalError

abbrev pub newline : ℕ
newline = 10

abbrev pub pre_commit_text : List ℕ
pre_commit_text = b'p' ∷ b'r' ∷ b'e' ∷ b'_' ∷ b'c' ∷ b'o' ∷ b'm' ∷ b'm' ∷ b'i' ∷ b't' ∷ []

abbrev pub commit_pending_text : List ℕ
commit_pending_text =
    b'c' ∷ b'o' ∷ b'm' ∷ b'm' ∷ b'i' ∷ b't' ∷ b'_' ∷ b'p' ∷ b'e' ∷ b'n' ∷ b'd' ∷ b'i' ∷ b'n' ∷ b'g'
    ∷ []

abbrev pub version_line : List ℕ
version_line = b'v' ∷ b'e' ∷ b'r' ∷ b's' ∷ b'i' ∷ b'o' ∷ b'n' ∷ b'=' ∷ b'2' ∷ []

abbrev pub transaction_name : List ℕ
transaction_name =
    b't' ∷ b'r' ∷ b'a' ∷ b'n' ∷ b's' ∷ b'a' ∷ b'c' ∷ b't' ∷ b'i' ∷ b'o' ∷ b'n' ∷ b'_' ∷ b'i' ∷ b'd'
    ∷ []

abbrev pub peer_id_name : List ℕ
peer_id_name = b'p' ∷ b'e' ∷ b'e' ∷ b'r' ∷ b'_' ∷ b'i' ∷ b'd' ∷ []

abbrev pub peer_address_name : List ℕ
peer_address_name =
    b'p' ∷ b'e' ∷ b'e' ∷ b'r' ∷ b'_' ∷ b'a' ∷ b'd' ∷ b'd' ∷ b'r' ∷ b'e' ∷ b's' ∷ b's' ∷ []

abbrev pub state_name : List ℕ
state_name = b's' ∷ b't' ∷ b'a' ∷ b't' ∷ b'e' ∷ []

abbrev pub as_str : JournalState → List ℕ
as_str JournalState.pre_commit = pre_commit_text
as_str JournalState.commit_pending = commit_pending_text

-- `{byte:02x}`.
abbrev pub hex_digit : ℕ → ℕ
hex_digit n = if ltb n 10 then b'0' + n else 87 + n

unfoldable pub hex : List ℕ → List ℕ
hex [] = []
hex (b ∷ bs) = hex_digit (b / 16) ∷ hex_digit (b % 16) ∷ hex bs

-- A line `name=value` and its end.
abbrev pub line : List ℕ → List ℕ → List ℕ
line name value = name ++ (b'=' ∷ (value ++ newline ∷ []))

-- The text that `write_journal` formats.
unfoldable pub journal_text : JournalRecord → List ℕ
journal_text j =
    (version_line ++ newline ∷ [])
    ++ (line transaction_name (hex j.transaction)
        ++ (line peer_id_name j.peer_id
            ++ (line peer_address_name j.peer_address ++ line state_name (as_str j.state))))

-- `str::lines`: a line loses its end, and a carriage return before it.
unfoldable pub chomp : List ℕ → List ℕ
chomp [] = []
chomp (c ∷ []) = if c == 13 then [] else c ∷ []
chomp (c ∷ d ∷ s) = c ∷ chomp (d ∷ s)

unfoldable pub lines_from : List ℕ → List ℕ → List (List ℕ)
lines_from [] [] = []
lines_from (c ∷ cur) [] = (c ∷ cur) ∷ []
lines_from cur (c ∷ s) =
    let closed = lines_from [] s in
    let longer = lines_from (cur ++ c ∷ []) s in if c == newline then chomp cur ∷ closed else longer

abbrev pub lines : List ℕ → List (List ℕ)
lines s = lines_from [] s

unfoldable pub strip_prefix : List ℕ → List ℕ → Option (List ℕ)
strip_prefix [] s = some s
strip_prefix (p ∷ ps) [] = none
strip_prefix (p ∷ ps) (c ∷ s) = let rest = strip_prefix ps s in if p == c then rest else none

abbrev pub value_of : Option (List ℕ) → Option (List ℕ)
value_of none = none
value_of (some s) = strip_prefix (b'=' ∷ []) s

-- The closure `field`: the value of the first line that has one for the name.
unfoldable pub find_field : List ℕ → List (List ℕ) → Option (List ℕ)
find_field name [] = none
find_field name (l ∷ ls) =
    let rest = find_field name ls in
    elim (value_of (strip_prefix name l)) [ none ↦ rest | some value ↦ some value ]

-- `char::to_digit(16)`.
abbrev pub to_digit : ℕ → Option ℕ
to_digit c =
    if leb b'0' c && leb c b'9'
    then some (c - b'0')
    else if leb b'a' c && leb c b'f'
    then some (c - 87)
    else if leb b'A' c && leb c b'F'
    then some (c - 55)
    else none

abbrev pub two_digits : Option ℕ → Option ℕ → Option ℕ
two_digits (some a) (some b) = some (16 * a + b)
two_digits _ _ = none

-- `u8::from_str_radix` on two characters, of which the first may be a sign.
abbrev pub from_str_radix : ℕ → ℕ → Option ℕ
from_str_radix a b = if a == b'+' then to_digit b else two_digits (to_digit a) (to_digit b)

-- The text may be cut before what is left of it.
abbrev pub is_boundary : List ℕ → Bool
is_boundary [] = true
is_boundary (b ∷ _) = ltb b 128 || leb 192 b

-- The loop over the pairs of the identifier's text, whose length is even and which starts at a
-- boundary.
unfoldable pub parse_id : List ℕ → Result JournalError (List ℕ)
parse_id [] = ok []
parse_id (a ∷ []) = err JournalError.panicked
parse_id (a ∷ b ∷ s) =
    let rest = parse_id s in
    if not (is_boundary s) then err JournalError.panicked else elim (from_str_radix a b) [
      | none ↦ err JournalError.malformed
      | some byte ↦ elim rest [ ok bytes ↦ ok (byte ∷ bytes) | err e ↦ err e ]
    ]

abbrev pub parse_state : Option (List ℕ) → Result JournalError JournalState
parse_state none = ok JournalState.pre_commit
parse_state (some text) =
    if bytes_eq text pre_commit_text
    then ok JournalState.pre_commit
    else if bytes_eq text commit_pending_text
    then ok JournalState.commit_pending
    else err JournalError.malformed

abbrev pub with_peer :
    List ℕ → JournalState → Option (List ℕ) → Option (List ℕ) → Result JournalError JournalRecord
with_peer transaction state (some id) (some address) =
    ok (record { transaction = transaction; peer_id = id; peer_address = address; state = state })
with_peer transaction state _ _ = err JournalError.malformed

unfoldable pub parse_transaction : Option (List ℕ) → Result JournalError (List ℕ)
parse_transaction none = err JournalError.malformed
parse_transaction (some text) =
    if not (length text == 32) then err JournalError.malformed else parse_id text

-- The fields in the order in which they are checked.
unfoldable pub parse_lines : List (List ℕ) → Result JournalError JournalRecord
parse_lines ls = elim (parse_transaction (find_field transaction_name ls)) [
  | err e ↦ err e
  | ok transaction ↦ elim (parse_state (find_field state_name ls)) [
    | err e ↦ err e
    | ok state ↦
        with_peer transaction state (find_field peer_id_name ls) (find_field peer_address_name ls)
  ]
]

-- `read_journal` past the reading of the file, on the bytes that it holds.
unfoldable pub parse_journal : List ℕ → Result JournalError JournalRecord
parse_journal text = if not (is_utf8 text) then err JournalError.io else parse_lines (lines text)
