-- ===== src/Bonds/Journal/RoundTrip.antt =====
-- The journal of crates/syauth-core/src/pair_recovery.rs, written and read back.
use mathlib.Core.List.{append-nil}
use desk_unlock.Prelude.{
  ◌≡◌, ◌≢◌, refl, ap, sym, ◌∙◌, ℕ, ◌*◌, ◌/◌, ◌%◌, ◌<◌, true, arith, List, [], ◌∷◌, ◌++◌, All, some,
  ok, length, AreBytes, is_utf8, is_utf8-append, bytes_eq,
}
use desk_unlock.Bonds.Journal.{
  JournalRecord, JournalState, hex, hex_digit, journal_text, chomp, lines, lines_from, find_field,
  strip_prefix, parse_id, parse_transaction, parse_state, parse_journal, parse_lines,
  transaction_name, peer_id_name, peer_address_name, state_name, version_line, as_str,
  from_str_radix, line, is_boundary, newline,
}
use desk_unlock.Bonds.Journal.Lines.{
  IsLine, IsName, lines_from-line, chomp-append, lines_from-append,
}

from_str_radix-hex :
    (b : ℕ) → b < 256 → from_str_radix (hex_digit (b / 16)) (hex_digit (b % 16)) ≡ some b
from_str_radix-hex b h = ground arith

hex_boundary : (bs : List ℕ) → AreBytes bs → is_boundary (hex bs) ≡ true
unfolding hex
hex_boundary [] h = refl
hex_boundary (b ∷ bs) h = ground arith

parse_id-hex : (bs : List ℕ) → AreBytes bs → parse_id (hex bs) ≡ ok bs
unfolding parse_id hex
parse_id-hex [] h = refl
parse_id-hex (b ∷ bs) h =
    rw (hex_boundary bs h.1, from_str_radix-hex b h.0, parse_id-hex bs h.1) refl

length-hex : (bs : List ℕ) → length (hex bs) ≡ 2 * length bs
unfolding hex
length-hex [] = refl
length-hex (b ∷ bs) = omega (arith, length-hex bs)

hex_digit-IsName : (n : ℕ) → n < 16 → (hex_digit n ≢ 10) × (hex_digit n ≢ 13)
hex_digit-IsName n h = (λ e. ground arith, λ e. ground arith)

lines_only : (p : List ℕ) → IsName p → All (λ c. c ≢ 10) p
lines_only [] h = tt
lines_only (c ∷ p) h = (h.0.0, lines_only p h.1)

IsName-IsLine : (p : List ℕ) → IsName p → IsLine p
IsName-IsLine p h = (
  lines_only p h,
  ap chomp (sym (append-nil p)) ∙ chomp-append p [] h (unfold chomp in refl) ∙ append-nil p,
)

hex-IsName : (bs : List ℕ) → AreBytes bs → IsName (hex bs)
unfolding hex
hex-IsName [] h = tt
hex-IsName (b ∷ bs) h = (
  hex_digit-IsName (b / 16) (omega (arith, h.0)),
  (hex_digit-IsName (b % 16) (omega arith), hex-IsName bs h.1),
)

as_str_ascii : (s : JournalState) → All (λ c. c < 128) (as_str s)
as_str_ascii JournalState.pre_commit = omega arith
as_str_ascii JournalState.commit_pending = omega arith

as_str-IsName : (s : JournalState) → IsName (as_str s)
as_str-IsName JournalState.pre_commit = omega arith
as_str-IsName JournalState.commit_pending = omega arith

pub names-IsName :
    IsName transaction_name × IsName peer_id_name × IsName peer_address_name × IsName state_name
names-IsName = omega arith

pub journal_lines :
    (j : JournalRecord)
    → AreBytes j.transaction
    → IsLine j.peer_id
    → IsLine j.peer_address
    → lines (journal_text j)
      ≡ version_line
        ∷ (transaction_name ++ (b'=' ∷ hex j.transaction))
        ∷ (peer_id_name ++ (b'=' ∷ j.peer_id))
        ∷ (peer_address_name ++ (b'=' ∷ j.peer_address))
        ∷ (state_name ++ (b'=' ∷ as_str j.state))
        ∷ []
unfolding journal_text chomp lines_from
journal_lines j b p a =
    let (tn, pn, an, sn) = names-IsName in
    let l4 = line state_name (as_str j.state) in
    let l3 = line peer_address_name j.peer_address ++ l4 in
    let l2 = line peer_id_name j.peer_id ++ l3 in
    let state : lines_from [] l4 ≡ (state_name ++ (b'=' ∷ as_str j.state)) ∷ [] =
      ap (lines_from []) (sym (append-nil l4))
      ∙ lines_from-line state_name (as_str j.state) [] sn
          (IsName-IsLine (as_str j.state) (as_str-IsName j.state)) in
    lines_from-append [] version_line (line transaction_name (hex j.transaction) ++ l2)
      (omega arith)
    ∙ ap (◌∷◌ version_line) (
        lines_from-line transaction_name (hex j.transaction) l2 tn
          (IsName-IsLine (hex j.transaction) (hex-IsName j.transaction b))
        ∙ ap (◌∷◌ (transaction_name ++ (b'=' ∷ hex j.transaction))) (
            lines_from-line peer_id_name j.peer_id l3 pn p
            ∙ ap (◌∷◌ (peer_id_name ++ (b'=' ∷ j.peer_id))) (
                lines_from-line peer_address_name j.peer_address l4 an a
                ∙ ap (◌∷◌ (peer_address_name ++ (b'=' ∷ j.peer_address))) state)))

-- What the fields of a written journal are.
pub journal_fields :
    (tx id address state : List ℕ)
    → let ls =
        version_line
        ∷ (transaction_name ++ (b'=' ∷ tx))
        ∷ (peer_id_name ++ (b'=' ∷ id))
        ∷ (peer_address_name ++ (b'=' ∷ address))
        ∷ (state_name ++ (b'=' ∷ state))
        ∷ [] in
      (find_field transaction_name ls ≡ some tx)
      × (find_field peer_id_name ls ≡ some id)
      × (find_field peer_address_name ls ≡ some address)
      × (find_field state_name ls ≡ some state)
unfolding find_field strip_prefix
journal_fields tx id address state = (refl, refl, refl, refl)

parse_state-as_str : (s : JournalState) → parse_state (some (as_str s)) ≡ ok s
unfolding bytes_eq
parse_state-as_str JournalState.pre_commit = refl
parse_state-as_str JournalState.commit_pending = refl

pub parse_transaction-hex :
    (bs : List ℕ) → length bs ≡ 16 → AreBytes bs → parse_transaction (some (hex bs)) ≡ ok bs
unfolding parse_transaction
parse_transaction-hex bs n h = ground (arith, length-hex bs, parse_id-hex bs h)

pub ascii-is_utf8 : (p : List ℕ) → All (λ c. c < 128) p → is_utf8 p ≡ true
unfolding is_utf8
ascii-is_utf8 [] h = refl
ascii-is_utf8 (c ∷ p) h = is_utf8-append (c ∷ []) p (ground arith) (ascii-is_utf8 p h.1)

hex_ascii : (bs : List ℕ) → AreBytes bs → All (λ c. c < 128) (hex bs)
unfolding hex
hex_ascii [] h = tt
hex_ascii (b ∷ bs) h = (ground arith, (ground arith, hex_ascii bs h.1))

pub line-is_utf8 :
    (name value : List ℕ)
    → is_utf8 name ≡ true
    → is_utf8 value ≡ true
    → is_utf8 (line name value) ≡ true
unfolding is_utf8
line-is_utf8 name value n v = is_utf8-append name (b'=' ∷ (value ++ newline ∷ [])) n (
    is_utf8-append (b'=' ∷ []) (value ++ newline ∷ []) refl
      (is_utf8-append value (newline ∷ []) v refl))

pub journal_text-is_utf8 :
    (j : JournalRecord)
    → AreBytes j.transaction
    → is_utf8 j.peer_id ≡ true
    → is_utf8 j.peer_address ≡ true
    → is_utf8 (journal_text j) ≡ true
unfolding journal_text
journal_text-is_utf8 j b p a =
    let tx =
      line-is_utf8 transaction_name (hex j.transaction)
        (ascii-is_utf8 transaction_name (omega arith))
        (ascii-is_utf8 (hex j.transaction) (hex_ascii j.transaction b)) in
    let id = line-is_utf8 peer_id_name j.peer_id (ascii-is_utf8 peer_id_name (omega arith)) p in
    let address =
      line-is_utf8 peer_address_name j.peer_address (ascii-is_utf8 peer_address_name (omega arith))
        a in
    let state =
      line-is_utf8 state_name (as_str j.state) (ascii-is_utf8 state_name (omega arith))
        (ascii-is_utf8 (as_str j.state) (as_str_ascii j.state)) in
    is_utf8-append (version_line ++ newline ∷ []) _
      (ascii-is_utf8 (version_line ++ newline ∷ []) (omega arith))
      (is_utf8-append (line transaction_name (hex j.transaction)) _ tx (
        is_utf8-append (line peer_id_name j.peer_id) _ id
          (is_utf8-append (line peer_address_name j.peer_address) _ address state)))

-- What a journal of the daemon may hold: a 16-byte identifier, and texts that stand on one line.
abbrev pub IsJournal : JournalRecord → Type 0
IsJournal j =
    (length j.transaction ≡ 16)
    × AreBytes j.transaction
    × IsLine j.peer_id
    × IsLine j.peer_address
    × (is_utf8 j.peer_id ≡ true)
    × (is_utf8 j.peer_address ≡ true)

parse_lines_of :
    (ls : List (List ℕ)) (j : JournalRecord)
    → parse_transaction (find_field transaction_name ls) ≡ ok j.transaction
    → parse_state (find_field state_name ls) ≡ ok j.state
    → find_field peer_id_name ls ≡ some j.peer_id
    → find_field peer_address_name ls ≡ some j.peer_address
    → parse_lines ls ≡ ok j
unfolding parse_lines
parse_lines_of ls j tx state id address = rw (tx, parse_lines) (rw state (rw (id, address) refl))

-- A journal with a 16-byte identifier, and with a peer and an address that stand on one line, is read
-- back from its text as it was written.
pub parse_journal-journal_text :
    (j : JournalRecord) → IsJournal j → parse_journal (journal_text j) ≡ ok j
unfolding parse_journal
parse_journal-journal_text j (n, b, p, a, pu, au) =
    let (tx, id, address, state) =
      journal_fields (hex j.transaction) j.peer_id j.peer_address (as_str j.state) in
    rw (journal_text-is_utf8 j b pu au, journal_lines j b p a)
      (parse_lines_of _ j (ap parse_transaction tx ∙ parse_transaction-hex j.transaction n b)
        (ap parse_state state ∙ parse_state-as_str j.state) id address)
