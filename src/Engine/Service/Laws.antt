-- ===== src/Engine/Service/Laws.antt =====
-- What the service state promises: the status register and the inbox.
use desk_unlock.Prelude.{
  ◌≡◌, ◌⊎◌, ◌<◌, ◌^◌, refl, ap, true, false, arith, ok, ℕ, List, [], ◌∷◌, ◌++◌, length, none, some,
  All, Bool-cases, Result-cases, inl, inr, bytes_eq→eq, bytes_eq_refl,
}
use desk_unlock.Pairing.Types.{Operation, Message, StatusState}
use desk_unlock.Pairing.State.{Transaction, reconcile_status}
use desk_unlock.Pairing.Transaction.{apply_status_response}
use desk_unlock.Pairing.Transaction.Reconcile.{apply_status_response_current}
use desk_unlock.Pairing.Codec.{decode_message, encode_status_message, decode_status_message}
use desk_unlock.Pairing.Codec.RoundTrip.{decode_message-encode_message}
use desk_unlock.Pairing.Codec.StatusRoundTrip.{decode_status_message-encode_status_message}
use desk_unlock.Engine.Service.{
  ServiceState, publish, publish_status, status_snapshot, begin_session, remember_session, query,
  response, accept_control, is_of, take_first, take_message, operation_of,
}

-- What is published is what the peer's read decodes to, and the read clears the unread mark.
status_snapshot-publish :
    (s : ServiceState) (m : Message)
    → length m.transaction ≡ 16
    → let (s', bytes) = status_snapshot (publish s m) 0 in
      (decode_message bytes ≡ ok m) × (s'.unread ≡ false) × (s'.inbox ≡ s.inbox)
unfolding status_snapshot publish
status_snapshot-publish s m h = (decode_message-encode_message m h, refl, refl)

-- A status query of the current session is answered with the status remembered for it: the bytes
-- that the peer reads next make its transaction reconcile with that status.
query_reconciles :
    (s : ServiceState) (t : Transaction) (st : StatusState) (nonce : ℕ)
    → length t.id ≡ 16
    → nonce < 256 ^ 8
    → let asked =
        accept_control (remember_session s t.id st) (encode_status_message (query t.id nonce)) in
      let bytes = (status_snapshot asked 0).1 in
      (decode_status_message bytes ≡ ok (response t.id nonce st))
      × (apply_status_response t (response t.id nonce st) nonce ≡ reconcile_status t st)
unfolding status_snapshot accept_control remember_session publish_status
query_reconciles s t st nonce h n = ground (
  arith,
  decode_status_message-encode_status_message (query t.id nonce) h n,
  decode_status_message-encode_status_message (response t.id nonce st) h n,
  bytes_eq_refl t.id,
  apply_status_response_current t (response t.id nonce st) nonce st refl,
)

-- No entry is a message of the transaction.
abbrev pub NoneOf : List ℕ → List (List ℕ) → Type 0
NoneOf id = All (λ bytes. is_of id bytes ≡ false)

-- How an inbox is split at the first message of a transaction.
pub record Split (id : List ℕ) (inbox left : List (List ℕ)) (op : Operation) : Type 0 where
  pub before : List (List ℕ)
  pub bytes : List ℕ
  pub after : List (List ℕ)
  pub whole : inbox ≡ before ++ bytes ∷ after
  pub rest : left ≡ before ++ after
  pub others : NoneOf id before
  pub decoded : decode_message bytes ≡ ok (record { transaction = id; operation = op })

is_of_decoded :
    (id bytes : List ℕ)
    → is_of id bytes ≡ true
    → (op : Operation) × (decode_message bytes ≡ ok (record { transaction = id; operation = op }))
unfolding is_of
is_of_decoded id bytes h = elim (Result-cases (decode_message bytes)) [
  | inl (m, e) ↦ (m.operation, ground (arith, bytes_eq→eq m.transaction id))
  | inr (x, e) ↦ absurd (ground arith)
]

abbrev TakesFirst : List ℕ → List (List ℕ) → Type 0
TakesFirst id inbox =
    (NoneOf id inbox × (take_first id inbox ≡ none))
    ⊎ ((left : List (List ℕ)) × (op : Operation) × (sp : Split id inbox left op) × (take_first id
            inbox
          ≡ some (sp.bytes, left)))

Split-cons :
    (id b : List ℕ) {inbox left : List (List ℕ)} {op : Operation}
    → is_of id b ≡ false
    → Split id inbox left op
    → Split id (b ∷ inbox) (b ∷ left) op
Split-cons id b h sp = record {
  before = b ∷ sp.before;
  bytes = sp.bytes;
  after = sp.after;
  whole = ap (◌∷◌ b) sp.whole;
  rest = ap (◌∷◌ b) sp.rest;
  others = (h, sp.others);
  decoded = sp.decoded;
}

take_first_cases : (id : List ℕ) (inbox : List (List ℕ)) → TakesFirst id inbox
unfolding take_first Split-cons
take_first_cases id [] = inl (tt, refl)
take_first_cases id (b ∷ inbox) = elim (Bool-cases (is_of id b)) [
  | inl here ↦
      let (op, e) = is_of_decoded id b here in
      inr (
        inbox,
        op,
        record {
          before = [];
          bytes = b;
          after = inbox;
          whole = refl;
          rest = refl;
          others = tt;
          decoded = e;
        },
        rw here,
      )
  | inr other ↦ elim (take_first_cases id inbox) [
    | inl (all, e) ↦ inl ((other, all), rw (other, e))
    | inr (left, op, sp, e) ↦ inr (b ∷ left, op, Split-cons id b other sp, rw (other, e))
  ]
]

-- `take_message` returns the operation of the first entry that is a message of the transaction and
-- removes that entry alone, or finds none and changes nothing.
take_message_first :
    (s : ServiceState) (id : List ℕ)
    → NoneOf id s.inbox × (take_message s id ≡ (s, none))
      ⊎ ((left : List (List ℕ)) × (op : Operation) × Split id s.inbox left op
          × (take_message s id ≡ (record s { inbox = left }, some op)))
unfolding take_message
take_message_first s id = elim (take_first_cases id s.inbox) [
  | inl (all, e) ↦ inl (all, rw (e, take_message))
  | inr (left, op, sp, e) ↦ inr (left, op, sp, rw (e, take_message) (rw (sp.decoded, operation_of)))
]

-- A new session forgets the last one: no message is left of any attempt, nothing is there to be
-- read, and a status query changes nothing.
begin_session_fresh :
    (s : ServiceState) (id : List ℕ) (nonce : ℕ)
    → length id ≡ 16
    → nonce < 256 ^ 8
    → let s' = begin_session s in
      ((take_message s' id).1 ≡ none)
      × ((status_snapshot s' 0).1 ≡ [])
      × (accept_control s' (encode_status_message (query id nonce)) ≡ s')
unfolding begin_session take_message take_first status_snapshot accept_control
begin_session_fresh s id nonce h n =
    (refl, refl, ground (arith, decode_status_message-encode_status_message (query id nonce) h n))
