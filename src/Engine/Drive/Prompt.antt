-- ===== src/Engine/Drive/Prompt.antt =====
-- A peer that answers each wait in time: what one step of an attempt leaves then.
use desk_unlock.Prelude.{
  ◌≡◌, ◌≢◌, refl, ap, sym, subst, ◌∙◌, true, false, arith, ok, err, ℕ, List, [], ◌∷◌, ◌++◌, length,
  some, Result, bytes_eq_refl, ==_refl, ok-injective,
}
use mathlib.Core.List.{append-nil}
use desk_unlock.Pairing.Types.{Operation, operation_code, LocalEvent, Message}
use desk_unlock.Pairing.State.{Transaction}
use desk_unlock.Pairing.Transaction.{local, remote, is_abort}
use desk_unlock.Pairing.Codec.{encode_message, decode_status_message}
use desk_unlock.Pairing.Codec.RoundTrip.{decode_message-encode_message}
use desk_unlock.Engine.Framing.{frame_control_payload, frames_from, is_ok, holds_status}
use desk_unlock.Engine.Framing.Laws.{
  frames_from-encode_message, holds_status_last, length-encode_message, frames_from_nil,
  decode_status_message_ok,
}
use desk_unlock.Engine.Service.{
  ServiceState, publish, remember_session, control_write, take_message, accept_control, take_first,
  is_of,
}
use desk_unlock.Engine.Actions.{
  PairEngineError, Schedule, Traffic, World, Engine, after, expect, message, publish_paced,
  wait_for_operation, poll, traffic, apply_local, apply_remote, remember, Polls, ◌>>◌, send, pace,
}
use desk_unlock.Engine.Drive.{receive, or_discard, discarded}

-- The bytes of one message are one frame.
frame_control_payload-encode_message :
    (m : Message)
    → length m.transaction ≡ 16
    → frame_control_payload (encode_message m) ≡ encode_message m ∷ []
unfolding frame_control_payload
frame_control_payload-encode_message m h =
    subst (λ n. frames_from n (encode_message m) ≡ encode_message m ∷ [])
      (sym (length-encode_message m h))
      (subst (λ l. frames_from 18 l ≡ encode_message m ∷ []) (append-nil (encode_message m))
        (frames_from-encode_message 17 m [] h
            (ap holds_status (append-nil (encode_message m)) ∙ holds_status_last m h)
          ∙ ap (◌∷◌ (encode_message m)) (frames_from_nil 17)))

-- One write, which arrives before the first poll.
abbrev pub prompt : List ℕ → Operation → Polls
prompt id op =
    (Traffic.writes (encode_message (record { transaction = id; operation = op })) ∷ []) ∷ []

abbrev pub cooperative : List ℕ → Schedule
cooperative id = record {
  pacing = λ _. [];
  capability_polls = prompt id Operation.capability;
  confirm_polls = prompt id Operation.confirm;
  prepared_polls = prompt id Operation.prepared;
  ack_polls = prompt id Operation.commit_ack;
  committed_polls = prompt id Operation.committed;
  oob_confirmed = true;
  reply = λ _. true;
}

decode_status_message-encode_message :
    (m : Message)
    → length m.transaction ≡ 16
    → is_ok (decode_status_message (encode_message m)) ≡ false
decode_status_message-encode_message m h =
    ground (arith, decode_status_message_ok (encode_message m), length-encode_message m h)

control_write-encode_message :
    (s : ServiceState) (m : Message)
    → length m.transaction ≡ 16
    → m.operation ≢ Operation.revoke
    → (control_write s (encode_message m)).0 ≡ record s { inbox = s.inbox ++ encode_message m ∷ [] }
unfolding control_write accept_control
control_write-encode_message s m h n = ground (
  arith,
  frame_control_payload-encode_message m h,
  decode_message-encode_message m h,
  decode_status_message-encode_message m h,
)

take_message_only :
    (s : ServiceState) (m : Message)
    → length m.transaction ≡ 16
    → s.inbox ≡ encode_message m ∷ []
    → take_message s m.transaction ≡ (record s { inbox = [] }, some m.operation)
unfolding take_message take_first is_of
take_message_only s m h e =
    ground (arith, decode_message-encode_message m h, bytes_eq_refl m.transaction)

poll-prompt :
    (s : ServiceState) (id : List ℕ) (op : Operation)
    → length id ≡ 16
    → op ≢ Operation.revoke
    → s.inbox ≡ []
    → poll s id (prompt id op) ≡ (record s { inbox = [] }, some op)
unfolding poll traffic
poll-prompt s id op h n e =
    let m : Message = record { transaction = id; operation = op } in
    ground (
      arith,
      control_write-encode_message s m h n,
      take_message_only (record s { inbox = encode_message m ∷ [] }) m h refl,
    )

-- A success that leaves a transaction and an empty inbox.
abbrev pub Yields : {A : Type 0} → Transaction → Result PairEngineError A × World → Type 0
Yields t r = (is_ok r.0 ≡ true) × (r.1.transaction ≡ t) × (r.1.service.inbox ≡ [])

abbrev pub Ready : Transaction → World → Type 0
Ready t w = (w.transaction ≡ t) × (w.service.inbox ≡ [])

-- The rule for a sequence; the first part's value is its own.
pub bind-Yields :
    {A B : Type 0} (t u : Transaction) (f : A → Engine B) (r : Result PairEngineError A × World)
    → Yields t r
    → ((a : A) (w : World) → r.0 ≡ ok a → Ready t w → Yields u (f a w))
    → Yields u (after f r)
bind-Yields t u f (ok a, w) h k = k a w refl (h.1, h.2)
bind-Yields t u f (err e, w) h k = absurd (ground arith)

pub send-Yields :
    (id : List ℕ) (op : Operation) (t : Transaction) (w : World)
    → Ready t w
    → Yields t (publish_paced (cooperative id) op w)
unfolding publish_paced send pace publish
send-Yields id op t w h = ground arith

pub local-Yields :
    (e : PairEngineError) (event : LocalEvent) (t u : Transaction) (w : World)
    → Ready t w
    → local t event ≡ (u, ok tt)
    → Yields u (apply_local e event w)
unfolding apply_local
local-Yields e event t u w h k = ground (arith, ap (λ x. local x event) h.0)

pub remote-Yields :
    (op : Operation) (t u : Transaction) (w : World)
    → Ready t w
    → remote t (message t op) ≡ (u, ok tt)
    → Yields u (apply_remote op w)
unfolding apply_remote
remote-Yields op t u w h k = ground (arith, ap (λ x. remote x (message x op)) h.0)

pub remember-Yields : (t : Transaction) (w : World) → Ready t w → Yields t (remember w)
unfolding remember remember_session
remember-Yields t w h = ground arith

pub wait-Yields :
    (op : Operation) (t : Transaction) (w : World)
    → Ready t w
    → length t.id ≡ 16
    → op ≢ Operation.revoke
    → is_abort op ≡ false
    → Yields t (wait_for_operation (prompt t.id op) w)
      × ((wait_for_operation (prompt t.id op) w).0 ≡ ok op)
unfolding wait_for_operation
wait-Yields op t w h n r a = ground (
  arith,
  ap (λ i. poll w.service i (prompt t.id op)) (ap (λ (x : Transaction). x.id) h.0),
  poll-prompt w.service t.id op n r h.1,
)

pub receive-Yields :
    (op : Operation) (t u : Transaction) (w : World)
    → Ready t w
    → length t.id ≡ 16
    → op ≢ Operation.revoke
    → is_abort op ≡ false
    → remote t (message t op) ≡ (u, ok tt)
    → Yields u (receive (prompt t.id op) op w)
unfolding receive
receive-Yields op t u w h n r a k =
    let (waits, gets) = wait-Yields op t w h n r a in
    bind-Yields t u _ (wait_for_operation (prompt t.id op) w) waits
      λ o w1 e h1. expected-Yields o w1 (ground arith) h1
  where
    expected-Yields :
        (o : Operation) (w1 : World)
        → o ≡ op
        → Ready t w1
        → Yields u ((expect o op >> apply_remote o) w1)
    expected-Yields o w1 same h1 =
        rw (same, ==_refl (operation_code op)) (remote-Yields op t u w1 h1 k)

discarded-Yields :
    (id : List ℕ) (op : Operation) (t : Transaction) (r : Result PairEngineError Operation × World)
    → Yields t r
    → r.0 ≡ ok op
    → Yields t (discarded (cooperative id) op r)
unfolding discarded
discarded-Yields id op t (ok o, w) h e =
    rw (ok-injective e, ==_refl (operation_code op)) (refl, h.1, h.2)
discarded-Yields id op t (err x, w) h e = absurd (ground arith)

-- A wait that would discard does not, as the expected operation comes.
pub discard-Yields :
    (id : List ℕ) (op : Operation) (t : Transaction) (w : World)
    → Ready t w
    → t.id ≡ id
    → length id ≡ 16
    → op ≢ Operation.revoke
    → is_abort op ≡ false
    → Yields t (or_discard (cooperative id) op (wait_for_operation (prompt id op)) w)
unfolding or_discard
discard-Yields id op t w h same n r a =
    let (waits, gets) = wait-Yields op t w h (ap length same ∙ n) r a in
    discarded-Yields id op t (wait_for_operation (prompt id op) w)
      (subst (λ i. Yields t (wait_for_operation (prompt i op) w)) same waits)
      (subst (λ i. (wait_for_operation (prompt i op) w).0 ≡ ok op) same gets)
