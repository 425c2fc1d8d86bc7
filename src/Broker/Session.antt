-- ===== src/Broker/Session.antt =====
-- `PairingBroker` of crates/syauth-transport/src/pairing.rs. Each section under the lock is one step;
-- what others do while a request waits is a list of steps. A one-shot channel is its identifier: the
-- pending ones have a sender in the map, the live ones a receiver, and `answers` holds what was sent.
pub mod Safety
pub mod Consistency
use desk_unlock.Prelude.{
  set_at, ℕ, ◌+◌, ◌%◌, ◌^◌, Bool, true, false, not, ◌&&◌, ◌||◌, Option, none, some, List, [], ◌∷◌,
  ◌==◌, if◌then◌else◌,
}
use desk_unlock.Broker.Messages.{
  PairingRequest, OobRequest, BondedNotice, encode_request, encode_oob, encode_notice, frame,
}

pub data GuiEvent : Type 0 where
  lesc : PairingRequest → GuiEvent
  oob : OobRequest → GuiEvent
  bonded : BondedNotice → GuiEvent

pub record Broker : Type 0 where
  pub gui : Bool
  pub pending : List ℕ
  pub next_id : ℕ
  pub socket_active : Bool
  pub live : ℕ → Bool
  pub answers : ℕ → Option Bool

abbrev pub member : ℕ → List ℕ → Bool
member i [] = false
member i (j ∷ js) = i == j || member i js

abbrev pub without_id : ℕ → List ℕ → List ℕ
without_id i [] = []
without_id i (j ∷ js) = let rest = without_id i js in if i == j then rest else j ∷ rest

abbrev pub is_empty : List ℕ → Bool
is_empty [] = true
is_empty (_ ∷ _) = false

unfoldable pub register_gui : Broker → Bool × Broker
register_gui b = if b.gui then (false, b) else (true, record b { gui = true })

-- Every pending sender sends false, which a live receiver gets.
unfoldable pub unregister_gui : Broker → Broker
unregister_gui b = record b {
  gui = false;
  pending = [];
  answers = λ i. if member i b.pending && b.live i then some false else b.answers i;
}

unfoldable pub respond : ℕ → Bool → Broker → Bool × Broker
respond id accepted b =
    let taken : Broker = record b { pending = without_id id b.pending } in
    if not (member id b.pending)
    then (false, b)
    else if b.live id
    then (true, record taken { answers = set_at id (some accepted) b.answers })
    else (false, taken)

-- The first section of `request_via_gui`, past its two early returns: a new channel.
unfoldable pub open_request : Broker → Broker
open_request b = record b {
  next_id = (b.next_id + 1) % 2 ^ 64;
  pending = b.next_id ∷ b.pending;
  live = set_at b.next_id true b.live;
  answers = set_at b.next_id none b.answers;
}

pub data Step : Type 0 where
  register unregister request : Step
  answer : ℕ → Bool → Step
  forget : ℕ → Step

unfoldable pub step : Step → Broker → Broker
step Step.register b = (register_gui b).1
step Step.unregister b = unregister_gui b
step Step.request b = if b.gui && is_empty b.pending then open_request b else b
step (Step.answer id accepted) b = (respond id accepted b).1
step (Step.forget id) b = record b { pending = without_id id b.pending }

unfoldable pub run : List Step → Broker → Broker
run [] b = b
run (s ∷ ss) b = run ss (step s b)

abbrev pub with_id : ℕ → GuiEvent → GuiEvent
with_id id (lesc r) = lesc (record r { id = id })
with_id id (oob r) = oob (record r { id = id })
with_id id (bonded n) = bonded n

-- What the wait for the dialog does not decide: whether the event is delivered, what others do until
-- the receiver wakes or its time is over, and what they do between that and the last section.
pub record Wait : Type 0 where
  pub delivered : GuiEvent → Bool
  pub meanwhile : List Step
  pub late : List Step

-- The end of the time, if no answer came.
unfoldable pub time_out : ℕ → List Step → Broker → Broker
time_out id late b = step (Step.forget id) (run late (record b { live = set_at id false b.live }))

abbrev pub waited : ℕ → Wait → Broker → Option Bool × Broker
waited id w b = elim (b.answers id) [
  | some accepted ↦ (some accepted, b)
  | none ↦ (some false, time_out id w.late b)
]

unfoldable pub request_via_gui : GuiEvent → Wait → Broker → Option Bool × Broker
request_via_gui event w b =
    if not b.gui
    then (none, b)
    else if not (is_empty b.pending)
    then (some false, b)
    else if not (w.delivered (with_id b.next_id event))
    then (some false, unregister_gui (open_request b))
    else waited b.next_id w (run w.meanwhile (open_request b))

-- What the socket of the dialog does with the bytes that are written to it: it may be absent, refuse
-- the connection or the write, and answer a byte in time.
pub record Socket : Type 0 where
  pub path : Bool
  pub connects : Bool
  pub writes : List ℕ → Bool
  pub response : List ℕ → Option ℕ

abbrev pub is_one : Option ℕ → Bool
is_one none = false
is_one (some byte) = byte == 1

abbrev pub spoken : Socket → Bool → Option (List ℕ) → Bool
spoken s expect none = false
spoken s expect (some framed) = s.writes framed && (not expect || is_one (s.response framed))

unfoldable pub exchange : List ℕ → Bool → Socket → List Step → Broker → Bool × Broker
exchange payload expect s meanwhile b = if b.socket_active then (false, b) else (
  s.path && s.connects && spoken s expect (frame payload),
  record (run meanwhile (record b { socket_active = true })) { socket_active = false },
)

-- The question by the dialog in the process, and without one by the socket.
unfoldable pub asked : Option (List ℕ) → Socket → List Step → Option Bool × Broker → Bool × Broker
asked payload s meanwhile (some accepted, b) = (accepted, b)
asked none s meanwhile (none, b) = (false, b)
asked (some payload) s meanwhile (none, b) = exchange payload true s meanwhile b

unfoldable pub request_confirmation :
    List ℕ → ℕ → Wait → Socket → List Step → Broker → Bool × Broker
request_confirmation peer passkey w s meanwhile b =
    let r : PairingRequest = record { id = 0; peer = peer; passkey = passkey } in
    asked (encode_request r) s meanwhile (request_via_gui (lesc r) w b)

unfoldable pub request_oob_confirmation :
    List ℕ → List ℕ → List ℕ → Wait → Socket → List Step → Broker → Bool × Broker
request_oob_confirmation peer host phone w s meanwhile b =
    let r : OobRequest = record { id = 0; peer = peer; host_pubkey = host; phone_pubkey = phone } in
    asked (encode_oob r) s meanwhile (request_via_gui (oob r) w b)

unfoldable pub notify_bonded : List ℕ → Socket → List Step → Broker → Broker
notify_bonded peer s meanwhile b = elim (encode_notice (record { peer = peer })) [
  | none ↦ b
  | some payload ↦ (exchange payload false s meanwhile b).1
]
