-- ===== src/Broker/Session/Safety.antt =====
-- What `PairingBroker` of crates/syauth-transport/src/pairing.rs guarantees of its answers, whatever
-- others do while a request waits.
use desk_unlock.Prelude.{
  ◌≡◌, ◌⊎◌, inl, inr, refl, Bool, true, false, arith, none, some, Option, ℕ, List, [], ◌∷◌,
  Option-cases,
}
use desk_unlock.Broker.Messages.{encode_request, encode_oob, frame, PairingRequest, OobRequest}
use desk_unlock.Broker.Session.{
  GuiEvent, lesc, oob, Broker, Step, Wait, Socket, step, run, register_gui, unregister_gui, respond,
  open_request, request_via_gui, waited, exchange, asked, request_confirmation,
  request_oob_confirmation, is_one,
}

-- The dialog said yes to a request.
abbrev pub SaidYes : ℕ → List Step → Type 0
SaidYes id [] = ⊥
SaidYes id (s ∷ ss) = (s ≡ Step.answer id true) ⊎ SaidYes id ss

step-yes :
    (s : Step) (b : Broker) (id : ℕ)
    → (step s b).answers id ≡ some true
    → (s ≡ Step.answer id true) ⊎ (b.answers id ≡ some true)
unfolding step register_gui unregister_gui respond open_request
step-yes Step.register b id h = ground arith
step-yes Step.unregister b id h = ground arith
step-yes Step.request b id h = ground arith
step-yes (Step.answer i a) b id h = ground arith
step-yes (Step.forget i) b id h = ground arith

run-yes :
    (ss : List Step) (b : Broker) (id : ℕ)
    → (run ss b).answers id ≡ some true
    → SaidYes id ss ⊎ (b.answers id ≡ some true)
unfolding run
run-yes [] b id h = inr h
run-yes (s ∷ ss) b id h = elim (run-yes ss (step s b) id h) [
  | inl said ↦ inl (inr said)
  | inr before ↦ elim (step-yes s b id before) [ inl e ↦ inl (inl e) | inr old ↦ inr old ]
]

waited-yes :
    (id : ℕ) (w : Wait) (b : Broker) → (waited id w b).0 ≡ some true → b.answers id ≡ some true
waited-yes id w b h = ground arith

request_via_gui-yes :
    (e : GuiEvent) (w : Wait) (b : Broker)
    → (request_via_gui e w b).0 ≡ some true
    → SaidYes b.next_id w.meanwhile
unfolding request_via_gui open_request
request_via_gui-yes e w b h =
    let answered : (run w.meanwhile (open_request b)).answers b.next_id ≡ some true =
      ground (arith, waited-yes b.next_id w (run w.meanwhile (open_request b))) in
    elim (run-yes w.meanwhile (open_request b) b.next_id answered) [
      | inl said ↦ said
      | inr before ↦ absurd (ground arith)
    ]

-- The socket's dialog answered the byte 1 to these bytes.
abbrev pub SocketSaidYes : Socket → Option (List ℕ) → Type 0
SocketSaidYes s payload =
    (bytes : List ℕ) × (framed : List ℕ) × (payload ≡ some bytes)
    × (frame bytes ≡ some framed)
    × (s.writes framed ≡ true)
    × (s.response framed ≡ some 1)

is_one-some : (r : Option ℕ) → is_one r ≡ true → r ≡ some 1
is_one-some none h = absurd (ground arith)
is_one-some (some n) h = ground arith

exchange-yes :
    (payload : List ℕ) (s : Socket) (meanwhile : List Step) (b : Broker)
    → (exchange payload true s meanwhile b).0 ≡ true
    → SocketSaidYes s (some payload)
unfolding exchange
exchange-yes payload s meanwhile b h = elim (Option-cases (frame payload)) [
  | inl e ↦ absurd (ground arith)
  | inr (framed, e) ↦
      (payload, framed, refl, e, ground arith, is_one-some (s.response framed) (ground arith))
]

asked-yes :
    (payload : Option (List ℕ)) (s : Socket) (meanwhile : List Step) (r : Option Bool × Broker)
    → (asked payload s meanwhile r).0 ≡ true
    → (r.0 ≡ some true) ⊎ ((r.0 ≡ none) × SocketSaidYes s payload)
unfolding asked
asked-yes payload s meanwhile (some a, b) h = inl (ground arith)
asked-yes none s meanwhile (none, b) h = absurd (ground arith)
asked-yes (some payload) s meanwhile (none, b) h = inr (refl, exchange-yes payload s meanwhile b h)

request_via_gui-none :
    (e : GuiEvent) (w : Wait) (b : Broker) → (request_via_gui e w b).0 ≡ none → b.gui ≡ false
unfolding request_via_gui
request_via_gui-none e w b h = ground arith

-- A question to the operator: the Bluetooth prompt, or the decision on trust.
pub data Question : Type 0 where
  prompt : List ℕ → ℕ → Question
  trust : List ℕ → List ℕ → List ℕ → Question

-- The function of the broker that asks a question.
abbrev pub answer : Question → Wait → Socket → List Step → Broker → Bool × Broker
answer (Question.prompt peer passkey) = request_confirmation peer passkey
answer (Question.trust peer host phone) = request_oob_confirmation peer host phone

-- What the dialog on the socket is sent for a question.
abbrev pub encoding : Question → Option (List ℕ)
encoding (Question.prompt peer passkey) =
    encode_request (record { id = 0; peer = peer; passkey = passkey })
encoding (Question.trust peer host phone) =
    encode_oob (record { id = 0; peer = peer; host_pubkey = host; phone_pubkey = phone })

asked-SaidYes :
    (e : GuiEvent) (payload : Option (List ℕ)) (w : Wait) (s : Socket) (meanwhile : List Step)
    (b : Broker)
    → (asked payload s meanwhile (request_via_gui e w b)).0 ≡ true
    → SaidYes b.next_id w.meanwhile ⊎ ((b.gui ≡ false) × SocketSaidYes s payload)
asked-SaidYes e payload w s meanwhile b h =
    elim (asked-yes payload s meanwhile (request_via_gui e w b) h) [
      | inl agreed ↦ inl (request_via_gui-yes e w b agreed)
      | inr (unasked, said) ↦ inr (request_via_gui-none e w b unasked, said)
    ]

-- A question, the Bluetooth prompt or the decision on trust, is answered yes only if the dialog in the
-- process said yes to this very question while it waited, or, with no such dialog, the one on the
-- socket answered the byte 1 to the frame of this question.
pub confirmation_needs_yes :
    (q : Question) (w : Wait) (s : Socket) (meanwhile : List Step) (b : Broker)
    → (answer q w s meanwhile b).0 ≡ true
    → SaidYes b.next_id w.meanwhile ⊎ ((b.gui ≡ false) × SocketSaidYes s (encoding q))
unfolding request_confirmation request_oob_confirmation
confirmation_needs_yes (Question.prompt peer passkey) w s meanwhile b h =
    let r : PairingRequest = record { id = 0; peer = peer; passkey = passkey } in
    asked-SaidYes (lesc r) (encode_request r) w s meanwhile b h
confirmation_needs_yes (Question.trust peer host phone) w s meanwhile b h =
    let o : OobRequest = record { id = 0; peer = peer; host_pubkey = host; phone_pubkey = phone } in
    asked-SaidYes (oob o) (encode_oob o) w s meanwhile b h
