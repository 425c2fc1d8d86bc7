-- ===== src/Examples/BrokerRuns.antt =====
-- Questions to the operator, frames of the daemon's socket and pair sessions on concrete inputs.
use desk_unlock.Prelude.{
  ◌≡◌, ◌⊎◌, refl, inl, ℕ, true, false, List, [], ◌∷◌, ◌++◌, some, none, ok, arith, replicate,
}
use desk_unlock.Broker.Messages.{encode_request, encode_oob}
use desk_unlock.Broker.Session.{
  Broker, GuiEvent, Step, Wait, Socket, respond, open_request, step, run, request_via_gui,
  request_confirmation, request_oob_confirmation, asked,
}
use desk_unlock.Broker.Session.Consistency.{IsConsistent, request_via_gui-IsConsistent}
use desk_unlock.Broker.Session.Safety.{
  SaidYes, SocketSaidYes, Question, encoding, confirmation_needs_yes,
}
use desk_unlock.Rpc.{Cbor}
use desk_unlock.Rpc.Stream.{write_all, ReadsBack, write_all-ReadsBack, IsSound}
use desk_unlock.Peripheral.PairAgent.{
  Adapter, PairAgentSession, acquire_pair_agent_with, release_pair_agent_with, is_held, register,
  ensure_pairable_with, retry,
}
use desk_unlock.Peripheral.PairAgent.Restore.{release-acquire}

abbrev peer : List ℕ
peer = b'p' ∷ b'8' ∷ []

abbrev key : List ℕ
key = replicate 32 5

-- A broker with a dialog and no question.
abbrev quiet : Broker
quiet = record {
  gui = true;
  pending = [];
  next_id = 1;
  socket_active = false;
  live = λ _. false;
  answers = λ _. none;
}

abbrev saying_yes : Wait
saying_yes = record {
  delivered = λ _. true;
  meanwhile = Step.request ∷ Step.answer 1 true ∷ [];
  late = [];
}

abbrev no_socket : Socket
no_socket = record { path = false; connects = false; writes = λ _. false; response = λ _. none }

asked_yes : (request_confirmation peer 123456 saying_yes no_socket [] quiet).0 ≡ true
unfolding request_confirmation asked encode_request request_via_gui run step open_request respond
asked_yes = refl

asked_oob_yes : (request_oob_confirmation peer key key saying_yes no_socket [] quiet).0 ≡ true
unfolding request_oob_confirmation asked encode_oob request_via_gui run step open_request respond
asked_oob_yes = refl

confirmation_needs_yes_example :
    SaidYes 1 saying_yes.meanwhile
    ⊎ ((true ≡ false) × SocketSaidYes no_socket (encoding (Question.trust peer key key)))
confirmation_needs_yes_example =
    confirmation_needs_yes (Question.trust peer key key) saying_yes no_socket [] quiet asked_oob_yes

abbrev question : GuiEvent
question = GuiEvent.lesc (record { id = 0; peer = peer; passkey = 123456 })

opened : (run (Step.request ∷ []) quiet).pending ≡ 1 ∷ []
unfolding run step open_request
opened = refl

request_via_gui-IsConsistent_example :
    IsConsistent (run (Step.request ∷ []) quiet)
    × IsConsistent (request_via_gui question saying_yes (run (Step.request ∷ []) quiet)).1
    × (((run (Step.request ∷ []) quiet).pending ≡ [])
        ⊎ (request_via_gui question saying_yes (run (Step.request ∷ []) quiet)
            ≡ (some false, run (Step.request ∷ []) quiet)))
request_via_gui-IsConsistent_example =
    request_via_gui-IsConsistent question saying_yes (Step.request ∷ []) quiet (inl refl)

-- A value is one byte, and is written as itself.
abbrev one_byte : Cbor ℕ
one_byte = record {
  write = λ n. some (n ∷ []);
  read = λ bytes. elim bytes [ [] ↦ none | n ∷ _ ↦ some n ];
}

one_byte-IsSound : (n : ℕ) → IsSound one_byte n
one_byte-IsSound n = (n ∷ [], refl, refl, omega arith)

write_all-ReadsBack_example :
    (sent : List ℕ) × (write_all one_byte (3 ∷ 4 ∷ []) [] ≡ ok sent)
    × ReadsBack one_byte (3 ∷ 4 ∷ []) (sent ++ key) key
write_all-ReadsBack_example =
    write_all-ReadsBack one_byte (3 ∷ 4 ∷ []) [] key (one_byte-IsSound 3, (one_byte-IsSound 4, tt))

abbrev idle : PairAgentSession ℕ
idle = record { handle = none; restore = none }

-- The first change is lost.
abbrev off : Adapter
off = record { flag = false; failing_reads = []; lost_changes = true ∷ [] }

acquired : (acquire_pair_agent_with (some 1) idle off).0 ≡ ok tt
unfolding acquire_pair_agent_with register ensure_pairable_with retry
acquired = refl

release-acquire_example :
    let (_, a', s') = acquire_pair_agent_with (some 1) idle off in
    let (a2, s2) = release_pair_agent_with s' (record a' { lost_changes = [] }) in
    (is_held s' ≡ true) × (a'.flag ≡ true) × (a2.flag ≡ false) × (s2.handle ≡ none)
release-acquire_example = release-acquire (some 1) idle off refl refl acquired
