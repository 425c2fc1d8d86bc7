-- ===== src/Broker/Session/Consistency.antt =====
-- How many questions of `PairingBroker` of crates/syauth-transport/src/pairing.rs are open at a time.
use desk_unlock.Prelude.{
  subst, ◌≡◌, ◌⊎◌, inl, inr, refl, ap, sym, ◌∙◌, Bool, true, false, arith, none, some, Option, ℕ,
  List, [], ◌∷◌, Bool-cases, Option-cases, ◌==◌,
}
use desk_unlock.Broker.Session.{
  GuiEvent, Broker, Step, Wait, step, run, without_id, register_gui, unregister_gui, respond,
  open_request, request_via_gui, time_out, waited, set_at, with_id,
}

-- At most one question is open, and only while a dialog is connected.
abbrev pub IsConsistent : Broker → Type 0
IsConsistent b = (b.pending ≡ []) ⊎ ((id : ℕ) × (b.pending ≡ id ∷ []) × (b.gui ≡ true))

without_id-IsConsistent :
    (i : ℕ) (b : Broker)
    → IsConsistent b
    → IsConsistent (record b { pending = without_id i b.pending })
without_id-IsConsistent i b (inl e) = inl (ap (without_id i) e)
without_id-IsConsistent i b (inr (id, e, on)) = elim (Bool-cases (i == id)) [
  | inl same ↦ inl (ap (without_id i) e ∙ rw same refl)
  | inr other ↦ inr (id, ap (without_id i) e ∙ rw other refl, on)
]

respond_leaves :
    (i : ℕ) (a : Bool) (b : Broker)
    → ((respond i a b).1.gui ≡ b.gui)
      × (((respond i a b).1.pending ≡ b.pending)
          ⊎ ((respond i a b).1.pending ≡ without_id i b.pending))
unfolding respond
respond_leaves i a b = ground arith

respond-IsConsistent :
    (i : ℕ) (a : Bool) (b : Broker)
    → IsConsistent b
    → IsConsistent (record b { pending = without_id i b.pending })
    → ((respond i a b).1.gui ≡ b.gui)
      × (((respond i a b).1.pending ≡ b.pending)
          ⊎ ((respond i a b).1.pending ≡ without_id i b.pending))
    → IsConsistent (respond i a b).1
respond-IsConsistent i a b (inl e) d (g, inl f) = inl (f ∙ e)
respond-IsConsistent i a b (inr (id, e, on)) d (g, inl f) = inr (id, f ∙ e, g ∙ on)
respond-IsConsistent i a b c (inl e) (g, inr f) = inl (f ∙ e)
respond-IsConsistent i a b c (inr (id, e, on)) (g, inr f) = inr (id, f ∙ e, g ∙ on)

step-IsConsistent : (s : Step) (b : Broker) → IsConsistent b → IsConsistent (step s b)
unfolding step register_gui unregister_gui respond open_request
step-IsConsistent Step.register b (inl e) = inl (ground arith)
step-IsConsistent Step.register b (inr (id, e, on)) = inr (id, ground arith, ground arith)
step-IsConsistent Step.unregister b c = inl refl
step-IsConsistent Step.request b (inr (id, e, on)) = inr (id, ground arith, ground arith)
step-IsConsistent Step.request b (inl e) = elim (Bool-cases b.gui) [
  | inr off ↦ inl (ground arith)
  | inl on ↦ inr (b.next_id, ground arith, ground arith)
]
step-IsConsistent (Step.answer i a) b c =
    respond-IsConsistent i a b c (without_id-IsConsistent i b c) (respond_leaves i a b)
step-IsConsistent (Step.forget i) b c = without_id-IsConsistent i b c

run-IsConsistent : (ss : List Step) (b : Broker) → IsConsistent b → IsConsistent (run ss b)
unfolding run
run-IsConsistent [] b c = c
run-IsConsistent (s ∷ ss) b c = run-IsConsistent ss (step s b) (step-IsConsistent s b c)

waited-IsConsistent :
    (id : ℕ) (w : Wait) (b : Broker) → IsConsistent b → IsConsistent (waited id w b).1
unfolding time_out
waited-IsConsistent id w b c = elim (Option-cases (b.answers id)) [
  | inr (a, e) ↦ rw (e, waited) c
  | inl e ↦
      rw (e, waited)
        (step-IsConsistent (Step.forget id)
          (run w.late (record b { live = set_at id false b.live }))
          (run-IsConsistent w.late (record b { live = set_at id false b.live }) c))
]

opened-IsConsistent : (b : Broker) → b.gui ≡ true → b.pending ≡ [] → IsConsistent (open_request b)
unfolding open_request
opened-IsConsistent b on e = inr (b.next_id, ap (◌∷◌ b.next_id) e, on)

refused :
    (e : GuiEvent) (w : Wait) (b : Broker) (id : ℕ)
    → b.gui ≡ true
    → b.pending ≡ id ∷ []
    → request_via_gui e w b ≡ (some false, b)
unfolding request_via_gui
refused e w b id on one = ground arith

unregister-IsConsistent : (b : Broker) → IsConsistent (unregister_gui b)
unfolding unregister_gui
unregister-IsConsistent b = inl refl

abbrev Kept : Option Bool × Broker → Type 0
Kept r = IsConsistent r.1

request_via_gui-Kept :
    (e : GuiEvent) (w : Wait) (b : Broker) → IsConsistent b → Kept (request_via_gui e w b)
unfolding request_via_gui
request_via_gui-Kept e w b (inr (i, f, on)) =
    subst Kept (sym (refused e w b i on f)) (inr (i, f, on))
request_via_gui-Kept e w b (inl f) = elim (Bool-cases b.gui) [
  | inr off ↦ subst Kept {x = (none, b)} {y = request_via_gui e w b} (ground arith) (inl f)
  | inl on ↦ elim (Bool-cases (w.delivered (with_id b.next_id e))) [
    | inr lost ↦
        subst Kept {x = (some false, unregister_gui (open_request b))} {y = request_via_gui e w b}
          (ground arith) (unregister-IsConsistent (open_request b))
    | inl sent ↦
        subst Kept {x = waited b.next_id w (run w.meanwhile (open_request b))}
          {y = request_via_gui e w b} (ground arith)
          (waited-IsConsistent b.next_id w (run w.meanwhile (open_request b))
            (run-IsConsistent w.meanwhile (open_request b) (opened-IsConsistent b on f)))
  ]
]

unasked_or_refused :
    (e : GuiEvent) (w : Wait) (b : Broker)
    → IsConsistent b
    → (b.pending ≡ []) ⊎ (request_via_gui e w b ≡ (some false, b))
unasked_or_refused e w b (inl none_open) = inl none_open
unasked_or_refused e w b (inr (id, one, on)) = inr (refused e w b id on one)

-- If at most one question is open, and none without a dialog, it stays so over any steps and over any
-- request after them, however that ends and whatever others do meanwhile; and a request that comes while
-- a question is open is refused and leaves that one as it was.
pub request_via_gui-IsConsistent :
    (e : GuiEvent) (w : Wait) (before : List Step) (b : Broker)
    → IsConsistent b
    → IsConsistent (run before b)
      × IsConsistent (request_via_gui e w (run before b)).1
      × (((run before b).pending ≡ [])
          ⊎ (request_via_gui e w (run before b) ≡ (some false, run before b)))
request_via_gui-IsConsistent e w before b c =
    let kept = run-IsConsistent before b c in
    (kept, request_via_gui-Kept e w (run before b) kept, unasked_or_refused e w (run before b) kept)
