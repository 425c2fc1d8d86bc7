-- ===== src/Pairing/Codec/Recovery.antt =====
-- `Transaction::serialize` and `Transaction::restore`: which transactions survive a restart.
use desk_unlock.Prelude.{
  ◌≡◌, ◌+◌, refl, ap, ◌∙◌, arith, ok, err, ℕ, List, [], ◌∷◌, ◌++◌, length, take, drop, get_or,
  take-append, length-append, get_or-append_right, ◌<◌, drop-cons, drop-field, drop_all,
  length-field, suc,
}
use desk_unlock.Pairing.Types.{invalid_transition, Phase, Role, LocalEvent, Flags}
use desk_unlock.Pairing.State.{Transaction, validate, new}
use desk_unlock.Pairing.Transaction.{local}
use desk_unlock.Pairing.Transaction.Reconcile.{IsAborted}
use desk_unlock.Pairing.Codec.{
  serialize, restore, phase_code, decode_phase, decode_role, decode_flags, role_code, bool_byte,
}

flag_bytes : Flags → Flags → Flags → Flags → List ℕ
flag_bytes a b c d =
    bool_byte a.mine
    ∷ bool_byte a.peer
    ∷ bool_byte b.mine
    ∷ bool_byte b.peer
    ∷ bool_byte c.mine
    ∷ bool_byte c.peer
    ∷ bool_byte d.mine
    ∷ bool_byte d.peer
    ∷ []

decode_phase-phase_code : (p : Phase) → ¬ IsAborted p → decode_phase (phase_code p) ≡ ok p
unfolding decode_phase phase_code
decode_phase-phase_code (Phase.aborted op) h = absurd (h (op, refl))
decode_phase-phase_code _ h = refl

decode_role-role_code : (r : Role) → decode_role (role_code r) ≡ ok r
unfolding decode_role
decode_role-role_code r = ground arith

decode_flags-bool_byte : (f : Flags) → decode_flags (bool_byte f.mine) (bool_byte f.peer) ≡ ok f
unfolding decode_flags
decode_flags-bool_byte f = ground arith

-- A valid transaction that has not aborted is restored as it was.
pub restore-serialize :
    (t : Transaction)
    → length t.id ≡ 16
    → validate t ≡ ok tt
    → ¬ IsAborted t.phase
    → restore (serialize t) ≡ ok t
unfolding restore serialize flag_bytes
restore-serialize t h v n =
    let fs : List ℕ = flag_bytes t.capabilities t.confirmed t.prepared t.committed in
    let at : (i : ℕ) → get_or (t.id ++ fs) (16 + i) 0 ≡ get_or fs i 0 =
      λ i. get_or-append_right 16 i t.id fs 0 h in
    ground (
      arith,
      decode_phase-phase_code t.phase n,
      decode_role-role_code t.role,
      decode_flags-bool_byte t.capabilities,
      decode_flags-bool_byte t.confirmed,
      decode_flags-bool_byte t.prepared,
      decode_flags-bool_byte t.committed,
      length-append t.id fs,
      take-append 16 t.id fs h,
      at 0,
      at 1,
      at 2,
      at 3,
      at 4,
      at 5,
      at 6,
      at 7,
    )

restore_fields :
    (bs : List ℕ) {t : Transaction}
    → restore bs ≡ ok t
    → (length bs ≡ 27)
      × (get_or bs 0 0 ≡ 2)
      × (decode_role (get_or bs 1 0) ≡ ok t.role)
      × (decode_phase (get_or bs 2 0) ≡ ok t.phase)
      × (t.id ≡ take 16 (drop 3 bs))
      × (validate t ≡ ok tt)
unfolding restore
restore_fields bs h = ground arith

restore_flags :
    (bs : List ℕ) {t : Transaction}
    → restore bs ≡ ok t
    → (decode_flags (get_or bs 19 0) (get_or bs 20 0) ≡ ok t.capabilities)
      × (decode_flags (get_or bs 21 0) (get_or bs 22 0) ≡ ok t.confirmed)
      × (decode_flags (get_or bs 23 0) (get_or bs 24 0) ≡ ok t.prepared)
      × (decode_flags (get_or bs 25 0) (get_or bs 26 0) ≡ ok t.committed)
unfolding restore
restore_flags bs h = ground arith

phase_code-decode_phase :
    (b : ℕ) (p : Phase) → decode_phase b ≡ ok p → (phase_code p ≡ b) × ¬ IsAborted p
unfolding decode_phase phase_code
phase_code-decode_phase b p h = (ground arith, λ a. ground arith)

role_code-decode_role : (b : ℕ) (r : Role) → decode_role b ≡ ok r → role_code r ≡ b
unfolding decode_role
role_code-decode_role b r h = ground arith

bool_byte-decode_flags :
    (a b : ℕ) (f : Flags)
    → decode_flags a b ≡ ok f
    → (bool_byte f.mine ≡ a) × (bool_byte f.peer ≡ b)
unfolding decode_flags
bool_byte-decode_flags a b f h = ground arith

serialized_fields :
    (bs : List ℕ)
    → length bs ≡ 27
    → bs
      ≡ get_or bs 0 0 ∷ get_or bs 1 0 ∷ get_or bs 2 0 ∷ take 16 (drop 3 bs)
        ++ (get_or bs 19 0
            ∷ get_or bs 20 0
            ∷ get_or bs 21 0
            ∷ get_or bs 22 0
            ∷ get_or bs 23 0
            ∷ get_or bs 24 0
            ∷ get_or bs 25 0
            ∷ get_or bs 26 0
            ∷ [])
serialized_fields bs h =
    let one : (i : ℕ) → i < 27 → drop i bs ≡ get_or bs i 0 ∷ drop (suc i) bs =
      λ i lt. drop-cons i bs 0 (omega arith) in
    ground (
      arith,
      one 0 (omega arith),
      one 1 (omega arith),
      one 2 (omega arith),
      drop-field 3 16 19 bs (omega arith),
      one 19 (omega arith),
      one 20 (omega arith),
      one 21 (omega arith),
      one 22 (omega arith),
      one 23 (omega arith),
      one 24 (omega arith),
      one 25 (omega arith),
      one 26 (omega arith),
      drop_all 27 bs (omega arith),
    )

-- Bytes that are restored are the serialized form of the transaction they give, which is valid and
-- not aborted.
serialize-restore :
    (bs : List ℕ) {t : Transaction}
    → restore bs ≡ ok t
    → (serialize t ≡ bs) × (validate t ≡ ok tt) × ¬ IsAborted t.phase × (length t.id ≡ 16)
unfolding serialize
serialize-restore bs {t} h =
    let (len, ver, ro, ph, id, v) = restore_fields bs h in
    let (ca, co, pr, fi) = restore_flags bs h in
    let phase = phase_code-decode_phase (get_or bs 2 0) t.phase ph in
    (
      ground (
        arith,
        serialized_fields bs len,
        phase.0,
        role_code-decode_role (get_or bs 1 0) t.role ro,
        bool_byte-decode_flags (get_or bs 19 0) (get_or bs 20 0) t.capabilities ca,
        bool_byte-decode_flags (get_or bs 21 0) (get_or bs 22 0) t.confirmed co,
        bool_byte-decode_flags (get_or bs 23 0) (get_or bs 24 0) t.prepared pr,
        bool_byte-decode_flags (get_or bs 25 0) (get_or bs 26 0) t.committed fi,
      ),
      v,
      phase.1,
      ap length id ∙ length-field 3 16 bs (omega arith),
    )

-- A side that offers the protocol first, an event that `local` accepts, is in a state that
-- `restore` refuses.
restore_early_offer :
    (id : List ℕ) (role : Role)
    → length id ≡ 16
    → let (t, result) = local (new id role) LocalEvent.capability in
      (result ≡ ok tt) × (restore (serialize t) ≡ err invalid_transition)
unfolding restore serialize local new validate decode_role decode_phase decode_flags phase_code
restore_early_offer id role h =
    let fs : List ℕ = 1 ∷ 0 ∷ 0 ∷ 0 ∷ 0 ∷ 0 ∷ 0 ∷ 0 ∷ [] in
    let at : (i : ℕ) → get_or (id ++ fs) (16 + i) 0 ≡ get_or fs i 0 =
      λ i. get_or-append_right 16 i id fs 0 h in
    (refl, ground (arith, length-append id fs, at 0, at 1, at 2, at 3, at 4, at 5, at 6, at 7))
