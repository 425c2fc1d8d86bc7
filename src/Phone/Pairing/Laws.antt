-- ===== src/Phone/Pairing/Laws.antt =====
-- What the phone keeps of a pairing between two calls.
use desk_unlock.Prelude.{
  get_or, ◌∙◌, ◌≡◌, ◌<◌, ◌^◌, refl, ap, arith, false, ok, err, ℕ, List, length, some,
}
use desk_unlock.Pairing.Types.{Operation, Phase, LocalEvent, StatusState, Message, incompatible}
use desk_unlock.Pairing.State.{Transaction, validate, reconcile_status}
use desk_unlock.Pairing.Transaction.{local, remote}
use desk_unlock.Pairing.Transaction.Decisions.{is_decided}
use desk_unlock.Pairing.Transaction.Reconcile.{IsAborted, apply_status_response_current}
use desk_unlock.Pairing.Codec.{
  encode_message, encode_status_message, serialize, restore, decode_role, decode_phase, phase_code,
}
use desk_unlock.Pairing.Codec.RoundTrip.{decode_message-encode_message}
use desk_unlock.Pairing.Codec.StatusRoundTrip.{decode_status_message-encode_status_message}
use desk_unlock.Pairing.Codec.Recovery.{restore-serialize}
use desk_unlock.Engine.Service.{response}
use desk_unlock.Phone.Challenge.{bad_frame}
use desk_unlock.Phone.Pairing.{apply_local, apply_remote, apply_status, phase, event_of, saved}

module _ (t : Transaction) (n : length t.id ≡ 16) (v : validate t ≡ ok tt)
    (a : ¬ IsAborted t.phase) where
  tracks_local :
      (b : ℕ) (e : LocalEvent) → event_of b ≡ ok e → apply_local (serialize t) b ≡ saved (local t e)
  unfolding apply_local
  tracks_local b e h = rw (restore-serialize t n v a, h) refl

  tracks_remote :
      (m : Message)
      → length m.transaction ≡ 16
      → apply_remote (serialize t) (encode_message m) ≡ saved (remote t m)
  unfolding apply_remote
  tracks_remote m h = rw (restore-serialize t n v a, decode_message-encode_message m h) refl

  tracks_status :
      (nonce : ℕ) (s : StatusState)
      → nonce < 256 ^ 8
      → apply_status (serialize t) (encode_status_message (response t.id nonce s)) (some nonce)
        ≡ saved (reconcile_status t s)
  unfolding apply_status
  tracks_status nonce s h =
      rw
        (
          restore-serialize t n v a,
          decode_status_message-encode_status_message (response t.id nonce s) n h,
          apply_status_response_current t (response t.id nonce s) nonce s refl,
        )
        refl

  -- The serialized form of a transaction that the state machine validates, that is not aborted and
  -- that has a 16-byte identifier follows the state machine: a call with a code that stands for a local
  -- event, with the encoding of a peer's message whose identifier has 16 bytes, or with the encoding of
  -- the status response to the phone's last query, whose nonce is a `u64`, gives the serialized result
  -- of that event, message or reconciliation, or an error exactly when the state machine refuses it.
  pub phone_tracks :
      (b : ℕ) (e : LocalEvent) (m : Message) (nonce : ℕ) (s : StatusState)
      → event_of b ≡ ok e
      → length m.transaction ≡ 16
      → nonce < 256 ^ 8
      → (apply_local (serialize t) b ≡ saved (local t e))
        × (apply_remote (serialize t) (encode_message m) ≡ saved (remote t m))
        × (apply_status (serialize t) (encode_status_message (response t.id nonce s)) (some nonce)
            ≡ saved (reconcile_status t s))
  phone_tracks b e m nonce s h k l =
      (tracks_local b e h, tracks_remote m k, tracks_status nonce s l)

-- The code of an aborted phase is not restored.
restore_code_7 : (bs : List ℕ) → get_or bs 2 0 ≡ 7 → restore bs ≡ err incompatible
unfolding restore decode_role decode_phase
restore_code_7 bs h = ground arith

phase_aborted :
    (t : Transaction) (op : Operation)
    → t.phase ≡ Phase.aborted op
    → phase (serialize t) ≡ err bad_frame
unfolding phase serialize phase_code
phase_aborted t op h = rw (restore_code_7 (serialize t) (rw h refl)) refl

local_cancel :
    (t : Transaction)
    → is_decided t.phase ≡ false
    → ¬ IsAborted t.phase
    → local t (LocalEvent.abort Operation.cancel)
      ≡ (record t { phase = Phase.aborted Operation.cancel }, ok tt)
unfolding local
local_cancel t u a = ground arith

-- When the phone cancels an attempt before its commit is decided, the call succeeds, but what it
-- returns is not read back: asking for its phase is an error, not the code of an aborted phase.
cancelled_unreadable :
    (t : Transaction)
    → length t.id ≡ 16
    → validate t ≡ ok tt
    → ¬ IsAborted t.phase
    → is_decided t.phase ≡ false
    → (bytes : List ℕ) × (apply_local (serialize t) 9 ≡ ok bytes) × (phase bytes ≡ err bad_frame)
cancelled_unreadable t n v a u =
    let t' : Transaction = record t { phase = Phase.aborted Operation.cancel } in
    (
      serialize t',
      tracks_local t n v a 9 (LocalEvent.abort Operation.cancel) refl
          ∙ ap saved (local_cancel t u a),
      phase_aborted t' Operation.cancel refl,
    )
