-- ===== src/Examples/PairingRuns.antt =====
-- Transactions, messages and recovery on concrete inputs.
use desk_unlock.Prelude.{
  ◌≡◌, refl, ℕ, true, false, List, [], ◌∷◌, some, ok, arith, replicate, bytes_eq,
}
use desk_unlock.Pairing.Types.{
  Operation, Phase, coordinator, participant, LocalEvent, StatusState, Message, is_both,
}
use desk_unlock.Pairing.State.{Transaction, new, validate, status, reconcile_status}
use desk_unlock.Pairing.Transaction.{local, remote}
use desk_unlock.Pairing.Transaction.Decisions.{is_decided}
use desk_unlock.Pairing.Transaction.Runs.{
  Call, run, step, HasCall, IsPeerConfirm, bonded_is_bilateral, decision_is_final,
  commit_needs_confirmations,
}
use desk_unlock.Pairing.Transaction.Reconcile.{IsAborted, reconcile_agrees}
use desk_unlock.Pairing.Codec.{encode_message, encode_status_message, serialize}
use desk_unlock.Engine.Service.{response}
use desk_unlock.Phone.Pairing.{apply_local, apply_remote, apply_status, saved}
use desk_unlock.Phone.Pairing.Laws.{phone_tracks}

abbrev attempt : List ℕ
attempt = replicate 16 7

abbrev says : Operation → Call
says op = Call.remotely (record { transaction = attempt; operation = op })

abbrev to_bonded : List Call
to_bonded =
    says Operation.capability
    ∷ Call.locally LocalEvent.capability
    ∷ Call.locally LocalEvent.verified_exchange
    ∷ Call.locally LocalEvent.confirm
    ∷ says Operation.confirm
    ∷ Call.locally LocalEvent.prepared
    ∷ says Operation.prepared
    ∷ Call.locally LocalEvent.commit
    ∷ says Operation.commit_ack
    ∷ says Operation.committed
    ∷ Call.locally LocalEvent.committed
    ∷ []

abbrev fresh : Transaction
fresh = record {
  id = attempt;
  role = coordinator;
  phase = Phase.negotiating;
  capabilities = record { mine = false; peer = false };
  confirmed = record { mine = false; peer = false };
  prepared = record { mine = false; peer = false };
  committed = record { mine = false; peer = false };
}

abbrev full : Phase → Transaction
full p = record fresh {
  phase = p;
  capabilities = record { mine = true; peer = true };
  confirmed = record { mine = true; peer = true };
  prepared = record { mine = true; peer = true };
}

abbrev bonded : Transaction
bonded = record (full Phase.bonded) { committed = record { mine = true; peer = true } }

run_bonds : run (new attempt coordinator) to_bonded ≡ bonded
unfolding run step new local remote bytes_eq
run_bonds = refl

bonded_is_bilateral_example :
    let t = run (new attempt coordinator) to_bonded in
    (is_both t.capabilities ≡ true)
    × (is_both t.confirmed ≡ true)
    × (is_both t.prepared ≡ true)
    × (is_both t.committed ≡ true)
unfolding run step new local remote bytes_eq
bonded_is_bilateral_example = bonded_is_bilateral attempt coordinator to_bonded refl

decision_is_final_example :
    is_decided (run (full Phase.committed) (says Operation.cancel ∷ [])).phase ≡ true
decision_is_final_example =
    decision_is_final (full Phase.committed) (says Operation.cancel ∷ []) refl

commit_needs_confirmations_example :
    HasCall (λ c. c ≡ Call.locally LocalEvent.confirm) to_bonded
    × HasCall (IsPeerConfirm attempt) to_bonded
unfolding run step new local remote bytes_eq
commit_needs_confirmations_example = commit_needs_confirmations attempt coordinator to_bonded refl

abbrev phone : Transaction
phone = record (full Phase.prepared) { role = participant }

abbrev commit_message : Message
commit_message = record { transaction = attempt; operation = Operation.commit }

reconcile_agrees_example :
    ¬ IsAborted (reconcile_status (full Phase.committed) (status (full Phase.committed))).0.phase
unfolding reconcile_status status
reconcile_agrees_example = reconcile_agrees (full Phase.committed) (full Phase.committed) refl

prepared-valid : validate (full Phase.prepared) ≡ ok tt
unfolding validate
prepared-valid = refl

not-IsAborted : ¬ IsAborted (full Phase.prepared).phase
not-IsAborted a = cc

phone_tracks_example :
    let t = full Phase.prepared in
    (apply_local (serialize t) 4 ≡ saved (local t LocalEvent.commit))
    × (apply_remote (serialize t) (encode_message commit_message) ≡ saved (remote t commit_message))
    × (apply_status
          (serialize t)
          (encode_status_message (response t.id 6 StatusState.committed))
          (some 6)
        ≡ saved (reconcile_status t StatusState.committed))
phone_tracks_example =
    phone_tracks (full Phase.prepared) refl prepared-valid not-IsAborted 4 LocalEvent.commit
      commit_message 6 StatusState.committed refl refl (omega arith)
