-- ===== src/Engine/Drive/Completion.antt =====
-- The pairing attempt of crates/syauth-transport/src/pair_engine.rs against a peer that answers in
-- time, an operator who agrees and storage that grants.
use desk_unlock.Prelude.{◌≡◌, refl, true, arith, ok, err, ℕ, List, [], length, Result, ok-injective}
use desk_unlock.Pairing.Types.{Operation, coordinator, LocalEvent}
use desk_unlock.Pairing.State.{Transaction, new}
use desk_unlock.Pairing.Transaction.{local}
use desk_unlock.Engine.Framing.{is_ok}
use desk_unlock.Engine.Service.{ServiceState, publish}
use desk_unlock.Engine.Actions.{
  PairCommitPhase, PairEngineError, aborted, uncertain, World, publish_paced, wait_for_operation,
  apply_local, apply_remote, remember, request, ask, send, pace,
}
use desk_unlock.Engine.Drive.{
  receive, drive, rounds, capability_round, confirm_round, confirmed_round, storage_round,
  prepared_round, commit_round, committed_round, promotion, on_committed, establish, notify_bonded,
  or_discard, start,
}
use desk_unlock.Engine.Drive.Trust.{trust_established, drive-trust_established}
use desk_unlock.Engine.Drive.Prompt.{
  prompt, cooperative, Yields, Ready, bind-Yields, send-Yields, local-Yields, remote-Yields,
  remember-Yields, wait-Yields, receive-Yields, discard-Yields,
}
use desk_unlock.Engine.Drive.Progress.{
  negotiated, heard, offered, agreed, confirmed, staged, prepared, pending, committed, recorded,
  bonded, hears_capability, hears_confirm, hears_prepared, hears_commit_ack, hears_committed,
}

capability-Yields :
    (id : List ℕ) (w : World)
    → length id ≡ 16
    → Ready (new id coordinator) w
    → Yields (negotiated id) (capability_round (cooperative id) w)
unfolding capability_round new local
capability-Yields id w n h =
    let end = negotiated id in
    bind-Yields (new id coordinator) end _ (publish_paced (cooperative id) Operation.capability w)
      (send-Yields id Operation.capability (new id coordinator) w h)
      λ _ w1 _ h1.
        bind-Yields (heard id) end _
          (receive (prompt id Operation.capability) Operation.capability w1)
          (receive-Yields Operation.capability (new id coordinator) (heard id) w1 h1 n (λ e. cc)
            refl (hears_capability id))
          λ _ w2 _ h2.
            bind-Yields (offered id) end _ (apply_local aborted LocalEvent.capability w2)
              (local-Yields aborted LocalEvent.capability (heard id) (offered id) w2 h2 refl)
              λ _ w3 _ h3.
                bind-Yields end end _ (apply_local aborted LocalEvent.verified_exchange w3)
                  (local-Yields aborted LocalEvent.verified_exchange (offered id) end w3 h3 refl)
                  λ _ w4 _ h4. remember-Yields end w4 h4

confirm-Yields :
    (id : List ℕ) (w : World)
    → length id ≡ 16
    → Ready (negotiated id) w
    → Yields (confirmed id) (confirm_round (cooperative id) w)
unfolding confirm_round confirmed_round ask new local
confirm-Yields id w n h =
    let end = confirmed id in
    let w0 : World = (ask (cooperative id) w).1 in
    bind-Yields (agreed id) end _ (apply_local aborted LocalEvent.confirm w0)
      (local-Yields aborted LocalEvent.confirm (negotiated id) (agreed id) w0 h refl)
      λ _ w1 _ h1.
        bind-Yields (agreed id) end _ (publish_paced (cooperative id) Operation.confirm w1)
          (send-Yields id Operation.confirm (agreed id) w1 h1)
          λ _ w2 _ h2.
            receive-Yields Operation.confirm (agreed id) end w2 h2 n (λ e. cc) refl
              (hears_confirm id)

storage-Yields :
    (id : List ℕ) (phase : PairCommitPhase) (t : Transaction) (w : World)
    → Ready t w
    → Yields t (storage_round (cooperative id) phase w)
unfolding storage_round request
storage-Yields id phase t w h = (refl, h.0, h.1)

prepared-Yields :
    (id : List ℕ) (w : World)
    → length id ≡ 16
    → Ready (confirmed id) w
    → Yields (prepared id) (prepared_round (cooperative id) w)
unfolding prepared_round new local
prepared-Yields id w n h =
    let end = prepared id in
    bind-Yields (staged id) end _ (apply_local aborted LocalEvent.prepared w)
      (local-Yields aborted LocalEvent.prepared (confirmed id) (staged id) w h refl)
      λ _ w1 _ h1.
        bind-Yields (staged id) end _
          (or_discard (cooperative id) Operation.prepared
            (wait_for_operation (prompt id Operation.prepared)) w1)
          (discard-Yields id Operation.prepared (staged id) w1 h1 refl n (λ e. cc) refl)
          λ _ w2 _ h2.
            bind-Yields end end _ (apply_remote Operation.prepared w2)
              (remote-Yields Operation.prepared (staged id) end w2 h2 (hears_prepared id))
              λ _ w3 _ h3. send-Yields id Operation.prepared end w3 h3

commit-Yields :
    (id : List ℕ) (w : World)
    → length id ≡ 16
    → Ready (prepared id) w
    → Yields (committed id) (commit_round (cooperative id) w)
unfolding commit_round new local
commit-Yields id w n h =
    let end = committed id in
    bind-Yields (pending id) end _ (apply_local aborted LocalEvent.commit w)
      (local-Yields aborted LocalEvent.commit (prepared id) (pending id) w h refl)
      λ _ w1 _ h1.
        bind-Yields (pending id) end _ (publish_paced (cooperative id) Operation.commit w1)
          (send-Yields id Operation.commit (pending id) w1 h1)
          λ _ w2 _ h2.
            bind-Yields (pending id) end _
              (or_discard (cooperative id) Operation.commit_ack
                (wait_for_operation (prompt id Operation.commit_ack)) w2)
              (discard-Yields id Operation.commit_ack (pending id) w2 h2 refl n (λ e. cc) refl)
              λ _ w3 _ h3.
                bind-Yields end end _ (apply_remote Operation.commit_ack w3)
                  (remote-Yields Operation.commit_ack (pending id) end w3 h3 (hears_commit_ack id))
                  λ _ w4 _ h4. remember-Yields end w4 h4

promotion-Yields :
    (id : List ℕ) (w : World)
    → Ready (committed id) w
    → Yields (bonded id) (promotion (cooperative id) w)
unfolding promotion establish notify_bonded request new local
promotion-Yields id w h =
    let end = bonded id in
    bind-Yields (recorded id) end _ (apply_remote Operation.committed w)
      (remote-Yields Operation.committed (committed id) (recorded id) w h (hears_committed id))
      λ _ w1 _ h1.
        let w2 : World = (request (cooperative id) PairCommitPhase.promote w1).1 in
        bind-Yields end end _ (apply_local uncertain LocalEvent.committed w2)
          (local-Yields uncertain LocalEvent.committed (recorded id) end w2 h1 refl)
          λ _ w3 _ h3.
            bind-Yields end end (λ _. notify_bonded) (remember w3) (remember-Yields end w3 h3)
              λ _ w4 _ h4. (refl, h4.0, h4.1)

promoted-Yields :
    (id : List ℕ) (r : Result PairEngineError Operation × World)
    → Yields (committed id) r
    → r.0 ≡ ok Operation.committed
    → Yields (bonded id) (on_committed (cooperative id) r)
promoted-Yields id (ok o, w) h e = rw (ok-injective e) (promotion-Yields id w (h.1, h.2))
promoted-Yields id (err x, w) h e = absurd (ground arith)

committed-Yields :
    (id : List ℕ) (w : World)
    → length id ≡ 16
    → Ready (committed id) w
    → Yields (bonded id) (committed_round (cooperative id) w)
unfolding committed_round new publish_paced send pace publish
committed-Yields id w n h =
    let w1 : World = (publish_paced (cooperative id) Operation.committed w).1 in
    let (waits, gets) = wait-Yields Operation.committed (committed id) w1 h n (λ e. cc) refl in
    promoted-Yields id (wait_for_operation (prompt id Operation.committed) w1) waits gets

rounds-Yields :
    (id : List ℕ) (w : World)
    → length id ≡ 16
    → Ready (new id coordinator) w
    → Yields (bonded id) (rounds (cooperative id) w)
unfolding rounds
rounds-Yields id w n h =
    let sch = cooperative id in
    let end = bonded id in
    bind-Yields (negotiated id) end _ (capability_round sch w) (capability-Yields id w n h)
      λ _ w1 _ h1.
        bind-Yields (confirmed id) end _ (confirm_round sch w1) (confirm-Yields id w1 n h1)
          λ _ w2 _ h2.
            bind-Yields (confirmed id) end _ (storage_round sch PairCommitPhase.stage w2)
              (storage-Yields id PairCommitPhase.stage (confirmed id) w2 h2)
              λ _ w3 _ h3.
                bind-Yields (prepared id) end _ (prepared_round sch w3) (prepared-Yields id w3 n h3)
                  λ _ w4 _ h4.
                    bind-Yields (prepared id) end _
                      (storage_round sch PairCommitPhase.mark_commit w4)
                      (storage-Yields id PairCommitPhase.mark_commit (prepared id) w4 h4)
                      λ _ w5 _ h5.
                        bind-Yields (committed id) end _ (commit_round sch w5)
                          (commit-Yields id w5 n h5) λ _ w6 _ h6. committed-Yields id w6 n h6

succeeded : (r : Result PairEngineError (Unit {0})) → is_ok r ≡ true → r ≡ ok tt
succeeded (ok tt) h = refl
succeeded (err e) h = absurd (ground arith)

-- With a peer that answers each round before its first poll, an operator who agrees and storage
-- that grants, an attempt from an empty inbox with a 16-byte identifier succeeds, does every step
-- of the protocol, and leaves a transaction that is bonded with all its flags set.
pub drive-cooperative :
    (s : ServiceState) (id : List ℕ)
    → length id ≡ 16
    → s.inbox ≡ []
    → let (r, w) = drive s id (cooperative id) in
      (r ≡ ok tt) × (w.transaction ≡ bonded id) × (w.actions ≡ trust_established)
unfolding drive
drive-cooperative s id n e =
    let (fine, done, _) = rounds-Yields id (start s id) n (refl, e) in
    let good = succeeded (rounds (cooperative id) (start s id)).0 fine in
    (good, done, (drive-trust_established s id (cooperative id)).0 good)
