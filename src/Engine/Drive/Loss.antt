-- ===== src/Engine/Drive/Loss.antt =====
-- A lost acknowledgement: what the attempt does when nothing answers its COMMIT.
use desk_unlock.Prelude.{◌≡◌, refl, ap, ◌∙◌, arith, ok, err, none, ℕ, List, [], ◌∷◌, some, All}
use desk_unlock.Pairing.Types.{Operation, Phase, coordinator, LocalEvent}
use desk_unlock.Pairing.State.{Transaction}
use desk_unlock.Pairing.Transaction.{local}
use desk_unlock.Engine.Service.{ServiceState, publish, take_message, take_first, status_snapshot}
use desk_unlock.Engine.Actions.{
  PairCommitPhase, aborted, Schedule, Action, World, wait_for_operation, poll, pace, message,
  Traffic, Polls, traffic, publish_paced, apply_local, send,
}
use desk_unlock.Engine.Drive.{commit_round, or_discard, abort_with_discard}

local_commit :
    (t : Transaction)
    → t.phase ≡ Phase.prepared
    → t.role ≡ coordinator
    → local t LocalEvent.commit ≡ (record t { phase = Phase.commit_pending }, ok tt)
unfolding local
local_commit t p r = ground arith

committed_locally :
    (w : World)
    → w.transaction.phase ≡ Phase.prepared
    → w.transaction.role ≡ coordinator
    → apply_local aborted LocalEvent.commit w
      ≡ (ok tt, record w { transaction = record w.transaction { phase = Phase.commit_pending } })
unfolding apply_local
committed_locally w p r = rw (local_commit w.transaction p r)

uncertain_after_abort :
    (t : Transaction)
    → t.phase ≡ Phase.commit_pending
    → (local t (LocalEvent.abort Operation.error)).0.phase ≡ Phase.uncertain
unfolding local
uncertain_after_abort t p = ground arith

-- The phone reads the status, and writes nothing.
abbrev pub OnlyReads : List Traffic → Type 0
OnlyReads [] = Unit {0}
OnlyReads (Traffic.writes bytes ∷ ts) = ⊥
OnlyReads (Traffic.reads offset ∷ ts) = OnlyReads ts

traffic-inbox :
    (s : ServiceState) (ts : List Traffic) → OnlyReads ts → (traffic s ts).inbox ≡ s.inbox
unfolding traffic status_snapshot
traffic-inbox s [] h = refl
traffic-inbox s (Traffic.writes bytes ∷ ts) h = absurd h
traffic-inbox s (Traffic.reads offset ∷ ts) h =
    traffic-inbox (status_snapshot s offset).0 ts h ∙ ground arith

pace-inbox :
    (s : ServiceState) (polls : Polls) → All OnlyReads polls → (pace s polls).inbox ≡ s.inbox
unfolding pace
pace-inbox s [] h = refl
pace-inbox s (ts ∷ polls) h =
    let further = pace-inbox (traffic s ts) polls h.1 ∙ traffic-inbox s ts h.0 in ground arith

take_nothing : (s : ServiceState) (id : List ℕ) → s.inbox ≡ [] → take_message s id ≡ (s, none)
unfolding take_message take_first
take_nothing s id e = rw e refl

poll_step :
    (s s' : ServiceState) (id : List ℕ) (ts : List Traffic) (polls : Polls)
    → take_message (traffic s ts) id ≡ (s', none)
    → poll s id (ts ∷ polls) ≡ poll s' id polls
unfolding poll
poll_step s s' id ts polls e =
    ap (λ r. elim r.1 [ some op ↦ (r.0, some op) | none ↦ poll r.0 id polls ]) e

poll_nothing :
    (s : ServiceState) (id : List ℕ) (polls : Polls)
    → s.inbox ≡ []
    → All OnlyReads polls
    → (s' : ServiceState) × (poll s id polls ≡ (s', none))
unfolding poll
poll_nothing s id [] e h = (s, take_nothing s id e)
poll_nothing s id (ts ∷ polls) e h =
    let quiet = traffic-inbox s ts h.0 ∙ e in
    let (s', found) = poll_nothing (traffic s ts) id polls quiet h.1 in
    (s', poll_step s (traffic s ts) id ts polls (take_nothing (traffic s ts) id quiet) ∙ found)

-- In the commit round of a coordinator whose transaction is prepared, if the inbox is empty and the phone
-- only reads the status, as often as it likes, until the deadlines of the publication of COMMIT and of
-- the wait for COMMIT_ACK, the attempt fails and asks the daemon to discard the staged bond and its journal,
-- although its COMMIT is published and its transaction is uncertain.
pub commit_round_unanswered :
    (sch : Schedule) (w : World)
    → w.transaction.phase ≡ Phase.prepared
    → w.transaction.role ≡ coordinator
    → All OnlyReads (sch.pacing Operation.commit)
    → All OnlyReads sch.ack_polls
    → w.service.inbox ≡ []
    → let (r, w') = commit_round sch w in
      (r ≡ err aborted)
      × (w'.transaction.phase ≡ Phase.uncertain)
      × (w'.actions
          ≡ Action.requested PairCommitPhase.discard (sch.reply PairCommitPhase.discard)
            ∷ Action.published Operation.error
            ∷ Action.published Operation.commit
            ∷ w.actions)
unfolding commit_round publish_paced or_discard wait_for_operation send abort_with_discard publish
commit_round_unanswered sch w p r q a e =
    let t : Transaction = record w.transaction { phase = Phase.commit_pending } in
    let paced : ServiceState = pace w.service (sch.pacing Operation.commit) in
    let (s', found) =
      poll_nothing (publish paced (message t Operation.commit)) w.transaction.id sch.ack_polls
        (pace-inbox w.service (sch.pacing Operation.commit) q ∙ e) a in
    rw (committed_locally w p r, found) (refl, uncertain_after_abort t refl, refl)
