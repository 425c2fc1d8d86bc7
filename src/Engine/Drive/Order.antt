-- ===== src/Engine/Drive/Order.antt =====
-- Which actions an attempt may do, given what it has done.
use desk_unlock.Prelude.{Bool, true, false, ◌&&◌, ◌||◌, List, [], ◌∷◌}
use desk_unlock.Pairing.Types.{Operation}
use desk_unlock.Engine.Actions.{PairCommitPhase, Action, op_eq}

abbrev pub any : (Action → Bool) → List Action → Bool
any p [] = false
any p (a ∷ rest) = p a || any p rest

abbrev is_published : Operation → Action → Bool
is_published op (Action.published k) = op_eq k op
is_published op _ = false

abbrev is_took : Operation → Action → Bool
is_took op (Action.took k) = op_eq k op
is_took op _ = false

abbrev is_granted : PairCommitPhase → Action → Bool
is_granted PairCommitPhase.stage (Action.requested PairCommitPhase.stage b) = b
is_granted PairCommitPhase.mark_commit (Action.requested PairCommitPhase.mark_commit b) = b
is_granted PairCommitPhase.promote (Action.requested PairCommitPhase.promote b) = b
is_granted _ _ = false

abbrev is_agreed : Action → Bool
is_agreed (Action.asked b) = b
is_agreed _ = false

-- What must have been done before an action.
abbrev pub allowed : Action → List Action → Bool
allowed (Action.published Operation.confirm) before =
    any is_agreed before && any (is_took Operation.capability) before
allowed (Action.requested PairCommitPhase.stage _) before =
    any is_agreed before
    && any (is_published Operation.confirm) before
    && any (is_took Operation.confirm) before
allowed (Action.published Operation.prepared) before =
    any (is_granted PairCommitPhase.stage) before && any (is_took Operation.prepared) before
allowed (Action.requested PairCommitPhase.mark_commit _) before =
    any (is_published Operation.prepared) before
allowed (Action.published Operation.commit) before =
    any (is_granted PairCommitPhase.mark_commit) before
allowed (Action.published Operation.committed) before = any (is_took Operation.commit_ack) before
allowed (Action.requested PairCommitPhase.promote _) before =
    any (is_published Operation.committed) before && any (is_took Operation.committed) before
allowed Action.notified_bonded before = any (is_granted PairCommitPhase.promote) before
allowed _ before = true

-- Every action was allowed when it was done.
abbrev pub ordered : List Action → Bool
ordered [] = true
ordered (a ∷ rest) = allowed a rest && ordered rest

abbrev pub is_notified : Action → Bool
is_notified Action.notified_bonded = true
is_notified _ = false
