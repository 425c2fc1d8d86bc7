-- ===== src/Examples/LockRuns.antt =====
-- Starts and shutdowns of the daemon's instances on concrete inputs.
use desk_unlock.Prelude.{
  if◌then◌else◌, ◌==◌, ℕ, ◌≡◌, ◌≢◌, refl, arith, true, none, some, List, [], ◌∷◌, inr,
}
use desk_unlock.Presence.Lock.{Stage, System, Call, run, step}
use desk_unlock.Presence.Lock.Exclusion.{
  IsCalm, idle, single_instance, overtaken, removal_admits_two,
}

-- Instance 3 runs and stops; then 1 and 2 start at the same time.
abbrev restarts : List (ℕ × Call)
restarts =
    (3, Call.opens true)
    ∷ (3, Call.locks true)
    ∷ (3, Call.writes true)
    ∷ (3, Call.removes true)
    ∷ (3, Call.closes)
    ∷ (1, Call.opens true)
    ∷ (2, Call.opens true)
    ∷ (1, Call.locks true)
    ∷ (2, Call.locks true)
    ∷ (1, Call.writes true)
    ∷ []

runs_one : (run restarts (idle none 0)).stage 1 ≡ Stage.running 1
unfolding run step
runs_one = refl

restarts-IsCalm : IsCalm restarts (idle none 0)
unfolding step
restarts-IsCalm = (λ q i. ground arith, tt)

-- The second of the two is refused.
refused_second : (run restarts (idle none 0)).stage 2 ≡ Stage.absent
unfolding run step
refused_second = refl

abbrev one : ℕ
one = 1

single_instance_example : one ≡ 1
single_instance_example =
    single_instance restarts none 0 one 1 1 1 runs_one runs_one (inr restarts-IsCalm)

-- Instance 1 runs, and 2 has opened its file.
abbrev overlapping : System
overlapping = record {
  entry = some 0;
  next = 1;
  owner = λ i. if i == 0 then some 1 else none;
  stage = λ p. if p == 1 then Stage.running 0 else if p == 2 then Stage.opened 0 else Stage.absent;
}

abbrev second : ℕ
second = 2

abbrev third : ℕ
third = 3

removal_admits_two_example :
    let after = run (overtaken 1 second third) overlapping in
    (after.stage second ≡ Stage.running 0)
    × (after.stage third ≡ Stage.running 1)
    × (second ≢ third)
removal_admits_two_example =
    removal_admits_two 1 2 3 0 overlapping refl refl refl refl (λ e. ground arith)
