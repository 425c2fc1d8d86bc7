-- ===== src/Presence/Lock/Exclusion.antt =====
-- When `PidFileLock` of crates/syauth-presenced/src/lock.rs lets one instance run, and when two.
use desk_unlock.Prelude.{
  ℕ, ◌≡◌, ◌≢◌, ◌⊎◌, refl, ap, arith, Bool, true, Option, none, some, List, [], ◌∷◌, inl, inr,
}
use desk_unlock.Presence.Lock.{Stage, System, Call, released, act, step, run}

-- The file that an instance has locked.
abbrev holds : Stage → Option ℕ
holds (Stage.locked i) = some i
holds (Stage.running i) = some i
holds (Stage.leaving i) = some i
holds _ = none

-- A lock is owned by the instance that has it.
abbrev IsOwned : System → Type 0
IsOwned s = (p i : ℕ) → holds (s.stage p) ≡ some i → s.owner i ≡ some p

released-IsOwned :
    (p i : ℕ) (s : System) → s.owner i ≡ some p → IsOwned s → IsOwned (released p i s)
released-IsOwned p i s o h q j e = ground (arith, h q j)

act-IsOwned :
    (p : ℕ) (c : Call) (st : Stage) (s : System)
    → s.stage p ≡ st
    → IsOwned s
    → IsOwned (act p c st s)
act-IsOwned p c st s e h q j k = ground (arith, h q j, h p j)

run-IsOwned : (cs : List (ℕ × Call)) (s : System) → IsOwned s → IsOwned (run cs s)
unfolding run step
run-IsOwned [] s h = h
run-IsOwned ((p, c) ∷ cs) s h =
    run-IsOwned cs (act p c (s.stage p) s) (act-IsOwned p c (s.stage p) s refl h)

-- The file that an instance uses and has not removed.
abbrev uses : Stage → Option ℕ
uses (Stage.opened i) = some i
uses (Stage.locked i) = some i
uses (Stage.running i) = some i
uses _ = none

-- The path names the file that each instance uses.
abbrev IsNamed : System → Type 0
IsNamed s = (p i : ℕ) → uses (s.stage p) ≡ some i → s.entry ≡ some i

-- No instance stands between its opening and its locking.
abbrev NobodyWaits : System → Type 0
NobodyWaits s = (q i : ℕ) → s.stage q ≢ Stage.opened i

-- Nobody waits whenever an instance removes the file.
abbrev pub IsCalm : List (ℕ × Call) → System → Type 0
IsCalm [] s = Unit {0}
IsCalm ((p, Call.removes works) ∷ cs) s = NobodyWaits s × IsCalm cs (step p (Call.removes works) s)
IsCalm ((p, Call.opens works) ∷ cs) s = IsCalm cs (step p (Call.opens works) s)
IsCalm ((p, Call.locks works) ∷ cs) s = IsCalm cs (step p (Call.locks works) s)
IsCalm ((p, Call.writes works) ∷ cs) s = IsCalm cs (step p (Call.writes works) s)
IsCalm ((p, Call.closes) ∷ cs) s = IsCalm cs (step p Call.closes s)
IsCalm ((p, Call.crashes) ∷ cs) s = IsCalm cs (step p Call.crashes s)

IsCalm-step :
    (p : ℕ) (c : Call) (cs : List (ℕ × Call)) (s : System)
    → IsCalm ((p, c) ∷ cs) s
    → ((works : Bool) → c ≡ Call.removes works → NobodyWaits s) × IsCalm cs (step p c s)
IsCalm-step p (Call.removes works) cs s h = (λ w e. h.0, h.1)
IsCalm-step p (Call.opens works) cs s h = (λ w e. absurd (ground arith), h)
IsCalm-step p (Call.locks works) cs s h = (λ w e. absurd (ground arith), h)
IsCalm-step p (Call.writes works) cs s h = (λ w e. absurd (ground arith), h)
IsCalm-step p Call.closes cs s h = (λ w e. absurd (ground arith), h)
IsCalm-step p Call.crashes cs s h = (λ w e. absurd (ground arith), h)

act-removes :
    (p : ℕ) (works : Bool) (st : Stage) (s : System)
    → s.stage p ≡ st
    → IsOwned s
    → NobodyWaits s
    → IsNamed s
    → IsNamed (act p (Call.removes works) st s)
act-removes p works (Stage.running i) s e o calm h q j k =
    ground (arith, h q j, h p i, calm q j, o q j, o p i)
act-removes p works Stage.absent s e o calm h q j k = h q j k
act-removes p works (Stage.opened i) s e o calm h q j k = h q j k
act-removes p works (Stage.locked i) s e o calm h q j k = h q j k
act-removes p works (Stage.leaving i) s e o calm h q j k = h q j k

act-IsNamed :
    (p : ℕ) (c : Call) (s : System)
    → IsOwned s
    → ((works : Bool) → c ≡ Call.removes works → NobodyWaits s)
    → IsNamed s
    → IsNamed (act p c (s.stage p) s)
act-IsNamed p (Call.removes works) s o calm h q j k =
    act-removes p works (s.stage p) s refl o (calm works refl) h q j k
act-IsNamed p (Call.opens works) s o calm h q j k = ground (arith, h q j)
act-IsNamed p (Call.locks works) s o calm h q j k = ground (arith, h q j, h p j)
act-IsNamed p (Call.writes works) s o calm h q j k = ground (arith, h q j, h p j)
act-IsNamed p Call.closes s o calm h q j k = ground (arith, h q j)
act-IsNamed p Call.crashes s o calm h q j k = ground (arith, h q j)

run-IsNamed :
    (cs : List (ℕ × Call)) (s : System)
    → IsCalm cs s
    → IsOwned s
    → IsNamed s
    → IsOwned (run cs s) × IsNamed (run cs s)
unfolding run step
run-IsNamed [] s calm o h = (o, h)
run-IsNamed ((p, c) ∷ cs) s calm o h =
    let (here, later) = IsCalm-step p c cs s calm in
    let s' = act p c (s.stage p) s in
    run-IsNamed cs s' later (act-IsOwned p c (s.stage p) s refl o) (act-IsNamed p c s o here h)

-- Before any instance is started; a file may be left from one that crashed.
abbrev pub idle : Option ℕ → ℕ → System
idle entry next = record {
  entry = entry;
  next = next;
  owner = λ _. none;
  stage = λ _. Stage.absent;
}

-- From a system without instances, with or without a file left over, two instances that run have locked
-- different files, in whatever order the calls come, fail and crash. If no instance stands between
-- opening and locking the file whenever another removes it, no two instances run.
pub single_instance :
    (cs : List (ℕ × Call)) (entry : Option ℕ) (next p q i j : ℕ)
    → (run cs (idle entry next)).stage p ≡ Stage.running i
    → (run cs (idle entry next)).stage q ≡ Stage.running j
    → ((i ≡ j) ⊎ IsCalm cs (idle entry next))
    → p ≡ q
single_instance cs entry next p q i j hp hq c =
    let s = run cs (idle entry next) in
    let start : IsOwned (idle entry next) = λ r k e. ground arith in
    let owned = run-IsOwned cs (idle entry next) start in
    let one : i ≡ j → p ≡ q =
      λ same. ground (arith, owned p i (ap holds hp), owned q j (ap holds hq)) in
    elim c [
      | inl same ↦ one same
      | inr calm ↦
          let named = (run-IsNamed cs (idle entry next) calm start (λ r k e. ground arith)).1 in
          one (ground (arith, named p i (ap uses hp), named q j (ap uses hq)))
    ]

-- The shutdown of `p`, and the starts of `q`, which has opened the file already, and of `r`.
abbrev pub overtaken : ℕ → ℕ → ℕ → List (ℕ × Call)
overtaken p q r =
    (p, Call.removes true)
    ∷ (p, Call.closes)
    ∷ (q, Call.locks true)
    ∷ (q, Call.writes true)
    ∷ (r, Call.opens true)
    ∷ (r, Call.locks true)
    ∷ (r, Call.writes true)
    ∷ []

-- Where one instance runs, a second one has opened its file and a third has not started, the calls of a
-- shutdown of the first and of two starts can come in an order that leaves both others running: the
-- second locks the file that the first has removed, and the third a new one.
pub removal_admits_two :
    (p q r i : ℕ) (s : System)
    → s.stage p ≡ Stage.running i
    → s.stage q ≡ Stage.opened i
    → s.stage r ≡ Stage.absent
    → s.owner s.next ≡ none
    → i ≢ s.next
    → let after = run (overtaken p q r) s in
      (after.stage q ≡ Stage.running i) × (after.stage r ≡ Stage.running s.next) × (q ≢ r)
unfolding run step
removal_admits_two p q r i s hp hq hr free fresh = (ground arith, ground arith, λ e. ground arith)
