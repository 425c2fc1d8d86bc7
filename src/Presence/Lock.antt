-- ===== src/Presence/Lock.antt =====
-- `PidFileLock` of crates/syauth-presenced/src/lock.rs, which is to let one instance of the daemon run:
-- the calls that `acquire` and `drop` make, in the order in which several instances make them. A file
-- that the path names is a number, and the kernel's lock on it has an owner. `ensure_parent_dir` fails
-- with the opening that it prepares.
pub mod Exclusion
use desk_unlock.Prelude.{ℕ, ◌+◌, Bool, Option, none, some, List, [], ◌∷◌, if◌then◌else◌, set_at}

-- How far an instance has come: its file is open, is locked, has the PID written, and has been removed
-- but not closed.
pub data Stage : Type 0 where
  absent : Stage
  opened locked running leaving : ℕ → Stage

pub record System : Type 0 where
  pub entry : Option ℕ
  pub next : ℕ
  pub owner : ℕ → Option ℕ
  pub stage : ℕ → Stage

-- A call, and for one that can fail whether it works.
pub data Call : Type 0 where
  opens locks writes removes : Bool → Call
  closes crashes : Call

abbrev pub to_stage : ℕ → Stage → System → System
to_stage p st s = record s { stage = set_at p st s.stage }

-- The last descriptor of the file is closed, and with it the lock is gone.
abbrev pub released : ℕ → ℕ → System → System
released p i s = record (to_stage p Stage.absent s) { owner = set_at i none s.owner }

-- `open_pidfile`: the file that the path names, or a new one.
abbrev pub open_pidfile : ℕ → Option ℕ → System → System
open_pidfile p (some i) s = to_stage p (Stage.opened i) s
open_pidfile p none s = record (to_stage p (Stage.opened s.next) s) {
  entry = some s.next;
  next = s.next + 1;
}

-- `try_lock_exclusive`, which does not wait. An error closes the file.
abbrev pub try_lock_exclusive : ℕ → ℕ → Bool → Option ℕ → System → System
try_lock_exclusive p i works (some _) s = to_stage p Stage.absent s
try_lock_exclusive p i works none s =
    if works
    then record (to_stage p (Stage.locked i) s) { owner = set_at i (some p) s.owner }
    else to_stage p Stage.absent s

-- `fs::remove_file`, whose failure is ignored.
abbrev pub remove_file : Bool → System → System
remove_file works s = record s { entry = if works then none else s.entry }

-- A call of an instance at its stage; one that is not next for it is not made.
abbrev pub act : ℕ → Call → Stage → System → System
act p (Call.opens works) Stage.absent s = if works then open_pidfile p s.entry s else s
act p (Call.locks works) (Stage.opened i) s = try_lock_exclusive p i works (s.owner i) s
act p (Call.writes works) (Stage.locked i) s =
    if works then to_stage p (Stage.running i) s else released p i s
act p (Call.removes works) (Stage.running i) s = remove_file works (to_stage p (Stage.leaving i) s)
act p Call.closes (Stage.leaving i) s = released p i s
act p Call.crashes (Stage.opened i) s = to_stage p Stage.absent s
act p Call.crashes (Stage.locked i) s = released p i s
act p Call.crashes (Stage.running i) s = released p i s
act p Call.crashes (Stage.leaving i) s = released p i s
act p _ _ s = s

unfoldable pub step : ℕ → Call → System → System
step p c s = act p c (s.stage p) s

unfoldable pub run : List (ℕ × Call) → System → System
run [] s = s
run ((p, c) ∷ cs) s = run cs (step p c s)
