-- ===== src/LockTool/Worker.antt =====
-- cmd/locktool/main.go, `hold` and `worker`: the detached process that takes a lock and keeps it until its
-- run file is gone. What the pod answers comes from outside, one answer for each step of the process.
pub mod Places
pub mod Holding
pub mod Ending
use nfs_verification.Prelude.{
  ℕ, zero, Bool, true, false, not, ◌||◌, List, [], ◌∷◌, Option, none, some, if◌then◌else◌, take, ℤ,
  pos,
}
use nfs_verification.Text.{Text, codes}
use nfs_verification.LockTool.Kernel.{Acquired, granted, refused, error}

-- Where the process stands: which call it makes next. `exited` carries the status.
pub data WorkerAt : Type 0 where
  opening checking acquiring reporting holding unlocking releasing failing : WorkerAt
  exited : ℕ → WorkerAt

-- The process and its files; `locked` is whether the pod's kernel counts the lock as the process's.
pub record LockWorker : Type 0 where
  pub at : WorkerAt
  pub run_file : Bool
  pub state_file : Text
  pub locked : Bool

-- How a call of `os.WriteFile` ends: as asked, with the file as it was, or with its first `n`
-- characters written.
pub data Written : Type 0 where
  complete untouched : Written
  torn : (n : ℕ) → Written

pub write_file : Written → Text → Text → Text
write_file complete old new = new
write_file untouched old new = old
write_file (torn n) old new = take n new

pub write_ok : Written → Bool
write_ok complete = true
write_ok _ = false

-- What the pod answers to the calls that a step may make.
pub record Answers : Type 0 where
  pub opens : Bool
  pub acquired : Acquired
  pub unlocks : Bool
  pub written : Written

-- `writeState`.
write_state : Written → Text → LockWorker → LockWorker
unfolding write_file
write_state w state h = record h { state_file = write_file w h.state_file state }

-- The end of the process, with which the kernel drops its lock.
exit_with : ℕ → LockWorker → LockWorker
exit_with code h = record h { at = exited code; locked = false }

acquire : Acquired → LockWorker → LockWorker
acquire granted h = record h { at = reporting; locked = true }
acquire (refused _) h = record h { at = checking }
acquire error h = record h { at = failing }

-- One step of `worker` from where it stands: one call, and with the last write the end. The run file may
-- go between the test of it and the call that takes the lock.
work_at : WorkerAt → Answers → LockWorker → LockWorker
unfolding acquire write_state exit_with write_ok
work_at opening a h = record h { at = if a.opens then checking else failing }
work_at checking a h = record h { at = if h.run_file then acquiring else releasing }
work_at acquiring a h = acquire a.acquired h
work_at reporting a h =
    let wrote = write_state a.written (codes "held\n") h in
    if write_ok a.written then record wrote { at = holding } else exit_with 2 wrote
work_at holding a h = if h.run_file then h else record h { at = unlocking }
work_at unlocking a h =
    if a.unlocks then record h { at = releasing; locked = false } else record h { at = failing }
work_at releasing a h = exit_with 0 (write_state a.written (codes "released\n") h)
work_at failing a h = exit_with 2 (write_state a.written (codes "failed\n") h)
work_at (exited code) a h = h

-- One step of `worker`.
unfoldable pub work : Answers → LockWorker → LockWorker
unfolding work_at
work a h = work_at h.at a h

-- What happens to a holder: a step of its own, or the run file goes (`Release`).
pub data LockEvent : Type 0 where
  step : Answers → LockEvent
  release : LockEvent

unfoldable pub happen : LockEvent → LockWorker → LockWorker
unfolding work
happen (step a) h = work a h
happen release h = record h { run_file = false }

unfoldable pub happens : List LockEvent → LockWorker → LockWorker
unfolding happen
happens [] h = h
happens (e ∷ es) h = happens es (happen e h)

-- The process that the first pass of `hold` starts.
abbrev pub launched : LockWorker
launched = record { at = opening; run_file = true; state_file = codes "waiting\n"; locked = false }

-- The first pass of `hold`: the state file, the run file, the second pass. A step that fails is the
-- last, and then no worker runs.
unfoldable pub hold : Written → Written → Bool → ℕ × Option LockWorker
unfolding write_ok
hold state run relaunched =
    if not (write_ok state) || not (write_ok run) || not relaunched
    then (2, none)
    else (0, some launched)
