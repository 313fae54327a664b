-- ===== src/Locks.antt =====
-- pkg/framework/locks.go and the holders of locktool.go: a lock held by a process in a pod, seen from
-- outside through its state file.
pub mod Waits
pub mod Mounts
pub mod Table
use nfs_verification.Clock.{Duration}
use nfs_verification.Grace.Observations.{GraceWindow, firmly_contains}
use nfs_verification.Load.{LoadReport, LoadRecord}
use nfs_verification.LockTool.{LockRange, lock_tool_cmd}
use nfs_verification.Poll.{Wake, Round, Ended, ok, poll}
use nfs_verification.Prelude.{
  Bool, true, false, not, ◌&&◌, List, [], ◌∷◌, ◌++◌, map, Option, none, some, if◌then◌else◌,
  keep_if,
}
use nfs_verification.Shell.{ExecResult, check_script_id, shell_quote}
use nfs_verification.Text.{Text, codes, eq_text, trim_space, contains}

-- The two files of a holder or a probe, by its id.
unfoldable pub state_path : Text → Text
state_path id = codes "/tmp/lock-" ++ id ++ codes ".state"

unfoldable pub run_path : Text → Text
run_path id = codes "/tmp/lock-" ++ id ++ codes ".run"

unfoldable pub read_state_line : Text → Text
read_state_line path = codes "cat " ++ shell_quote path ++ codes " 2>/dev/null || true"

-- `State`; `none` is an error.
unfoldable pub state_of : ExecResult → Option Text
state_of r = if r.failed then none else some (trim_space r.stdout)

-- The errors of the function that `awaitHeld` polls.
pub data NotHeld : Type 0 where
  unread : NotHeld
  acquisition_failed : NotHeld
  reports : Text → NotHeld

held_of : Option Text → Wake → Round NotHeld
held_of none w = record { is_done = false; err = some unread; wake = w }
held_of (some s) w =
    if eq_text s (codes "failed")
    then record { is_done = false; err = some acquisition_failed; wake = w }
    else record { is_done = eq_text s (codes "held"); err = some (reports s); wake = w }

pub held_round : ExecResult × Wake → Round NotHeld
unfolding held_of state_of
held_round (r, w) = held_of (state_of r) w

-- `awaitHeld`, on what the reads of the state file returned.
unfoldable pub await_held : List (ExecResult × Wake) → Option (Ended NotHeld)
unfolding held_round
await_held reads = poll (map held_round reads)

-- How `HoldLock` ends.
pub data Held : Type 0 where
  bad_id not_installed launch_failed : Held
  not_confirmed : Ended NotHeld → Held
  confirmed : Held

confirm : Ended NotHeld → Held
confirm ok = confirmed
confirm e = not_confirmed e

await_confirmed : Option (Ended NotHeld) → Option Held
unfolding confirm
await_confirmed none = none
await_confirmed (some e) = some (confirm e)

-- `HoldLock`, over what `EnsureLockTool` returned, the pod's shell and the reads of the state file.
unfoldable pub hold_lock :
    Bool → (Text → ExecResult) → List (ExecResult × Wake) → Text → Text → LockRange → Option Held
unfolding await_confirmed state_path run_path
hold_lock installed sh reads path id r =
    if not (check_script_id id)
    then some bad_id
    else if not installed
    then some not_installed
    else if (sh (lock_tool_cmd (codes "hold") path r (run_path id ∷ (state_path id ∷ [])))).failed
    then some launch_failed
    else await_confirmed (await_held reads)

-- `GrantsWithin`.
unfoldable pub grants_within : LoadReport → GraceWindow → Duration → List LoadRecord
grants_within rep w guard = keep_if (λ r. r.is_ok && firmly_contains w r.at guard) rep.records

pub data Flocked : Type 0 where
  granted refused : Text → Flocked
  failed : Flocked

-- `TryFlock`, on what the exec returned: `granted` and `refused` are its two answers without an error.
unfoldable pub try_flock : ExecResult → Flocked
try_flock r =
    let out = trim_space (r.stdout ++ r.stderr) in
    if contains out (codes "GRANTED")
    then granted out
    else if contains out (codes "REFUSED")
    then refused out
    else failed
