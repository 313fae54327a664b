-- ===== src/Tests/Tools.antt =====
-- pkg/framework/locktool.go, locks.go and cmd/locktool/main.go on a pod whose kernel has at most one lock.
use nfs_verification.LockTool.Kernel.Answers.{told, NamesFit}
use nfs_verification.LockTool.Kernel.Calls.{IsLockRange, args_for, type_for, run_lock_tool-try}
use nfs_verification.LockTool.Kernel.{
  Flock, wrlck, Cmd, setlk, getlk, Reply, done, would_block, granted, refused, main, set_lock,
}
use nfs_verification.LockTool.Worker.Ending.{happens-ends}
use nfs_verification.LockTool.Worker.Holding.{FailedReport, happens-held}
use nfs_verification.LockTool.Worker.{
  Answers, complete, untouched, torn, LockEvent, step, release, happens, launched, exited, hold,
}
use nfs_verification.LockTool.{LockRange, write_range, read_range, run_lock_tool, lock_tool_path}
use nfs_verification.Prelude.{
  if◌then◌else◌, ◌≡◌, ◌⊎◌, inr, refl, Bool, true, false, List, [], ◌∷◌, map, Option, none, some,
  pos, arith,
}
use nfs_verification.Shell.Quoting.{read_words}
use nfs_verification.Shell.{ExecResult}
use nfs_verification.Text.{Text, codes, eq_text, trim_space}

abbrev no_output : ExecResult
no_output = record { stdout = []; stderr = []; exit_code = pos 2; failed = true }

-- The lock of another process on the first ten bytes.
abbrev other_lock : Flock
other_lock = record { typ = wrlck; start = pos 0; len = pos 10 }

-- The kernel's answer where another process has the lock, and where none has.
abbrev fcntl : Text → Cmd → Flock → Bool → Bool × Reply
fcntl path setlk lk true = (true, would_block)
fcntl path setlk lk false = (true, done lk)
fcntl path getlk lk k = (k, done other_lock)

abbrev open_target : Text → Bool → Bool × Bool
open_target path k = (k, true)

abbrev exits : Bool → Bool
exits k = k

abbrev holds : List Text → Bool → Bool × ExecResult
holds argv k = (k, no_output)

abbrev ran : Bool → Option (List Text) → ExecResult
ran k none = no_output
ran k (some []) = no_output
ran k (some (program ∷ argv)) =
    if eq_text program lock_tool_path
    then (main open_target fcntl exits holds (program ∷ argv) k).1
    else no_output

abbrev pod_shell : Bool → Text → ExecResult
pod_shell k line = ran k (read_words line)

abbrev ten_bytes : LockRange
ten_bytes = record { start = pos 0; len = pos 10; mode = codes "write" }

ten_bytes-IsLockRange : IsLockRange ten_bytes
ten_bytes-IsLockRange = record {
  starts = omega arith;
  start_fits = omega arith;
  lasts = omega arith;
  len_fits = omega arith;
  mode = inr refl;
}

refused_fits :
    NamesFit (set_lock fcntl (args_for (codes "/data/it's") ten_bytes) (type_for ten_bytes) true).1
unfolding set_lock
refused_fits = (omega arith, omega arith, omega arith, omega arith)

run_lock_tool-try_example :
    run_lock_tool true (pod_shell true) (codes "try") (codes "/data/it's") ten_bytes
    ≡ told (refused (some other_lock))
unfolding set_lock eq_text
run_lock_tool-try_example =
    run_lock_tool-try open_target fcntl exits holds (pod_shell true) true true (codes "/data/it's")
      ten_bytes (λ line argv e. rw e refl) ten_bytes-IsLockRange refl refused_fits

write_range_run : write_range (pos 0) (pos 10) ≡ ten_bytes
unfolding write_range
write_range_run = refl

read_range_run :
    read_range (pos 3) (pos 4) ≡ record { start = pos 3; len = pos 4; mode = codes "read" }
unfolding read_range
read_range_run = refl

abbrev well : Answers
well = record { opens = true; acquired = granted; unlocks = true; written = complete }

abbrev full_disk : Answers
full_disk = record { opens = true; acquired = granted; unlocks = false; written = torn 2 }

-- A worker that is refused once, and then gets its lock.
abbrev holding_run : List LockEvent
holding_run =
    step well
    ∷ step well
    ∷ step (record well { acquired = refused none })
    ∷ step well
    ∷ step well
    ∷ step well
    ∷ []

-- The run file goes between the test of it and the call that takes the lock.
abbrev late_run : List LockEvent
late_run = step well ∷ step well ∷ release ∷ []

happens-held_example :
    ((happens holding_run launched).locked ≡ true)
    ⊎ (((happens holding_run launched).at ≡ exited 2) × FailedReport holding_run)
unfolding happens trim_space
happens-held_example = happens-held holding_run refl refl

abbrev five_steps : List Answers
five_steps = well ∷ well ∷ well ∷ full_disk ∷ well ∷ []

happens-ends_example :
    (((happens (map step five_steps) (happens late_run launched)).at ≡ exited 0)
      ⊎ ((happens (map step five_steps) (happens late_run launched)).at ≡ exited 2))
    × ((happens (map step five_steps) (happens late_run launched)).locked ≡ false)
unfolding happens
happens-ends_example = happens-ends late_run five_steps refl (omega arith)

late_grant_run : (happens (step well ∷ []) (happens late_run launched)).locked ≡ true
unfolding happens
late_grant_run = refl

hold_run : hold complete untouched true ≡ (2, none)
unfolding hold
hold_run = refl

started_run : hold complete complete true ≡ (0, some launched)
unfolding hold
started_run = refl
