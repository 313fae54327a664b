-- ===== src/Tests/Logs.antt =====
-- pkg/framework/load.go, sweep.go, lostlocks.go and wait.go on concrete logs.
use nfs_verification.Clock.{seconds, unix, sub_time}
use nfs_verification.Load.Parse.{Attempt, attempt_line, record_for, parse_load_log-attempts}
use nfs_verification.Load.Stalls.{IsFirstStall, stall_after-IsFirstStall}
use nfs_verification.Load.{
  LoadRecord, LoadReport, parse_load_log, acknowledged, committed_before, Stall, stall_after,
}
use nfs_verification.LostLocks.Window.{returned_saying, reports_saying, new_lost_locks-counts}
use nfs_verification.LostLocks.{new_lost_locks, without_stamp}
use nfs_verification.Poll.Runs.{poll_ends, last_error_of}
use nfs_verification.Poll.{
  Round, tick, cancelled, deadline, ok, context_error, timed_out, poll, last_error,
}
use nfs_verification.Prelude.{
  ℕ, ◌-◌, ◌≡◌, refl, Bool, true, false, List, [], ◌∷◌, ◌++◌, map, none, some, arith, pos, ◌-ℤ◌,
  scale,
}
use nfs_verification.Text.Words.{unlines}
use nfs_verification.Text.{Text, codes, split, split_by, eq_text, trim_space}

abbrev record_at : ℕ → Bool → ℕ → LoadRecord
record_at i good secs = record { index = pos i; is_ok = good; at = unix (pos secs) }

-- A workload that writes once a second, fails at 4 and 5, and is silent from 3 to 20.
abbrev report : LoadReport
report = record {
  records =
      record_at 1 true 1
      ∷ record_at 2 true 2
      ∷ record_at 3 true 3
      ∷ record_at 4 false 4
      ∷ record_at 5 false 5
      ∷ record_at 6 true 20
      ∷ [];
  unparsed = [];
}

abbrev silence : Stall
silence = record { last = record_at 3 true 3; resumed = record_at 6 true 20 }

silence_found : stall_after report (unix (pos 2)) (seconds 10) ≡ some silence
unfolding stall_after unix sub_time ◌-ℤ◌ scale
silence_found = refl

silence_clamped : stall_after report (unix (pos 12)) (seconds 10) ≡ none
unfolding stall_after unix sub_time ◌-ℤ◌ scale
silence_clamped = refl

stall_after-IsFirstStall_example :
    IsFirstStall
      (unix (pos 2))
      (seconds 10)
      (acknowledged report)
      (stall_after report (unix (pos 2)) (seconds 10))
stall_after-IsFirstStall_example =
    stall_after-IsFirstStall report (unix (pos 2)) (seconds 10) (omega arith, omega arith)

committed_before_run : committed_before report (unix (pos 2)) ≡ pos 1 ∷ pos 2 ∷ []
unfolding committed_before unix scale
committed_before_run = refl

abbrev attempts : List Attempt
attempts =
    record { good = true; number = pos 1; secs = pos 1700000000 }
    ∷ record { good = false; number = pos 2; secs = pos 1700000001 }
    ∷ []

parse_load_log-attempts_example :
    parse_load_log (unlines (map attempt_line attempts))
    ≡ record { records = map record_for attempts; unparsed = [] }
parse_load_log-attempts_example = parse_load_log-attempts attempts (
  ((omega arith, omega arith), (omega arith, omega arith)),
  (((omega arith, omega arith), (omega arith, omega arith)), tt),
)

abbrev old_ring : Text
old_ring = codes "[1.5] NFS: srv: lost 2 locks\n"

-- The old report rendered with another stamp, and a second one in the same words.
abbrev new_ring : Text
new_ring = codes "[1.6] NFS: srv: lost 2 locks\n[9.0] NFS: srv: lost 2 locks\n"

abbrev wording : Text
wording = codes "NFS: srv: lost 2 locks"

new_report : returned_saying wording (new_lost_locks old_ring new_ring) ≡ 1
unfolding new_lost_locks without_stamp eq_text split_by
new_report = refl

new_lost_locks-counts_example :
    returned_saying wording (new_lost_locks old_ring new_ring)
    ≡ reports_saying wording (split b'\n' new_ring) - reports_saying wording (split b'\n' old_ring)
unfolding trim_space
new_lost_locks-counts_example = new_lost_locks-counts old_ring new_ring wording refl

abbrev failing : List (Round ℕ)
failing = record { is_done = false; err = some 7; wake = tick } ∷ []

poll_ends_example :
    (poll failing ≡ none)
    × (poll (failing ++ record { is_done = true; err = none; wake = tick } ∷ []) ≡ some ok)
    × (poll (failing ++ record { is_done = false; err = none; wake = cancelled } ∷ [])
        ≡ some context_error)
    × (poll (failing ++ record { is_done = false; err = none; wake = deadline } ∷ [])
        ≡ some (timed_out (last_error (last_error_of none failing) none)))
poll_ends_example = poll_ends failing none tick [] ((refl, refl), tt)
