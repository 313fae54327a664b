-- ===== src/Tests/Holds.antt =====
-- pkg/framework/locks.go, lockmount.go and nodeagent.go on concrete reads of pods and nodes.
use nfs_verification.Clock.{seconds}
use nfs_verification.Grace.Observations.{GraceWindow, firmly_contains}
use nfs_verification.Load.{LoadReport}
use nfs_verification.LockTool.{LockRange}
use nfs_verification.Locks.Mounts.{
  MountLine, posix_lock, has_option, option_value, check_lock_mount,
}
use nfs_verification.Locks.Table.Covers.{HasMode, SameBytes, covers_iff}
use nfs_verification.Locks.Table.Lines.Reading.{parse_proc_locks-unlines}
use nfs_verification.Locks.Table.Lines.{kernel_line, IsPrinted}
use nfs_verification.Locks.Table.{
  ProcLock, FileId, covers, show_file_id, known_file, parse_proc_locks, device_from_stat_dev,
}
use nfs_verification.Locks.Waits.{await_held-failed}
use nfs_verification.Locks.{
  acquisition_failed, await_held, bad_id, launch_failed, hold_lock, grants_within, granted, failed,
  try_flock, read_state_line, state_of, state_path, run_path,
}
use nfs_verification.PodCaps.Processes.{hex}
use nfs_verification.Poll.{tick, deadline, timed_out}
use nfs_verification.Prelude.{
  ◌≡◌, ◌↔◌, ◌⊎◌, inl, inr, refl, true, false, [], ◌∷◌, ◌++◌, map, none, some, pos, negsuc, ◌+ℤ◌,
  ◌-ℤ◌, arith,
}
use nfs_verification.Shell.{ExecResult, check_script_id, shell_quote}
use nfs_verification.Text.Number.{itoa, show_ℕ}
use nfs_verification.Text.Words.{unlines}
use nfs_verification.Text.{
  Text, codes, split_by, trim_space, contains, fields, has_prefix, trim_prefix, eq_text, cut,
  is_space, join,
}

abbrev said : Text → ExecResult
said out = record { stdout = out; stderr = []; exit_code = pos 0; failed = false }

abbrev no_exec : ExecResult
no_exec = record { stdout = []; stderr = []; exit_code = pos 1; failed = true }

says_failed : state_of (said (codes "failed\n")) ≡ some (codes "failed")
unfolding state_of trim_space
says_failed = refl

await_held-failed_example :
    (await_held ((said (codes "failed\n"), tick) ∷ []) ≡ none)
    × (await_held ((said (codes "failed\n"), tick) ∷ (said (codes "failed\n"), deadline) ∷ [])
        ≡ some (timed_out (some acquisition_failed)))
await_held-failed_example =
    await_held-failed ((said (codes "failed\n"), tick) ∷ []) (said (codes "failed\n"))
      ((says_failed, refl), tt) says_failed

abbrev whole : LockRange
whole = record { start = pos 0; len = pos 0; mode = codes "write" }

bad_id_run : hold_lock true said [] (codes "/data/f") (codes "../x") whole ≡ some bad_id
unfolding hold_lock check_script_id
bad_id_run = refl

launch_run :
    hold_lock true (λ line. no_exec) [] (codes "/data/f") (codes "a") whole ≡ some launch_failed
unfolding hold_lock check_script_id
launch_run = refl

state_line_run :
    read_state_line (state_path (codes "a"))
    ≡ codes "cat " ++ shell_quote (codes "/tmp/lock-a.state") ++ codes " 2>/dev/null || true"
unfolding read_state_line state_path
state_line_run = refl

run_path_run : run_path (codes "a") ≡ codes "/tmp/lock-a.run"
unfolding run_path
run_path_run = refl

flock_run : try_flock (said (codes "GRANTED\n")) ≡ granted (codes "GRANTED")
unfolding try_flock trim_space contains
flock_run = refl

no_flock_run : try_flock no_exec ≡ failed
unfolding try_flock trim_space contains
no_flock_run = refl

abbrev probe_log : LoadReport
probe_log = record {
  records =
      record { index = pos 0; is_ok = true; at = seconds 12 }
      ∷ record { index = pos 1; is_ok = true; at = seconds 20 }
      ∷ record { index = pos 2; is_ok = false; at = seconds 21 }
      ∷ [];
  unparsed = [];
}

abbrev half_minute : GraceWindow
half_minute = record { start = seconds 10; end = seconds 40 }

grants_run :
    grants_within probe_log half_minute (seconds 5)
    ≡ record { index = pos 1; is_ok = true; at = seconds 20 } ∷ []
unfolding grants_within firmly_contains ◌+ℤ◌ ◌-ℤ◌
grants_run = refl

abbrev mounts_text : Text
mounts_text =
    codes
      "srv:/export /var/lib/pods/pvc-1/mount nfs4 rw,vers=4.1,local_lock=posix 0 0\nproc /proc\n"

abbrev nfs_mount : MountLine
nfs_mount = record {
  device = codes "srv:/export";
  mount_point = codes "/var/lib/pods/pvc-1/mount";
  fs_type = codes "nfs4";
  options = codes "rw,vers=4.1,local_lock=posix";
}

has_option_run : has_option nfs_mount (codes "rw") ≡ true
unfolding has_option split_by
has_option_run = refl

option_value_run : option_value nfs_mount (codes "vers") ≡ some (codes "4.1")
unfolding option_value split_by cut eq_text
option_value_run = refl

lock_mount_run :
    check_lock_mount (codes "n1") (some mounts_text) (codes "pvc-1") posix_lock
    ≡ some (record {
      node = codes "n1";
      line = nfs_mount;
      kind = posix_lock;
      local_option = some (codes "local_lock=posix");
    })
unfolding check_lock_mount split_by fields has_prefix trim_prefix eq_text
lock_mount_run = refl

other_volume_run :
    check_lock_mount (codes "n1") (some mounts_text) (codes "pvc-10") posix_lock ≡ none
unfolding check_lock_mount split_by fields has_prefix trim_prefix eq_text
other_volume_run = refl

abbrev listed : ProcLock
listed = record {
  kind = codes "POSIX";
  enforcement = codes "ADVISORY";
  mode = codes "WRITE";
  pid = pos 4821;
  device = codes "08:01";
  inode = pos 77;
  start = pos 0;
  end = pos 9;
  ends_at_eof = false;
  waiting = false;
}

abbrev waiter : ProcLock
waiter = record listed { waiting = true; end = pos 0; ends_at_eof = true }

abbrev target : FileId
target = record { device = codes "08:01"; inode = pos 77 }

abbrev ten_bytes : LockRange
ten_bytes = record { start = pos 0; len = pos 10; mode = codes "write" }

covers_iff_example : (covers listed target ten_bytes ≡ true) ↔ (
    (listed.kind ≡ codes "POSIX")
    × (listed.waiting ≡ false)
    × (listed.inode ≡ target.inode)
    × ((target.device ≡ []) ⊎ (listed.device ≡ target.device))
    × HasMode listed.mode ten_bytes.mode
    × SameBytes listed ten_bytes)
unfolding ◌+ℤ◌
covers_iff_example = covers_iff listed target ten_bytes (omega arith) (omega arith) (omega arith)

file_id_run : show_file_id target ≡ codes "08:01:77"
unfolding show_file_id itoa
file_id_run = refl

known_file_run : known_file target ≡ true
unfolding known_file
known_file_run = refl

device_run : device_from_stat_dev 2049 ≡ codes "08:01"
unfolding device_from_stat_dev hex
device_run = refl

listed-IsPrinted : IsPrinted listed
unfolding is_space eq_text
listed-IsPrinted = record {
  kind = ((λ e. cc), (refl, (refl, (refl, (refl, (refl, tt))))));
  not_arrow = refl;
  enforcement = ((λ e. cc), (refl, (refl, (refl, (refl, (refl, (refl, (refl, (refl, tt)))))))));
  mode = ((λ e. cc), (refl, (refl, (refl, (refl, (refl, tt))))));
  device = ((λ e. cc), (refl, (refl, (refl, (refl, (refl, tt))))));
  pid_fits = (omega arith, omega arith);
  inode_fits = (omega arith, omega arith);
  start_fits = (omega arith, omega arith);
  end_fits = (omega arith, omega arith);
  end_of_file = inl refl;
}

waiter-IsPrinted : IsPrinted waiter
waiter-IsPrinted = record {
  kind = listed-IsPrinted.kind;
  not_arrow = listed-IsPrinted.not_arrow;
  enforcement = listed-IsPrinted.enforcement;
  mode = listed-IsPrinted.mode;
  device = listed-IsPrinted.device;
  pid_fits = listed-IsPrinted.pid_fits;
  inode_fits = listed-IsPrinted.inode_fits;
  start_fits = listed-IsPrinted.start_fits;
  end_fits = (omega arith, omega arith);
  end_of_file = inr refl;
}

-- `3: OFDLCK ADVISORY  READ  -1 00:2f:14 8192 16383`, as in lockmount_test.go.
abbrev ofd : ProcLock
ofd = record {
  kind = codes "OFDLCK";
  enforcement = codes "ADVISORY";
  mode = codes "READ";
  pid = negsuc 0;
  device = codes "00:2f";
  inode = pos 14;
  start = pos 8192;
  end = pos 16383;
  ends_at_eof = false;
  waiting = false;
}

ofd-IsPrinted : IsPrinted ofd
unfolding is_space eq_text
ofd-IsPrinted = record {
  kind = ((λ e. cc), (refl, (refl, (refl, (refl, (refl, (refl, tt)))))));
  not_arrow = refl;
  enforcement = ((λ e. cc), (refl, (refl, (refl, (refl, (refl, (refl, (refl, (refl, tt)))))))));
  mode = ((λ e. cc), (refl, (refl, (refl, (refl, tt)))));
  device = ((λ e. cc), (refl, (refl, (refl, (refl, (refl, tt))))));
  pid_fits = (omega arith, omega arith);
  inode_fits = (omega arith, omega arith);
  start_fits = (omega arith, omega arith);
  end_fits = (omega arith, omega arith);
  end_of_file = inl refl;
}

ofd_line : kernel_line (3, ofd) ≡ codes "3: OFDLCK ADVISORY  READ  -1 00:2f:14 8192 16383"
unfolding kernel_line show_ℕ itoa join
ofd_line = refl

posix_line : kernel_line (1, listed) ≡ codes "1: POSIX  ADVISORY  WRITE 4821 08:01:77 0 9"
unfolding kernel_line show_ℕ itoa join
posix_line = refl

parse_proc_locks-unlines_example :
    parse_proc_locks (unlines (map kernel_line ((1, listed) ∷ (1, waiter) ∷ (3, ofd) ∷ [])))
    ≡ listed ∷ waiter ∷ ofd ∷ []
parse_proc_locks-unlines_example =
    parse_proc_locks-unlines ((1, listed) ∷ (1, waiter) ∷ (3, ofd) ∷ [])
      (listed-IsPrinted, (waiter-IsPrinted, (ofd-IsPrinted, tt)))
