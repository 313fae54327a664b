-- ===== src/Tests/Faults.antt =====
-- pkg/chaos/chaos.go, pkg/framework/sweep.go and podcaps.go on a cluster with one server.
use nfs_verification.Chaos.Faults.{
  RecordedFor, Matches, HasReplacement, kill_server_process-signalled, server_replaced-Replaces,
}
use nfs_verification.Chaos.Targets.{
  SplitsAt, FirstOf, server_target-SplitsAt, resolve_process-recorded,
}
use nfs_verification.Chaos.Pods.{Pod, running, Target, target, target_of, server_target}
use nfs_verification.Chaos.Processes.{
  ServerInfo, process, resolve_process, choose_process, recorded_process, usable_as_pattern,
}
use nfs_verification.Chaos.Kills.{Agent, killed, kill_server_process, server_replaced}
use nfs_verification.PodCaps.Gaps.{is_held, is_stripped, is_dropped, cap_gaps_lem}
use nfs_verification.PodCaps.Masks.{cap_set_of-cap_masks_of}
use nfs_verification.PodCaps.Servers.{Agrees, HasPid, one_server_set-Agrees}
use nfs_verification.PodCaps.Sets.{CapSet, cap_gaps}
use nfs_verification.PodCaps.Reading.{no_caps}
use nfs_verification.PodCaps.Processes.{ProcessCaps, one_server_set, cap_masks_of, cap_set_of}
use nfs_verification.Shell.{ExecResult}
use nfs_verification.Prelude.{
  ℕ, ◌+◌, ◌≡◌, refl, Bool, true, false, List, [], ◌∷◌, map, none, some, if◌then◌else◌, arith, pos,
  keep_if, count_if, length, All, ◌==◌,
}
use nfs_verification.Shell.{run_script, script}
use nfs_verification.Sweep.Answers.{IsPrintable, result_line, verify_records-results}
use nfs_verification.Sweep.{
  correct, wrong, RecordResult, RecordSweep, short_sweep, sweep_args, verify_records,
}
use nfs_verification.Text.Number.{itoa}
use nfs_verification.Text.Words.{unlines}
use nfs_verification.Text.{Text, codes, is_empty}

abbrev pod_named : Text → Text → Bool → Pod
pod_named name uid deleting = record {
  namespace = codes "nfs";
  name = name;
  uid = uid;
  node = codes "node-1";
  deleting = deleting;
  phase = running;
  owners = record { kind = codes "StatefulSet"; name = codes "srv"; controls = true } ∷ [];
  images = codes "ganesha:1" ∷ [];
  readiness = true ∷ [];
}

-- A pod on its way out, and the one that is aimed at.
abbrev pods : List Pod
pods =
    pod_named (codes "srv-0") (codes "u0") true ∷ pod_named (codes "srv-1") (codes "u1") false ∷ []

abbrev aimed : Target
aimed = record {
  namespace = codes "nfs";
  pod = codes "srv-1";
  uid = codes "u1";
  node = codes "node-1";
  controller = codes "StatefulSet/srv";
  images = codes "ganesha:1" ∷ [];
}

server_target_run : server_target pods ≡ target aimed
unfolding server_target
server_target_run = refl

server_target-SplitsAt_example :
    (p : Pod) × SplitsAt pods (some p) × (aimed ≡ target_of p) × (is_empty aimed.node ≡ false)
server_target-SplitsAt_example = server_target-SplitsAt pods {t = aimed} server_target_run

abbrev recorded : List ServerInfo
recorded =
    record {
      namespace = codes "nfs";
      pod = codes "srv-1";
      images = codes "ganesha:1" ∷ [];
      process = codes "ganesha.nfsd";
      process_note = [];
    }
    ∷ []

-- One process matches anything on any node, and a signal reaches it.
abbrev agent : Agent
agent = ((λ node pattern. some (codes "7 ganesha.nfsd" ∷ [])), (λ node pattern signal. some 1))

resolve_run : resolve_process (some recorded) aimed ≡ process (codes "ganesha.nfsd")
unfolding resolve_process choose_process recorded_process usable_as_pattern
resolve_run = refl

resolve_process-recorded_example :
    (ss : List ServerInfo) × (s : ServerInfo) × (some recorded ≡ some ss)
    × FirstOf aimed ss s
    × (s.images ≡ aimed.images)
    × (s.process ≡ codes "ganesha.nfsd")
    × (usable_as_pattern (codes "ganesha.nfsd") ≡ true)
resolve_process-recorded_example =
    resolve_process-recorded (some recorded) aimed {name = codes "ganesha.nfsd"} resolve_run

signalled_run :
    (kill_server_process (some agent) (some recorded) aimed (codes "KILL")).signalled
    ≡ some (codes "ganesha.nfsd")
unfolding kill_server_process resolve_process choose_process recorded_process usable_as_pattern
signalled_run = refl

killed_run :
    (kill_server_process (some agent) (some recorded) aimed (codes "KILL")).outcome ≡ killed 1
unfolding kill_server_process resolve_process choose_process recorded_process usable_as_pattern
killed_run = refl

kill_server_process-signalled_example :
    (resolve_process (some recorded) aimed ≡ process (codes "ganesha.nfsd"))
    × RecordedFor (some recorded) aimed (codes "ganesha.nfsd")
    × (usable_as_pattern (codes "ganesha.nfsd") ≡ true)
    × Matches (some agent) aimed (codes "ganesha.nfsd")
kill_server_process-signalled_example =
    kill_server_process-signalled (some agent) (some recorded) aimed (codes "KILL")
      {s = codes "ganesha.nfsd"} signalled_run

abbrev replaced : List Pod
replaced =
    pod_named (codes "srv-1") (codes "u1") true ∷ pod_named (codes "srv-1") (codes "u2") false ∷ []

server_replaced-Replaces_example : HasReplacement aimed replaced
unfolding server_replaced
server_replaced-Replaces_example = server_replaced-Replaces aimed replaced refl

abbrev results : List RecordResult
results =
    record { index = pos 1; verdict = correct; offset = pos 0 }
    ∷ record { index = pos 2; verdict = wrong; offset = pos 512 }
    ∷ []

abbrev printed : Text
printed = unlines (map result_line results)

abbrev shell : Text → ExecResult
shell text = record { stdout = printed; stderr = []; exit_code = pos 0; failed = false }

abbrev body : Text → Text
body name = codes "#!/bin/sh\n"

abbrev sweep : RecordSweep
sweep = record { results = results; unparsed = []; raw = printed }

abbrev script_text : Text
script_text =
    codes
      "set -e\ncat > '/tmp/nfsv-sweep-verify-records.sh' <<'NFSV_SCRIPT_EOF'\n#!/bin/sh\nNFSV_SCRIPT_EOF\nsh '/tmp/nfsv-sweep-verify-records.sh' '/mnt' '4096' '/tmp/nfsv-sweep-expected' '1' '2'\n"

script_run :
    run_script body
      (codes "verify-records.sh")
      (codes "sweep")
      (sweep_args (codes "/mnt") (pos 1 ∷ pos 2 ∷ []))
    ≡ script script_text
unfolding run_script sweep_args itoa
script_run = refl

results-IsPrintable : All IsPrintable results
results-IsPrintable = (
  ((omega arith, omega arith), (omega arith, omega arith)),
  (((omega arith, omega arith), (omega arith, omega arith)), tt),
)

verify_records-results_example :
    verify_records body shell (codes "/mnt") (pos 1 ∷ pos 2 ∷ [])
    ≡ (sweep, if length results == length (pos 1 ∷ pos 2 ∷ []) then none else some short_sweep)
verify_records-results_example =
    verify_records-results body shell (codes "/mnt") (pos 1) (pos 2 ∷ []) script_text results
      script_run refl refl results-IsPrintable

sweep_run : verify_records body shell (codes "/mnt") (pos 1 ∷ pos 2 ∷ []) ≡ (sweep, none)
sweep_run =
    verify_records-results body shell (codes "/mnt") (pos 1) (pos 2 ∷ []) script_text results
      script_run refl refl results-IsPrintable

-- CAP_SYS_RESOURCE is bit 24, CAP_DAC_READ_SEARCH bit 2.
abbrev delivered : CapSet
delivered = record no_caps { permitted = 16777216 }

abbrev wanted : List Text
wanted = codes "SYS_RESOURCE" ∷ codes "CAP_DAC_READ_SEARCH" ∷ []

gaps_run :
    cap_gaps wanted delivered no_caps
    ≡ (codes "CAP_DAC_READ_SEARCH" ∷ [], codes "SYS_RESOURCE" ∷ [])
unfolding cap_gaps
gaps_run = refl

cap_gaps_lem_example :
    ((cap_gaps wanted delivered no_caps).0 ≡ keep_if (is_stripped delivered no_caps) wanted)
    × ((cap_gaps wanted delivered no_caps).1 ≡ keep_if (is_dropped delivered no_caps) wanted)
    × (count_if (is_held no_caps) wanted
          + (length (cap_gaps wanted delivered no_caps).0
              + length (cap_gaps wanted delivered no_caps).1)
        ≡ length wanted)
cap_gaps_lem_example = cap_gaps_lem wanted delivered no_caps

abbrev worker : ℕ → ProcessCaps
worker pid = record {
  pid = pos pid;
  node = codes "node-1";
  name = codes "ganesha.nfsd";
  container = codes "nfs";
  caps = delivered;
}

one_server_set-Agrees_example :
    All (Agrees (worker 7)) (worker 9 ∷ worker 7 ∷ []) × HasPid (pos 7) (worker 9 ∷ worker 7 ∷ [])
unfolding one_server_set
one_server_set-Agrees_example =
    one_server_set-Agrees (worker 9 ∷ worker 7 ∷ []) {out = worker 7} refl

cap_set_of-cap_masks_of_example : cap_set_of (cap_masks_of delivered) ≡ some delivered
cap_set_of-cap_masks_of_example =
    cap_set_of-cap_masks_of delivered
      (omega arith, omega arith, omega arith, omega arith, omega arith)
