-- ===== src/Tests/Readings.antt =====
-- The operations that other tests do not run: pkg/framework/load.go, grace.go, podcaps.go, exec.go and
-- server.go, and pkg/chaos/chaos.go.
use nfs_verification.Chaos.Kills.{unmanaged, delete_server_pod, kill_event}
use nfs_verification.Chaos.Pods.{Pod, Target, pending, is_discovered}
use nfs_verification.Clock.{Time, seconds, sub_time}
use nfs_verification.Grace.Observations.{GraceWindow, firmly_contains, zero_time}
use nfs_verification.Grace.Streams.{parse_log_stream}
use nfs_verification.Load.{Stall, stall_duration}
use nfs_verification.PodCaps.Processes.{
  recreated, status_name, same_process_name, stale_capability_record,
}
use nfs_verification.PodCaps.Reading.{
  caps_of, caps_error, no_capability_lines, no_caps, parse_proc_status,
}
use nfs_verification.Prelude.{◌≡◌, refl, true, false, [], ◌∷◌, Option, none, some, pos, ◌-ℤ◌, ◌+ℤ◌}
use nfs_verification.Shell.{not_subdomain, check_object_name}
use nfs_verification.Text.{Text, codes, split_by, trim_right, to_lower}

abbrev half_minute : GraceWindow
half_minute = record { start = seconds 10; end = seconds 40 }

firmly_run : firmly_contains half_minute (seconds 20) (seconds 5) ≡ true
unfolding firmly_contains ◌+ℤ◌ ◌-ℤ◌
firmly_run = refl

near_the_end_run : firmly_contains half_minute (seconds 36) (seconds 5) ≡ false
unfolding firmly_contains ◌+ℤ◌ ◌-ℤ◌
near_the_end_run = refl

-- Every stamp is second 7 here.
abbrev parse_time : Text → Option Time
parse_time stamp = some (seconds 7)

stream_run :
    parse_log_stream parse_time (codes "2026 in grace\r\n\nbare\n") (codes "srv") (seconds 7)
    ≡ record { at = seconds 7; text = codes "in grace"; source = codes "srv" }
      ∷ record { at = zero_time; text = codes "bare"; source = codes "srv" }
      ∷ []
unfolding parse_log_stream split_by trim_right ◌-ℤ◌
stream_run = refl

status_run :
    parse_proc_status (codes "Name:\tganesha\nCapPrm:\t0000000000000003\n")
    ≡ caps_of (record no_caps { permitted = 3 })
unfolding parse_proc_status split_by
status_run = refl

no_status_run : parse_proc_status (codes "Name:\tganesha\n") ≡ caps_error no_capability_lines
unfolding parse_proc_status split_by
no_status_run = refl

name_run : status_name (codes "Name:\tganesha.nfsd" ∷ []) ≡ codes "ganesha.nfsd"
unfolding status_name
name_run = refl

same_name_run : same_process_name (codes "nfs-provisioner") (codes "nfs-provisioner-2") ≡ true
unfolding same_process_name
same_name_run = refl

stale_run : stale_capability_record (codes "u1") (codes "u2") ≡ some recreated
unfolding stale_capability_record
stale_run = refl

object_run : check_object_name (codes "nfsv-data-01.a") ≡ none
unfolding check_object_name
object_run = refl

bad_object_run : check_object_name (codes "nfsv--.a") ≡ some not_subdomain
unfolding check_object_name
bad_object_run = refl

abbrev aimed : Target
aimed = record {
  namespace = codes "nfs";
  pod = codes "srv-1";
  uid = codes "u1";
  node = codes "node-1";
  controller = [];
  images = [];
}

unmanaged_run :
    delete_server_pod true aimed ≡ record { outcome = unmanaged; requested = false; fault = none }
unfolding delete_server_pod
unmanaged_run = refl

abbrev pending_pod : Pod
pending_pod = record {
  namespace = codes "nfs";
  name = codes "srv-1";
  uid = codes "u1";
  node = [];
  deleting = false;
  phase = pending;
  owners = [];
  images = [];
  readiness = [];
}

discovered_run : is_discovered pending_pod ≡ true
unfolding is_discovered
discovered_run = refl

abbrev silence : Stall
silence = record {
  last = record { index = pos 1; is_ok = true; at = seconds 3 };
  resumed = record { index = pos 2; is_ok = true; at = seconds 20 };
}

silence_run : stall_duration silence ≡ seconds 17
unfolding stall_duration sub_time ◌-ℤ◌
silence_run = refl

event_run :
    kill_event aimed (codes "KILL")
    ≡ record { action = codes "kill-kill"; fault_target = codes "node-1/srv-1" }
unfolding kill_event to_lower
event_run = refl
