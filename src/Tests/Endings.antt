-- ===== src/Tests/Endings.antt =====
-- pkg/framework/framework.go, unmount.go and metrics.go: the end of a case, and the scrapes of a server.
use nfs_verification.Locks.Mounts.{MountLine, is_nfs, mount_point_holds}
use nfs_verification.Metrics.Endpoints.{
  ScrapedPod, by_annotation, metrics_endpoint_of, path_segments, Answer, body, no_answer, scraped,
  scrape_metrics,
}
use nfs_verification.Metrics.Exposition.{parse_exposition}
use nfs_verification.Metrics.Verdicts.Judging.{judged, verdict-classify_metrics}
use nfs_verification.Metrics.Verdicts.{
  MetricScrapes, absent, never_resumed, usable, classify_metrics,
}
use nfs_verification.Metrics.{MetricSet}
use nfs_verification.Poll.{Wake, tick, deadline, poll}
use nfs_verification.Prelude.{
  has, ◌≡◌, refl, Bool, true, false, not, ◌&&◌, List, [], ◌∷◌, Option, none, some, ℤ, pos, ltb_ℤ,
  if◌then◌else◌,
}
use nfs_verification.Teardown.Claims.{NoPodHolds, was_deleted, delete_case_objects-safe}
use nfs_verification.Teardown.Unmounts.Release.{
  SeenUnmounted, force_delete_pod-marks, delete_case_objects-force_delete_pod,
  await_unmount-SeenUnmounted,
}
use nfs_verification.Teardown.Unmounts.{Volume, NodeReads, await_unmount, force_delete_pod}
use nfs_verification.Teardown.{
  CasePod, ClaimsDone, mark_claim_unproven, is_unproven, delete_case_objects,
}
use nfs_verification.Text.Number.{parse_int}
use nfs_verification.Text.{Text, codes, eq_text, split_by, fields, has_prefix, trim_space, to_lower}

abbrev writer : CasePod
writer = record { name = codes "w"; node = codes "n1"; claims = codes "data" ∷ [] }

-- A listing with the pod, then the last one in time, with it too.
abbrev listings : List (Option (List CasePod) × Wake)
listings = (none, tick) ∷ (some (writer ∷ []), tick) ∷ (some (writer ∷ []), deadline) ∷ []

abbrev claim_names : Option (List Text)
claim_names = some (codes "data" ∷ codes "spare" ∷ [])

abbrev deletes : Text → Bool
deletes n = true

abbrev spare_deleted : ClaimsDone
spare_deleted = record {
  all_deleted = false;
  deleted = codes "spare" ∷ [];
  kept = codes "data" ∷ [];
  succeeded = false;
}

teardown_run :
    delete_case_objects true listings (codes "other" ∷ []) claim_names deletes true
    ≡ some spare_deleted
unfolding delete_case_objects eq_text
teardown_run = refl

spare_run : was_deleted (codes "spare") spare_deleted ≡ true
unfolding was_deleted eq_text
spare_run = refl

delete_case_objects-safe_example :
    (true ≡ true)
    × (has (eq_text (codes "spare")) (codes "other" ∷ []) ≡ false)
    × NoPodHolds (codes "spare") listings
delete_case_objects-safe_example =
    delete_case_objects-safe (codes "spare") true listings (codes "other" ∷ []) claim_names deletes
      true {d = spare_deleted} teardown_run spare_run

abbrev no_drivers : Text → Option Bool
no_drivers driver = none

abbrev in_tree : Volume
in_tree = record { name = codes "pv-1"; csi = none }

abbrev mount_at : Text → MountLine
mount_at point = record {
  device = codes "s:/e";
  mount_point = point;
  fs_type = codes "nfs4";
  options = codes "rw";
}

-- The volume is mounted, and then another is.
abbrev node_reads : NodeReads
node_reads = record {
  first_in_use = none;
  in_use = [];
  has_agent = true;
  mounts =
      (some (mount_at (codes "/v/pv-1/mount") ∷ []), tick)
      ∷ (some (mount_at (codes "/v/pv-10/mount") ∷ []), tick)
      ∷ [];
}

-- The deadline passes with the volume mounted.
abbrev stuck_reads : NodeReads
stuck_reads = record node_reads {
  mounts = (some (mount_at (codes "/v/pv-1/mount") ∷ []), deadline) ∷ [];
}

unmount_run : await_unmount no_drivers in_tree node_reads ≡ true
unfolding await_unmount poll eq_text split_by mount_point_holds is_nfs
unmount_run = refl

await_unmount-SeenUnmounted_example : SeenUnmounted no_drivers in_tree node_reads
await_unmount-SeenUnmounted_example =
    await_unmount-SeenUnmounted no_drivers in_tree node_reads unmount_run

stuck_run : await_unmount no_drivers in_tree stuck_reads ≡ false
unfolding await_unmount poll eq_text split_by mount_point_holds is_nfs
stuck_run = refl

force_delete_pod-marks_example :
    let r =
      force_delete_pod no_drivers
        (codes "spare")
        (record { node = some (codes "n1"); volume = some in_tree })
        true
        node_reads
        [] in
    (r.0 ≡ (true && await_unmount no_drivers in_tree node_reads))
    × (is_unproven (codes "spare") r.1 ≡ not (true && await_unmount no_drivers in_tree node_reads))
force_delete_pod-marks_example =
    force_delete_pod-marks no_drivers (codes "spare") (codes "n1") in_tree true node_reads [] refl

abbrev spared : ClaimsDone
spared = record {
  all_deleted = false;
  deleted = codes "spare" ∷ [];
  kept = codes "data" ∷ [];
  succeeded = false;
}

spared_run :
    delete_case_objects true
      ((some [], tick) ∷ [])
      (force_delete_pod no_drivers
        (codes "data")
        (record { node = some (codes "n1"); volume = some in_tree })
        true
        stuck_reads
        []).1
      claim_names
      deletes
      true
    ≡ some spared
unfolding delete_case_objects mark_claim_unproven force_delete_pod await_unmount poll eq_text
    split_by mount_point_holds is_nfs
spared_run = refl

delete_case_objects-force_delete_pod_example : was_deleted (codes "data") spared ≡ false
delete_case_objects-force_delete_pod_example =
    delete_case_objects-force_delete_pod no_drivers (codes "data") (codes "n1") in_tree stuck_reads
      [] true ((some [], tick) ∷ []) claim_names deletes true true {d = spared} refl stuck_run
      spared_run

abbrev quoted : Text → Text
quoted s = s

abbrev exposition : Text
exposition = codes "# TYPE up gauge\nup 1\nreq{code=\"200\"} 5\nbroken\n"

abbrev scraped_at : MetricSet ℤ
scraped_at = record {
  at = pos 0;
  endpoint = [];
  scheme = [];
  samples = (codes "req{code=200}", pos 5) ∷ (codes "up", pos 1) ∷ [];
  types = (codes "up", codes "gauge") ∷ [];
  lines = 3;
  unparsed = 1;
  excerpt = [];
}

exposition_run : parse_exposition quoted parse_int exposition ≡ scraped_at
unfolding parse_exposition parse_int split_by fields eq_text has_prefix trim_space to_lower
exposition_run = refl

abbrev annotated : ScrapedPod
annotated = record {
  namespace = codes "nfs";
  name = codes "srv";
  annotations = (codes "prometheus.io/port", codes "9100") ∷ [];
  containers = [];
}

endpoint_run :
    metrics_endpoint_of annotated
    ≡ some (record {
      namespace = codes "nfs";
      pod = codes "srv";
      port = pos 9100;
      path = codes "/metrics";
      scheme = [];
      via = by_annotation;
    })
unfolding metrics_endpoint_of parse_int eq_text trim_space to_lower
endpoint_run = refl

segments_run : path_segments (codes "/a//b") ≡ codes "a" ∷ codes "b" ∷ []
unfolding path_segments split_by
segments_run = refl

abbrev by_https : Text → Answer
by_https scheme =
    if eq_text scheme (codes "https") then body exposition else no_answer (codes "eof")

scrape_run :
    scrape_metrics
      (λ scheme raw. scraped_at)
      by_https
      (record {
        namespace = codes "nfs";
        pod = codes "srv";
        port = pos 9100;
        path = codes "/metrics";
        scheme = [];
        via = by_annotation;
      })
    ≡ scraped scraped_at
unfolding scrape_metrics eq_text
scrape_run = refl

abbrev scrapes : MetricScrapes ℤ
scrapes = record {
  idle = none;
  before = some scraped_at;
  after = some scraped_at;
  exercised = none;
}

verdict-classify_metrics_example :
    (classify_metrics ltb_ℤ scrapes).verdict ≡ elim (usable ltb_ℤ scrapes.before) [
      | none ↦ absent
      | some before ↦ elim (usable ltb_ℤ scrapes.after) [
        | none ↦ never_resumed
        | some after ↦ judged ltb_ℤ scrapes before after
      ]
    ]
verdict-classify_metrics_example = verdict-classify_metrics ltb_ℤ scrapes
