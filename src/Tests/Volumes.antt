-- ===== src/Tests/Volumes.antt =====
-- pkg/framework/volumeusage.go, io.go, kubeletstats.go, ownership.go and dircensus.go on concrete output.
use nfs_verification.Census.Entries.{classify_entries}
use nfs_verification.Census.{OwnerCensus, same_ownership, parse_owner_census}
use nfs_verification.Clock.{seconds}
use nfs_verification.Holders.Picks.{path_base}
use nfs_verification.Locks.Table.{device_from_stat_dev}
use nfs_verification.Poll.{Wake, tick, deadline}
use nfs_verification.PodCaps.Processes.{hex}
use nfs_verification.Prelude.{
  ◌≡◌, refl, true, false, List, [], ◌∷◌, ◌++◌, none, some, ℤ, pos, ◌+ℤ◌, ◌-ℤ◌, ◌≤ℤ◌, sort_by, scale,
}
use nfs_verification.Slo.{clock_skew_guard}
use nfs_verification.Text.Number.{parse_int}
use nfs_verification.Text.{
  Text, codes, eq_text, split_by, fields, cut, trim_space, has_prefix, trim_prefix,
}
use nfs_verification.Usage.Kubelet.Fresh.{PublishedIn, fresh_kubelet_usage-PublishedIn}
use nfs_verification.Usage.Kubelet.{
  PodStats, SummaryRead, summary, failed_read, fresh_usage, fresh_kubelet_usage,
}
use nfs_verification.Usage.Output.{
  parse_sum, printed_count, file_identity, parse_owner, parse_stat_fs, parse_df, mount_capacity,
}
use nfs_verification.Usage.{
  VolumeUsage, pod_df, kubelet_summary, used_delta, matches_claim_capacity,
}

-- A share that does not depend on the capacity.
abbrev share : ℤ → ℤ
share n = pos 100

abbrev by_pod : VolumeUsage
by_pod = record {
  source = pod_df;
  claim = codes "data";
  capacity_bytes = pos 1000;
  used_bytes = pos 400;
  available_bytes = pos 600;
  at = seconds 100;
}

abbrev by_kubelet : VolumeUsage
by_kubelet = record by_pod { source = kubelet_summary; used_bytes = pos 450; at = seconds 99 }

used_delta_run : used_delta by_pod by_kubelet ≡ pos 50
unfolding used_delta ◌-ℤ◌
used_delta_run = refl

capacity_run : matches_claim_capacity share (pos 1200) (pos 1000) ≡ false
unfolding matches_claim_capacity ◌-ℤ◌
capacity_run = refl

abbrev published : PodStats
published = record {
  name = codes "writer";
  namespace = codes "nfs";
  volumes =
      record {
        time = seconds 99;
        available_bytes = some (pos 600);
        capacity_bytes = some (pos 1000);
        used_bytes = some (pos 450);
        pvc_ref = some (record { name = codes "data"; namespace = codes "nfs" });
      }
      ∷ [];
}

abbrev reads : List (SummaryRead × Wake)
reads = (failed_read, tick) ∷ (summary (published ∷ []), deadline) ∷ []

fresh_run :
    fresh_kubelet_usage (codes "nfs") (codes "writer") (codes "data") (seconds 100) reads
    ≡ some (fresh_usage by_kubelet)
unfolding fresh_kubelet_usage eq_text ◌+ℤ◌ ◌-ℤ◌
fresh_run = refl

fresh_kubelet_usage-PublishedIn_example :
    (pre : List (SummaryRead × Wake)) × (pods : List PodStats) × (wake : Wake) × (post : List
      (SummaryRead × Wake))
    × (reads ≡ pre ++ (summary pods, wake) ∷ post)
    × PublishedIn (codes "nfs") (codes "writer") (codes "data") pods by_kubelet
    × ((seconds 100 +ℤ (pos 0 -ℤ clock_skew_guard)) ≤ℤ by_kubelet.at)
fresh_kubelet_usage-PublishedIn_example =
    fresh_kubelet_usage-PublishedIn (codes "nfs") (codes "writer") (codes "data") (seconds 100)
      reads by_kubelet fresh_run

abbrev digest : Text
digest = codes "0123456789abcdef0123456789abcdef0123456789abcdef0123456789abcdef"

sum_run : parse_sum (digest ++ codes "  /data/f\n") ≡ some digest
unfolding parse_sum cut trim_space
sum_run = refl

no_sum_run : parse_sum (codes "sha256sum: /data/f: No such file\n") ≡ none
unfolding parse_sum cut trim_space
no_sum_run = refl

count_run : printed_count (codes "17\n") ≡ some (pos 17)
unfolding printed_count parse_int trim_space
count_run = refl

identity_run :
    file_identity (codes "77 2049\n") ≡ some (record { device = codes "08:01"; inode = pos 77 })
unfolding file_identity parse_int device_from_stat_dev hex fields
identity_run = refl

owner_run :
    parse_owner (codes "1000|100|UNKNOWN|users\n")
    ≡ some (record { uid = pos 1000; gid = pos 100; user = codes "UNKNOWN"; group = codes "users" })
unfolding parse_owner parse_int split_by trim_space
owner_run = refl

stat_run :
    parse_stat_fs (codes "10 4 4096\n")
    ≡ some (record { total_bytes = pos 40960; avail_bytes = pos 16384 })
unfolding parse_stat_fs fields parse_int scale
stat_run = refl

df_run :
    mount_capacity
      (some (codes "UNKNOWN 4 0"))
      (some (codes "Filesystem 1K used avail\nsrv 10 6 4 60% /d\n"))
    ≡ some (record { total_bytes = pos 10240; avail_bytes = pos 4096 })
unfolding mount_capacity parse_int scale parse_stat_fs parse_df fields split_by trim_space
df_run = refl

abbrev census_text : Text
census_text = codes "TOTAL 5\n2 1000:100\n3 0:0\n"

census_run :
    parse_owner_census census_text
    ≡ some (record {
      total = pos 5;
      counts =
          record { uid = pos 0; gid = pos 0; files = pos 3 }
          ∷ record { uid = pos 1000; gid = pos 100; files = pos 2 }
          ∷ [];
      raw = census_text;
    })
unfolding parse_owner_census parse_int fields split_by cut eq_text sort_by ◌+ℤ◌
census_run = refl

short_census_run : parse_owner_census (codes "TOTAL 6\n2 1000:100\n3 0:0\n") ≡ none
unfolding parse_owner_census parse_int fields split_by cut eq_text sort_by ◌+ℤ◌
short_census_run = refl

abbrev one_owner : ℤ → OwnerCensus
one_owner n = record {
  total = n;
  counts = record { uid = pos 0; gid = pos 0; files = n } ∷ [];
  raw = [];
}

kept_run : same_ownership (one_owner (pos 2)) (one_owner (pos 3)) ≡ true
unfolding same_ownership
kept_run = refl

lost_run : same_ownership (one_owner (pos 3)) (one_owner (pos 2)) ≡ false
unfolding same_ownership
lost_run = refl

entries_run :
    classify_entries (pos 3) (codes "d/e-1\ne-4\n\nx\n") ≡ (3, codes "e-4" ∷ codes "x" ∷ [])
unfolding classify_entries parse_int split_by trim_space path_base has_prefix trim_prefix
entries_run = refl
