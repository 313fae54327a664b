-- ===== src/Usage.antt =====
-- pkg/framework/volumeusage.go and io.go: how full a volume is, by the workload and by the control plane.
-- `share` is the amount that the source computes with a factor in float64, `int64(float64(n) * f)`.
pub mod Output
pub mod Kubelet
pub mod Agreement
use nfs_verification.Clock.{Time, Duration, sub_time}
use nfs_verification.Prelude.{
  ℕ, suc, ◌+◌, ◌-◌, ◌%◌, ◌^◌, Bool, true, false, not, ◌&&◌, ◌||◌, if◌then◌else◌, ltb, ◌==◌, ℤ, pos,
  negsuc, ◌+ℤ◌, ◌-ℤ◌, ltb_ℤ, leb_ℤ, sub_ℕ,
}
use nfs_verification.Slo.{clock_skew_guard}
use nfs_verification.Text.{Text}

-- The 64-bit integer that is `m` modulo 2 ^ 64, for `m` below that.
signed : ℕ → ℤ
signed m = if ltb m (2 ^ 63) then pos m else sub_ℕ m (2 ^ 64)

-- The wrap-around of 64-bit arithmetic.
pub to_int64 : ℤ → ℤ
unfolding signed
to_int64 (pos n) = signed (n % 2 ^ 64)
to_int64 (negsuc n) = signed (2 ^ 64 - 1 - n % 2 ^ 64)

pub data UsageSource : Type 0 where
  pod_df kubelet_summary : UsageSource

-- `VolumeUsage`.
pub record VolumeUsage : Type 0 where
  pub source : UsageSource
  pub claim : Text
  pub capacity_bytes : ℤ
  pub used_bytes : ℤ
  pub available_bytes : ℤ
  pub at : Time

pub data UsageVerdict : Type 0 where
  agrees disagrees stale : UsageVerdict

-- `UsageComparison`.
pub record UsageComparison : Type 0 where
  pub pod : VolumeUsage
  pub kubelet : VolumeUsage
  pub delta_bytes : ℤ
  pub tolerance_bytes : ℤ
  pub lag : Duration
  pub verdict : UsageVerdict

-- `abs64`.
pub abs64 : ℤ → ℤ
unfolding to_int64
abs64 n = if ltb_ℤ n (pos 0) then to_int64 (pos 0 -ℤ n) else n

-- `basis` in `toleranceBytes`.
pub tolerance_basis : ℤ → ℤ → ℤ
tolerance_basis workload claim =
    if ltb_ℤ (pos 0) claim && (leb_ℤ workload (pos 0) || ltb_ℤ claim workload)
    then claim
    else workload

-- `toleranceBytes`.
pub tolerance_bytes : (ℤ → ℤ) → ℤ → ℤ → ℤ
unfolding tolerance_basis
tolerance_bytes share workload claim =
    let basis = tolerance_basis workload claim in if leb_ℤ basis (pos 0) then pos 0 else share basis

usage_verdict : Duration → ℤ → ℤ → UsageVerdict
unfolding abs64
usage_verdict lag delta tolerance =
    if ltb_ℤ clock_skew_guard lag
    then stale
    else if ltb_ℤ tolerance (abs64 delta)
    then disagrees
    else agrees

-- `CompareUsage`.
pub compare_usage : (ℤ → ℤ) → VolumeUsage → VolumeUsage → ℤ → UsageComparison
unfolding usage_verdict tolerance_bytes to_int64
compare_usage share pod kubelet claim =
    let delta = to_int64 (kubelet.used_bytes -ℤ pod.used_bytes) in
    let tolerance = tolerance_bytes share pod.capacity_bytes claim in
    let lag = sub_time pod.at kubelet.at in
    record {
      pod = pod;
      kubelet = kubelet;
      delta_bytes = delta;
      tolerance_bytes = tolerance;
      lag = lag;
      verdict = usage_verdict lag delta tolerance;
    }

-- `UsedDelta`.
unfoldable pub used_delta : VolumeUsage → VolumeUsage → ℤ
unfolding to_int64
used_delta before after = to_int64 (after.used_bytes -ℤ before.used_bytes)

-- `MatchesClaimCapacity`.
unfoldable pub matches_claim_capacity : (ℤ → ℤ) → ℤ → ℤ → Bool
unfolding abs64 to_int64
matches_claim_capacity share reported claim =
    if leb_ℤ claim (pos 0)
    then false
    else leb_ℤ (abs64 (to_int64 (reported -ℤ claim))) (share claim)
