-- ===== src/Usage/Agreement.antt =====
-- pkg/framework/volumeusage.go: when two readings of a claim agree.
use nfs_verification.Prelude.{◌≡◌, ◌<ℤ◌, ℤ, pos, ◌≤ℤ◌, ◌+ℤ◌}
use nfs_verification.Slo.{clock_skew_guard}
use nfs_verification.Usage.{VolumeUsage}

-- The tolerance for the capacity that the workload sees and the one that is claimed: the share of the
-- smaller of the two if both are positive, of the one that is if only one is, and nothing if none is.
abbrev pub IsTolerance : (ℤ → ℤ) → ℤ → ℤ → ℤ → Type 0
IsTolerance share workload claim t =
    (pos 0 <ℤ workload → pos 0 <ℤ claim → workload ≤ℤ claim → t ≡ share workload)
    × (pos 0 <ℤ workload → pos 0 <ℤ claim → claim ≤ℤ workload → t ≡ share claim)
    × (pos 0 <ℤ workload → claim ≤ℤ pos 0 → t ≡ share workload)
    × (workload ≤ℤ pos 0 → pos 0 <ℤ claim → t ≡ share claim)
    × (workload ≤ℤ pos 0 → claim ≤ℤ pos 0 → t ≡ pos 0)

-- What it takes for two readings to agree, with a tolerance.
abbrev pub Agreeing : VolumeUsage → VolumeUsage → ℤ → Type 0
Agreeing pod kubelet t =
    (pod.at ≤ℤ clock_skew_guard +ℤ kubelet.at)
    × (kubelet.used_bytes ≤ℤ pod.used_bytes +ℤ t)
    × (pod.used_bytes ≤ℤ kubelet.used_bytes +ℤ t)
