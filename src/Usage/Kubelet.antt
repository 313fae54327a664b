-- ===== src/Usage/Kubelet.antt =====
-- pkg/framework/kubeletstats.go: the reading that the control plane publishes for a claim, and the wait for
-- one that is not older than the workload's.
pub mod Fresh
use nfs_verification.Clock.{Time, Duration, before}
use nfs_verification.Poll.{Wake, cancelled, deadline, tick}
use nfs_verification.Prelude.{
  Bool, true, false, not, ◌&&◌, ◌||◌, List, [], ◌∷◌, Option, none, some, if◌then◌else◌, ℤ, pos,
  ◌+ℤ◌, ◌-ℤ◌,
}
use nfs_verification.Slo.{clock_skew_guard}
use nfs_verification.Text.{Text, eq_text, is_empty}
use nfs_verification.Usage.{VolumeUsage, kubelet_summary}

-- `KubeletPVCRef`, `KubeletVolumeStat`, `KubeletPodStats`; a summary is its pods.
pub record PvcRef : Type 0 where
  pub name : Text
  pub namespace : Text

pub record VolumeStat : Type 0 where
  pub time : Time
  pub available_bytes : Option ℤ
  pub capacity_bytes : Option ℤ
  pub used_bytes : Option ℤ
  pub pvc_ref : Option PvcRef

pub record PodStats : Type 0 where
  pub name : Text
  pub namespace : Text
  pub volumes : List VolumeStat

-- Whether the entry is of the claim. A reference without a namespace counts.
pub is_claim : Text → Text → VolumeStat → Bool
is_claim namespace claim v = elim v.pvc_ref [
  | none ↦ false
  | some r ↦ eq_text r.name claim && (is_empty r.namespace || eq_text r.namespace namespace)
]

usage_with : Text → Time → Option ℤ → Option ℤ → Option ℤ → Option VolumeUsage
usage_with claim at (some used) (some capacity) (some available) = some (record {
  source = kubelet_summary;
  claim = claim;
  capacity_bytes = capacity;
  used_bytes = used;
  available_bytes = available;
  at = at;
})
usage_with claim at _ _ _ = none

-- An entry, if all three numbers are there.
pub usage_of : Text → VolumeStat → Option VolumeUsage
unfolding usage_with
usage_of claim v = usage_with claim v.time v.used_bytes v.capacity_bytes v.available_bytes

-- The first entry of the claim among the volumes of a pod.
first_claim : Text → Text → List VolumeStat → Option VolumeStat
unfolding is_claim
first_claim namespace claim [] = none
first_claim namespace claim (v ∷ vs) =
    let rest = first_claim namespace claim vs in if is_claim namespace claim v then some v else rest

pub is_pod : Text → Text → PodStats → Bool
is_pod namespace pod p = eq_text p.namespace namespace && eq_text p.name pod

find_claim : Text → Text → Text → List PodStats → Option VolumeStat
unfolding first_claim is_pod
find_claim namespace pod claim [] = none
find_claim namespace pod claim (p ∷ ps) =
    let rest = find_claim namespace pod claim ps in
    if is_pod namespace pod p
    then elim (first_claim namespace claim p.volumes) [ none ↦ rest | some v ↦ some v ]
    else rest

-- `VolumeUsageFor`: the first entry of the claim decides.
pub volume_usage_for : Text → Text → Text → List PodStats → Option VolumeUsage
unfolding find_claim usage_of
volume_usage_for namespace pod claim pods = elim (find_claim namespace pod claim pods) [
  | none ↦ none
  | some v ↦ usage_of claim v
]

-- What one read of the node's summary returned.
pub data SummaryRead : Type 0 where
  summary : List PodStats → SummaryRead
  refused_read : SummaryRead
  failed_read : SummaryRead

-- `usageWait`, less the errors that it carries along.
pub record UsageWait : Type 0 where
  pub latest : Option VolumeUsage
  pub inspected : Bool
  pub refused : Bool

abbrev pub new_wait : UsageWait
new_wait = record { latest = none; inspected = false; refused = false }

-- How the wait ends: `result`.
pub data FreshUsage : Type 0 where
  fresh_usage : VolumeUsage → FreshUsage
  source_refused no_summary no_volume_stats : FreshUsage
  stale_stats : VolumeUsage → FreshUsage
  nothing_found : FreshUsage

-- The wait without an error: `latest` is the last reading of the claim.
pub ended_well : UsageWait → FreshUsage
ended_well w =
    if w.refused
    then source_refused
    else elim w.latest [ none ↦ nothing_found | some u ↦ fresh_usage u ]

-- The wait that was cancelled or timed out.
pub ended_badly : UsageWait → FreshUsage
ended_badly w =
    if w.refused
    then source_refused
    else if not w.inspected
    then no_summary
    else elim w.latest [ none ↦ no_volume_stats | some u ↦ stale_stats u ]

-- Whether a reading is older than the workload's by more than the guard.
pub too_old : Time → VolumeUsage → Bool
too_old not_before u = before u.at (not_before +ℤ (pos 0 -ℤ clock_skew_guard))

module _ (usage_in : List PodStats → Option VolumeUsage) (not_before : Time) where
  searched : UsageWait → Option VolumeUsage → UsageWait × Bool
  unfolding too_old
  searched w none = (record w { inspected = true }, false)
  searched w (some u) = (record w { inspected = true; latest = some u }, not (too_old not_before u))

  -- The function that the wait polls: what it saw, and whether it is done.
  pub look : UsageWait → SummaryRead → UsageWait × Bool
  unfolding searched
  look w (summary pods) = searched w (usage_in pods)
  look w refused_read = (record w { refused = true }, true)
  look w failed_read = (w, false)

  woken_wait : Wake → UsageWait → Option FreshUsage → Option FreshUsage
  unfolding ended_badly
  woken_wait tick w rest = rest
  woken_wait _ w rest = some (ended_badly w)

  -- The rounds of `Poll` in `FreshKubeletUsage`; `none` is a wait that goes on.
  pub wait_from : UsageWait → List (SummaryRead × Wake) → Option FreshUsage
  unfolding woken_wait ended_well look
  wait_from w [] = none
  wait_from w ((r, wake) ∷ rs) =
      let (seen, done) = look w r in
      let rest = wait_from seen rs in
      if done then some (ended_well seen) else woken_wait wake seen rest

-- `FreshKubeletUsage`.
unfoldable pub fresh_kubelet_usage :
    Text → Text → Text → Time → List (SummaryRead × Wake) → Option FreshUsage
unfolding wait_from volume_usage_for
fresh_kubelet_usage namespace pod claim not_before =
    wait_from (volume_usage_for namespace pod claim) not_before new_wait
