-- ===== src/Teardown/Unmounts.antt =====
-- pkg/framework/unmount.go: the pod that is force-deleted, and the wait for its volume to be unmounted.
pub mod Release
use nfs_verification.Locks.Mounts.{MountLine, is_nfs, mount_point_holds}
use nfs_verification.Poll.{Wake, Round, Ended, ok, poll}
use nfs_verification.Prelude.{
  Bool, true, false, not, ◌&&◌, ◌||◌, List, [], ◌∷◌, ◌++◌, map, Option, none, some, if◌then◌else◌,
  has,
}
use nfs_verification.Teardown.{Unproven, mark_claim_unproven, clear_claim_unproven}
use nfs_verification.Text.{Text, codes, eq_text, is_empty}

-- `CSIUniqueVolumeName`; `none` is an error.
pub csi_unique_volume_name : Text → Text → Option Text
csi_unique_volume_name driver handle =
    if is_empty driver || is_empty handle
    then none
    else some (codes "kubernetes.io/csi/" ++ driver ++ codes "^" ++ handle)

-- What is read of a volume: its name, and its driver and handle if it is a CSI volume.
pub record Volume : Type 0 where
  pub name : Text
  pub csi : Option (Text × Text)

-- `attachRequired`, on the field of the driver's object, with `none` for no object or no field.
pub attach_required : (Text → Option Bool) → Text → Bool
attach_required drivers driver =
    if is_empty driver then false else elim (drivers driver) [ none ↦ false | some b ↦ b ]

-- `uniqueVolumeName`.
pub unique_volume_name : (Text → Option Bool) → Volume → Option Text
unfolding attach_required csi_unique_volume_name
unique_volume_name drivers v = elim v.csi [
  | none ↦ none
  | some (driver, handle) ↦
      if attach_required drivers driver then csi_unique_volume_name driver handle else none
]

pub data UnmountError : Type 0 where
  unread still_in_use still_mounted : UnmountError

-- `volumeInUse`, on the node's volumes in use.
pub volume_in_use : Text → List Text → Bool
volume_in_use unique inuse = has (λ v. eq_text v unique) inuse

in_use_round : Text → Option (List Text) × Wake → Round UnmountError
unfolding volume_in_use
in_use_round unique (none, w) = record { is_done = false; err = some unread; wake = w }
in_use_round unique (some inuse, w) =
    if volume_in_use unique inuse
    then record { is_done = false; err = some still_in_use; wake = w }
    else record { is_done = true; err = none; wake = w }

-- Whether a node mounts the volume.
pub still_mounts : Text → List MountLine → Bool
still_mounts pv mounts = has (λ m. is_nfs m.fs_type && mount_point_holds m.mount_point pv) mounts

mount_round : Text → Option (List MountLine) × Wake → Round UnmountError
unfolding still_mounts
mount_round pv (none, w) = record { is_done = false; err = some unread; wake = w }
mount_round pv (some mounts, w) =
    if still_mounts pv mounts
    then record { is_done = false; err = some still_mounted; wake = w }
    else record { is_done = true; err = none; wake = w }

-- What the node answers to the calls of one wait.
pub record NodeReads : Type 0 where
  pub first_in_use : Option (List Text)
  pub in_use : List (Option (List Text) × Wake)
  pub has_agent : Bool
  pub mounts : List (Option (List MountLine) × Wake)

succeeds : Option (Ended UnmountError) → Bool
succeeds (some ok) = true
succeeds _ = false

-- `awaitMountGone`: whether it returns no error.
pub mount_gone : Text → NodeReads → Bool
unfolding succeeds mount_round poll
mount_gone pv reads = reads.has_agent && succeeds (poll (map (mount_round pv) reads.mounts))

volume_gone : Text → NodeReads → Bool
unfolding succeeds in_use_round poll
volume_gone unique reads = succeeds (poll (map (in_use_round unique) reads.in_use))

-- `AwaitUnmount` for a volume with a unique name: only a volume that was seen in use is waited for there.
by_name : Text → Text → NodeReads → Option (List Text) → Bool
unfolding volume_gone mount_gone volume_in_use
by_name pv unique reads none = false
by_name pv unique reads (some inuse) =
    if volume_in_use unique inuse then volume_gone unique reads else mount_gone pv reads

await_with : Volume → NodeReads → Option Text → Bool
unfolding by_name mount_gone
await_with v reads none = mount_gone v.name reads
await_with v reads (some unique) = by_name v.name unique reads reads.first_in_use

-- `AwaitUnmount`: whether it returns no error.
unfoldable pub await_unmount : (Text → Option Bool) → Volume → NodeReads → Bool
unfolding await_with unique_volume_name
await_unmount drivers v reads = await_with v reads (unique_volume_name drivers v)

-- What is read of a pod before it is deleted: its node, and the volume behind the claim.
pub record Doomed : Type 0 where
  pub node : Option Text
  pub volume : Option Volume

after_delete : (Text → Option Bool) → Text → Volume → Bool → NodeReads → Unproven → Bool × Unproven
unfolding await_unmount
after_delete drivers claim v deleted reads u =
    let marked = mark_claim_unproven claim u in
    if not deleted
    then (false, marked)
    else if await_unmount drivers v reads
    then (true, clear_claim_unproven claim marked)
    else (false, marked)

scheduled : Option Text → Bool
scheduled none = false
scheduled (some node) = not (is_empty node)

-- `ForceDeletePodAt`: whether it returns no error, and the claims that are marked behind it; `deleted` is
-- whether the delete of the pod was accepted.
unfoldable pub force_delete_pod :
    (Text → Option Bool) → Text → Doomed → Bool → NodeReads → Unproven → Bool × Unproven
unfolding after_delete scheduled
force_delete_pod drivers claim pod deleted reads u =
    if scheduled pod.node
    then elim pod.volume [
      | none ↦ (false, u)
      | some v ↦ after_delete drivers claim v deleted reads u
    ]
    else (false, u)
