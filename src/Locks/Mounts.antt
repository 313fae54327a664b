-- ===== src/Locks/Mounts.antt =====
-- pkg/framework/nodeagent.go and lockmount.go: the mounts of a node, and whether a mount keeps locks on the
-- client.
use nfs_verification.Prelude.{
  Bool, false, ◌&&◌, ◌||◌, List, [], ◌∷◌, Option, none, some, if◌then◌else◌,
}
use nfs_verification.Text.Found.{found_in}
use nfs_verification.Text.{
  Text, codes, eq_text, is_empty, split, fields, cut, has_prefix, trim_prefix,
}

-- `MountLine`.
pub record MountLine : Type 0 where
  pub device : Text
  pub mount_point : Text
  pub fs_type : Text
  pub options : Text

-- One line of /proc/mounts; a line of fewer than four fields is passed over.
mount_of : List Text → Option MountLine
mount_of (device ∷ (point ∷ (fs ∷ (options ∷ _)))) =
    some (record { device = device; mount_point = point; fs_type = fs; options = options })
mount_of _ = none

pub mount_line : Text → Option MountLine
unfolding mount_of
mount_line l = mount_of (fields l)

-- `ParseMounts`.
unfoldable pub parse_mounts : Text → List MountLine
unfolding found_in mount_line
parse_mounts contents = found_in mount_line (split b'\n' contents)

one_of : Text → List Text → Bool
unfolding eq_text
one_of t [] = false
one_of t (o ∷ os) = eq_text o t || one_of t os

-- `HasOption`.
unfoldable pub has_option : MountLine → Text → Bool
unfolding one_of
has_option m opt = one_of opt (split b',' m.options)

value_in : Text → List Text → Option Text
value_in key [] = none
value_in key (o ∷ os) =
    let rest = value_in key os in
    elim (cut b'=' o) [ none ↦ rest | some (k, v) ↦ if eq_text k key then some v else rest ]

-- `OptionValue`.
unfoldable pub option_value : MountLine → Text → Option Text
unfolding value_in
option_value m key = value_in key (split b',' m.options)

-- `isNFS`.
unfoldable pub is_nfs : Text → Bool
is_nfs fs = eq_text fs (codes "nfs") || eq_text fs (codes "nfs4")

-- `MountPointHolds`.
unfoldable pub mount_point_holds : Text → Text → Bool
unfolding one_of
mount_point_holds point pv = if is_empty pv then false else one_of pv (split b'/' point)

-- The loop of `PodVolumeMount` over the mounts of the node; `none` is the error that there is none.
unfoldable pub volume_mount : Text → List MountLine → Option MountLine
unfolding is_nfs mount_point_holds
volume_mount pv [] = none
volume_mount pv (m ∷ ms) =
    let rest = volume_mount pv ms in
    if is_nfs m.fs_type && mount_point_holds m.mount_point pv then some m else rest

-- `LockKind`.
pub data LockKind : Type 0 where
  flock_lock posix_lock : LockKind

-- Whether a value of `local_lock` keeps locks of a kind on the client.
keeps : Text → LockKind → Bool
keeps value flock_lock = eq_text value (codes "all") || eq_text value (codes "flock")
keeps value posix_lock = eq_text value (codes "all") || eq_text value (codes "posix")

-- Whether one option makes locks of a kind local.
pub makes_local : LockKind → Text → Bool
unfolding keeps
makes_local kind o =
    eq_text o (codes "nolock")
    || (has_prefix o (codes "local_lock=") && keeps (trim_prefix o (codes "local_lock=")) kind)

local_in : LockKind → List Text → Option Text
unfolding makes_local
local_in kind [] = none
local_in kind (o ∷ os) = let rest = local_in kind os in if makes_local kind o then some o else rest

-- `LocalLocking`; `none` is that locks reach the server.
pub local_locking : Text → LockKind → Option Text
unfolding local_in
local_locking options kind = local_in kind (split b',' options)

-- `LockMount`.
pub record LockMount : Type 0 where
  pub node : Text
  pub line : MountLine
  pub kind : LockKind
  pub local_option : Option Text

-- `CheckLockMount`, on the contents of the node's /proc/mounts; `none` is an error.
unfoldable pub check_lock_mount : Text → Option Text → Text → LockKind → Option LockMount
unfolding local_locking parse_mounts volume_mount
check_lock_mount node none pv kind = none
check_lock_mount node (some contents) pv kind = elim (volume_mount pv (parse_mounts contents)) [
  | none ↦ none
  | some m ↦
      some
        (record { node = node; line = m; kind = kind; local_option = local_locking m.options kind })
]
