-- ===== src/Usage/Output.antt =====
-- pkg/framework/io.go: reading what stat, df and sha256sum print.
use nfs_verification.Locks.Table.{FileId, device_from_stat_dev}
use nfs_verification.Prelude.{
  ℕ, Bool, true, ◌&&◌, ◌||◌, List, [], ◌∷◌, Option, none, some, if◌then◌else◌, leb, ltb, ◌==◌, ◌^◌,
  length, ℤ, pos, scale, leb_ℤ, pos_part,
}
use nfs_verification.Text.{Text, split, fields, cut, trim_space}
use nfs_verification.Text.Number.{parse_int, parse_digits}
use nfs_verification.Usage.{to_int64}

is_lower_hex : ℕ → Bool
is_lower_hex c = leb b'0' c && leb c b'9' || leb b'a' c && leb c b'f'

all_lower_hex : Text → Bool
unfolding is_lower_hex
all_lower_hex [] = true
all_lower_hex (c ∷ s) = is_lower_hex c && all_lower_hex s

first_of : Text → Option (Text × Text) → Text
first_of s none = s
first_of s (some (a, _)) = a

-- What is accepted as a digest. Its characters are ASCII, so that they are as many as its bytes.
pub is_digest : Text → Bool
unfolding all_lower_hex
is_digest sum = length sum == 64 && all_lower_hex sum

-- `parseSum`; `none` is an error.
unfoldable pub parse_sum : Text → Option Text
unfolding is_digest first_of
parse_sum out =
    let s = trim_space out in
    let sum = first_of s (cut b' ' s) in if is_digest sum then some sum else none

-- What `WriteBytes` and `CountNonZeroBytes` make of the number that the pod prints.
unfoldable pub printed_count : Text → Option ℤ
printed_count out = parse_int (trim_space out)

-- `strconv.ParseUint(s, 10, 64)`.
parse_uint : Text → Option ℕ
parse_uint s = elim (parse_digits s) [
  | none ↦ none
  | some n ↦ if ltb n (2 ^ 64) then some n else none
]

device_of : List Text → Text
unfolding parse_uint
device_of [] = []
device_of (d ∷ _) = elim (parse_uint d) [ none ↦ [] | some n ↦ device_from_stat_dev n ]

identity_of : List Text → Option FileId
unfolding device_of
identity_of [] = none
identity_of (i ∷ rest) = elim (parse_int i) [
  | none ↦ none
  | some inode ↦ some (record { device = device_of rest; inode = inode })
]

-- `FileIdentity`, on what stat printed; `none` is an error.
unfoldable pub file_identity : Text → Option FileId
unfolding identity_of
file_identity out = identity_of (fields out)

-- `Owner`.
pub record Owner : Type 0 where
  pub uid : ℤ
  pub gid : ℤ
  pub user : Text
  pub group : Text

owner_with : Option ℤ → Option ℤ → Text → Text → Option Owner
owner_with (some uid) (some gid) user group =
    some (record { uid = uid; gid = gid; user = user; group = group })
owner_with _ _ user group = none

owner_of : List Text → Option Owner
unfolding owner_with
owner_of (uid ∷ (gid ∷ (user ∷ (group ∷ [])))) =
    owner_with (parse_int (trim_space uid)) (parse_int (trim_space gid)) user group
owner_of _ = none

-- `parseOwner`; `none` is an error.
unfoldable pub parse_owner : Text → Option Owner
unfolding owner_of
parse_owner out = owner_of (split b'|' (trim_space out))

-- `Capacity` and `dfRow`.
pub record Capacity : Type 0 where
  pub total_bytes : ℤ
  pub avail_bytes : ℤ

pub record DfRow : Type 0 where
  pub total_bytes : ℤ
  pub used_bytes : ℤ
  pub avail_bytes : ℤ

-- The product of two 64-bit integers of which the first is positive.
times : ℤ → ℤ → ℤ
unfolding to_int64
times size n = to_int64 (scale (pos_part size) n)

capacity_with : Option ℤ → Option ℤ → Option ℤ → Option Capacity
unfolding times
capacity_with (some blocks) (some avail) (some size) =
    if leb_ℤ size (pos 0)
    then none
    else some (record { total_bytes = times size blocks; avail_bytes = times size avail })
capacity_with _ _ _ = none

capacity_of : List Text → Option Capacity
unfolding capacity_with
capacity_of (blocks ∷ (avail ∷ (size ∷ []))) =
    capacity_with (parse_int blocks) (parse_int avail) (parse_int size)
capacity_of _ = none

-- `parseStatFS`; `none` is an error.
unfoldable pub parse_stat_fs : Text → Option Capacity
unfolding capacity_of
parse_stat_fs out = capacity_of (fields out)

row_with : Option ℤ → Option ℤ → Option ℤ → Option DfRow
unfolding times
row_with (some total) (some used) (some avail) = some (record {
  total_bytes = times (pos 1024) total;
  used_bytes = times (pos 1024) used;
  avail_bytes = times (pos 1024) avail;
})
row_with _ _ _ = none

row_of : List Text → Option DfRow
unfolding row_with
row_of (_ ∷ (total ∷ (used ∷ (avail ∷ _)))) =
    row_with (parse_int total) (parse_int used) (parse_int avail)
row_of _ = none

-- The last of two lines or more.
last_row : List Text → Option DfRow
unfolding row_of
last_row [] = none
last_row (_ ∷ []) = none
last_row (_ ∷ (l ∷ [])) = row_of (fields l)
last_row (_ ∷ (l ∷ (m ∷ ls))) = last_row (l ∷ (m ∷ ls))

-- `parseDF`; `none` is an error.
unfoldable pub parse_df : Text → Option DfRow
unfolding last_row
parse_df out = last_row (split b'\n' (trim_space out))

capacity_from : Option DfRow → Option Capacity
capacity_from none = none
capacity_from (some r) = some (record { total_bytes = r.total_bytes; avail_bytes = r.avail_bytes })

fall_back : Option Capacity → Option Text → Option Capacity
unfolding capacity_from parse_df
fall_back (some c) df = some c
fall_back none none = none
fall_back none (some out) = capacity_from (parse_df out)

-- `MountCapacity`, on what stat and df printed, where `none` is a command that failed.
unfoldable pub mount_capacity : Option Text → Option Text → Option Capacity
unfolding fall_back parse_stat_fs
mount_capacity none df = fall_back none df
mount_capacity (some out) df = fall_back (parse_stat_fs out) df
