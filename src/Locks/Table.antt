-- ===== src/Locks/Table.antt =====
-- pkg/framework/lockmount.go: the lock table of a node.
pub mod Covers
pub mod Lines
use nfs_verification.Text.Found.{found_in}
use nfs_verification.LockTool.{LockRange}
use nfs_verification.PodCaps.Processes.{hex}
use nfs_verification.Prelude.{
  ℕ, suc, ◌+◌, ◌*◌, ◌/◌, ◌%◌, ◌^◌, Bool, true, false, not, ◌&&◌, ◌||◌, List, [], ◌∷◌, ◌++◌, Option,
  none, some, if◌then◌else◌, ltb, ◌==◌, ℤ, pos, ◌+ℤ◌, ◌-ℤ◌, eq_ℤ, ltb_ℤ, int64_min, int64_max,
}
use nfs_verification.Text.{Text, codes, eq_text, is_empty, split, fields, has_suffix, to_upper}
use nfs_verification.Text.Number.{parse_int, itoa}

-- `ProcLock`.
pub record ProcLock : Type 0 where
  pub kind : Text
  pub enforcement : Text
  pub mode : Text
  pub pid : ℤ
  pub device : Text
  pub inode : ℤ
  pub start : ℤ
  pub end : ℤ
  pub ends_at_eof : Bool
  pub waiting : Bool

-- `FileID`.
pub record FileId : Type 0 where
  pub device : Text
  pub inode : ℤ

unfoldable pub show_file_id : FileId → Text
show_file_id f = f.device ++ b':' ∷ itoa f.inode

-- `Known`.
unfoldable pub known_file : FileId → Bool
known_file f = not (eq_ℤ f.inode (pos 0))

-- `cutLast` at one character; `none` where it is not found.
pub cut_around_last : ℕ → Text → Option (Text × Text)
cut_around_last sep [] = none
cut_around_last sep (c ∷ s) = elim (cut_around_last sep s) [
  | some (a, b) ↦ some (c ∷ a, b)
  | none ↦ if c == sep then some ([], s) else none
]

-- The last byte of a lock: `EOF`, or a number.
end_of : Text → Option (ℤ × Bool)
end_of t =
    let n = parse_int t in
    if eq_text t (codes "EOF")
    then some (pos 0, true)
    else elim n [ none ↦ none | some e ↦ some (e, false) ]

file_of : Option (Text × Text) → Option FileId
file_of none = none
file_of (some (device, inode)) = elim (parse_int inode) [
  | none ↦ none
  | some i ↦ some (record { device = device; inode = i })
]

lock_with :
    Bool
    → Text
    → Text
    → Text
    → Option ℤ
    → Option FileId
    → Option ℤ
    → Option (ℤ × Bool)
    → Option ProcLock
lock_with waiting kind enforcement mode (some pid) (some f) (some start) (some (end, eof)) =
    some (record {
      kind = kind;
      enforcement = enforcement;
      mode = mode;
      pid = pid;
      device = f.device;
      inode = f.inode;
      start = start;
      end = end;
      ends_at_eof = eof;
      waiting = waiting;
    })
lock_with waiting kind enforcement mode _ _ _ _ = none

-- The fields from the kind on.
lock_fields : Bool → List Text → Option ProcLock
unfolding lock_with end_of file_of cut_around_last
lock_fields waiting (kind ∷ (enf ∷ (mode ∷ (pid ∷ (file ∷ (start ∷ (end ∷ _))))))) =
    lock_with waiting kind enf mode (parse_int pid) (file_of (cut_around_last b':' file))
      (parse_int start) (end_of end)
lock_fields waiting _ = none

behind_index : List Text → Option ProcLock
unfolding lock_fields
behind_index [] = none
behind_index (f ∷ fs) =
    if eq_text f (codes "->") then lock_fields true fs else lock_fields false (f ∷ fs)

lock_of : List Text → Option ProcLock
unfolding behind_index
lock_of [] = none
lock_of (index ∷ rest) = if has_suffix index (codes ":") then behind_index rest else none

-- One line of /proc/locks.
pub lock_line : Text → Option ProcLock
unfolding lock_of
lock_line l = lock_of (fields l)

-- `ParseProcLocks`.
pub parse_proc_locks : Text → List ProcLock
unfolding lock_line
parse_proc_locks contents = found_in lock_line (split b'\n' contents)

-- The wrap-around of a sum or a difference of two 64-bit integers.
unfoldable pub wrap_int64 : ℤ → ℤ
wrap_int64 a =
    if ltb_ℤ int64_max a
    then a -ℤ pos (2 ^ 64)
    else if ltb_ℤ a int64_min
    then a +ℤ pos (2 ^ 64)
    else a

-- `modeMatches`.
pub mode_matches : Text → Text → Bool
mode_matches held mode =
    if eq_text (to_upper mode) (codes "READ")
    then eq_text held (codes "READ")
    else if eq_text (to_upper mode) (codes "WRITE")
    then eq_text held (codes "WRITE")
    else false

-- `Covers`.
pub covers : ProcLock → FileId → LockRange → Bool
unfolding wrap_int64 mode_matches
covers l id r =
    if not (eq_text l.kind (codes "POSIX")) || l.waiting || not (eq_ℤ l.inode id.inode)
    then false
    else if not (is_empty id.device) && not (eq_text l.device id.device)
    then false
    else if not (mode_matches l.mode r.mode)
    then false
    else if not (eq_ℤ l.start r.start)
    then false
    else if eq_ℤ r.len (pos 0)
    then l.ends_at_eof
    else not l.ends_at_eof && eq_ℤ l.end (wrap_int64 (wrap_int64 (r.start +ℤ r.len) -ℤ pos 1))

drop_zeros : ℕ → Text → Text
drop_zeros (suc k) (c ∷ s) = if c == b'0' then drop_zeros k s else c ∷ s
drop_zeros _ s = s

-- `%02x` of a `uint64`: its 16 digits, less the leading zeros before the last two digits.
hex2 : ℕ → Text
unfolding drop_zeros
hex2 n = drop_zeros 14 (hex n)

-- `DeviceFromStatDev`: `x &^ 0xfff` is `x / 2 ^ 12 * 2 ^ 12`, and the two halves of each `|` share no bit.
unfoldable pub device_from_stat_dev : ℕ → Text
unfolding hex2
device_from_stat_dev dev =
    let major = dev / 2 ^ 8 % 2 ^ 12 + dev / 2 ^ 32 / 2 ^ 12 * 2 ^ 12 in
    let minor = dev % 2 ^ 8 + dev / 2 ^ 12 / 2 ^ 8 * 2 ^ 8 in hex2 major ++ b':' ∷ hex2 minor
