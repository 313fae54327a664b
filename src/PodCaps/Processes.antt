-- ===== src/PodCaps/Processes.antt =====
-- pkg/framework/podcaps.go: the processes of one server, and the recorded form of a set.
use nfs_verification.PodCaps.Sets.{CapSet}
use nfs_verification.PodCaps.Reading.{parse_hex}
use nfs_verification.Prelude.{
  ℕ, zero, suc, ◌+◌, ◌-◌, ◌/◌, ◌%◌, Bool, not, ◌&&◌, ◌||◌, List, [], ◌∷◌, Option, none, some, ltb,
  ◌==◌, if◌then◌else◌, ℤ, ltb_ℤ,
}
use nfs_verification.Text.{
  Text, codes, eq_text, is_empty, trim_space, has_prefix, byte_len, trim_prefix,
}

pub record ProcessCaps : Type 0 where
  pub pid : ℤ
  pub node : Text
  pub name : Text
  pub container : Text
  pub caps : CapSet

pub data OneSet : Type 0 where
  one_set : ProcessCaps → OneSet
  no_process_read : OneSet
  containers_differ : ProcessCaps → ProcessCaps → OneSet
  sets_differ : ProcessCaps → ProcessCaps → OneSet

-- The loop of `oneServerSet`.
unfoldable pub one_set_from : ProcessCaps → List ProcessCaps → OneSet
unfolding eq_text
one_set_from out [] = one_set out
one_set_from out (r ∷ rs) =
    if not (eq_text r.container out.container)
    then containers_differ out r
    else if not (r.caps.permitted == out.caps.permitted)
    then sets_differ out r
    else if ltb_ℤ r.pid out.pid
    then one_set_from (record out { pid = r.pid }) rs
    else one_set_from out rs

-- `oneServerSet`.
unfoldable pub one_server_set : List ProcessCaps → OneSet
unfolding one_set_from
one_server_set [] = no_process_read
one_server_set (r ∷ rs) = one_set_from r rs

-- `statusName`.
unfoldable pub status_name : List Text → Text
unfolding has_prefix trim_prefix trim_space
status_name [] = []
status_name (l ∷ ls) =
    let rest = status_name ls in
    if has_prefix l (codes "Name:") then trim_space (trim_prefix l (codes "Name:")) else rest

-- `sameProcessName`: whether there is no error.
unfoldable pub same_process_name : Text → Text → Bool
unfolding eq_text byte_len has_prefix
same_process_name status want =
    eq_text status want || (byte_len status == 15 && has_prefix want status)

-- The recorded form of a set.
pub record CapMasks : Type 0 where
  pub inheritable : Text
  pub permitted : Text
  pub effective : Text
  pub bounding : Text
  pub ambient : Text

-- One digit of base 16, in lower case.
abbrev pub hex_digit : ℕ → ℕ
hex_digit d = if ltb d 10 then b'0' + d else b'a' + (d - 10)

-- The last `k` digits of base 16, leading zeros included, in front of `out`.
unfoldable pub hex_digits : ℕ → ℕ → Text → Text
hex_digits zero m out = out
hex_digits (suc k) m out = hex_digits k (m / 16) (hex_digit (m % 16) ∷ out)

-- `%016x` of a `uint64`, which has 16 digits at most.
unfoldable pub hex : ℕ → Text
unfolding hex_digits
hex m = hex_digits 16 m []

-- `capMasksOf`, less the name.
unfoldable pub cap_masks_of : CapSet → CapMasks
unfolding hex
cap_masks_of c = record {
  inheritable = hex c.inheritable;
  permitted = hex c.permitted;
  effective = hex c.effective;
  bounding = hex c.bounding;
  ambient = hex c.ambient;
}

-- The masks of a set, where all of them parsed.
abbrev pub set_of : Option ℕ → Option ℕ → Option ℕ → Option ℕ → Option ℕ → Option CapSet
set_of (some i) (some p) (some e) (some b) (some a) =
    some (record { inheritable = i; permitted = p; effective = e; bounding = b; ambient = a })
set_of _ _ _ _ _ = none

-- `CapSetOf`, with `none` for its error.
unfoldable pub cap_set_of : CapMasks → Option CapSet
unfolding parse_hex
cap_set_of m =
    set_of (parse_hex m.inheritable) (parse_hex m.permitted) (parse_hex m.effective)
      (parse_hex m.bounding) (parse_hex m.ambient)

-- Why a record of capabilities does not describe the live pod.
pub data StaleRecord : Type 0 where
  predates_uid recreated : StaleRecord

-- `StaleCapabilityRecord`, over the recorded and the live UID.
unfoldable pub stale_capability_record : Text → Text → Option StaleRecord
unfolding eq_text
stale_capability_record recorded live =
    if is_empty recorded
    then some predates_uid
    else if not (eq_text live recorded)
    then some recreated
    else none
