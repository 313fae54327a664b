-- ===== src/PodCaps/Sets.antt =====
-- pkg/framework/podcaps.go: capability sets and the gaps between them.
use nfs_verification.Prelude.{
  ℕ, suc, ◌/◌, ◌%◌, ◌^◌, Bool, false, not, List, [], ◌∷◌, ◌==◌, if◌then◌else◌,
}
use nfs_verification.Text.{to_upper, Text, codes, eq_text, trim_prefix}

cap_names_by_bit : List Text
cap_names_by_bit =
    codes "CHOWN"
    ∷ codes "DAC_OVERRIDE"
    ∷ codes "DAC_READ_SEARCH"
    ∷ codes "FOWNER"
    ∷ codes "FSETID"
    ∷ codes "KILL"
    ∷ codes "SETGID"
    ∷ codes "SETUID"
    ∷ codes "SETPCAP"
    ∷ codes "LINUX_IMMUTABLE"
    ∷ codes "NET_BIND_SERVICE"
    ∷ codes "NET_BROADCAST"
    ∷ codes "NET_ADMIN"
    ∷ codes "NET_RAW"
    ∷ codes "IPC_LOCK"
    ∷ codes "IPC_OWNER"
    ∷ codes "SYS_MODULE"
    ∷ codes "SYS_RAWIO"
    ∷ codes "SYS_CHROOT"
    ∷ codes "SYS_PTRACE"
    ∷ codes "SYS_PACCT"
    ∷ codes "SYS_ADMIN"
    ∷ codes "SYS_BOOT"
    ∷ codes "SYS_NICE"
    ∷ codes "SYS_RESOURCE"
    ∷ codes "SYS_TIME"
    ∷ codes "SYS_TTY_CONFIG"
    ∷ codes "MKNOD"
    ∷ codes "LEASE"
    ∷ codes "AUDIT_WRITE"
    ∷ codes "AUDIT_CONTROL"
    ∷ codes "SETFCAP"
    ∷ codes "MAC_OVERRIDE"
    ∷ codes "MAC_ADMIN"
    ∷ codes "SYSLOG"
    ∷ codes "WAKE_ALARM"
    ∷ codes "BLOCK_SUSPEND"
    ∷ codes "AUDIT_READ"
    ∷ codes "PERFMON"
    ∷ codes "BPF"
    ∷ codes "CHECKPOINT_RESTORE"
    ∷ []

-- A mask is a `uint64`.
pub record CapSet : Type 0 where
  pub inheritable : ℕ
  pub permitted : ℕ
  pub effective : ℕ
  pub bounding : ℕ
  pub ambient : ℕ

-- `mask & (1 << bit) != 0`.
abbrev pub has_bit : ℕ → ℕ → Bool
has_bit mask bit = (mask / 2 ^ bit) % 2 == 1

-- The loop of `HasCap`, from bit `bit` on.
has_cap_from : ℕ → ℕ → Text → List Text → Bool
unfolding eq_text
has_cap_from bit mask want [] = false
has_cap_from bit mask want (n ∷ ns) =
    let rest = has_cap_from (suc bit) mask want ns in
    if eq_text n want then has_bit mask bit else rest

-- `HasCap`.
pub has_cap : ℕ → Text → Bool
unfolding has_cap_from to_upper trim_prefix cap_names_by_bit
has_cap mask name =
    has_cap_from 0 mask (to_upper (trim_prefix (to_upper name) (codes "CAP_"))) cap_names_by_bit

-- `CapGaps`: what was stripped, and what was dropped.
unfoldable pub cap_gaps : List Text → CapSet → CapSet → List Text × List Text
unfolding has_cap
cap_gaps [] delivered held = ([], [])
cap_gaps (want ∷ declared) delivered held =
    let rest = cap_gaps declared delivered held in
    if has_cap held.permitted want
    then rest
    else if not (has_cap delivered.permitted want)
    then (want ∷ rest.0, rest.1)
    else (rest.0, want ∷ rest.1)
