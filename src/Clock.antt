-- ===== src/Clock.antt =====
-- Go's `time` package as far as the source calls it. An instant is a number of nanoseconds since 1970,
-- with no bound; a duration is an int64, and `Sub` stops at its ends as Go's does.
use nfs_verification.Prelude.{
  ◌*◌, ◌≡◌, Bool, ℕ, if◌then◌else◌, arith, ℤ, pos, ◌-ℤ◌, ◌+ℤ◌, scale, ltb_ℤ, ◌<ℤ◌, ◌≤ℤ◌, int64_max,
  int64_min, -ℤ_parts, +ℤ_parts,
}

abbrev pub Time : Type 0
Time = ℤ

abbrev pub Duration : Type 0
Duration = ℤ

-- `n * time.Second`.
abbrev pub seconds : ℕ → Duration
seconds n = pos (n * 1000000000)

-- `time.Unix(secs, 0)`.
unfoldable pub unix : ℤ → Time
unix secs = scale 1000000000 secs

abbrev pub before : Time → Time → Bool
before a b = ltb_ℤ a b

abbrev pub after : Time → Time → Bool
after a b = ltb_ℤ b a

saturate : ℤ → Duration
saturate d = if ltb_ℤ int64_max d then int64_max else if ltb_ℤ d int64_min then int64_min else d

-- `a.Sub(b)`.
unfoldable pub sub_time : Time → Time → Duration
unfolding saturate
sub_time a b = saturate (a -ℤ b)

-- A difference that does not saturate is longer than `d` exactly where the instants say so.
pub sub_time-gt :
    (d : Duration) (a b : Time)
    → d <ℤ int64_max
    → int64_min ≤ℤ d
    → ltb_ℤ d (sub_time a b) ≡ ltb_ℤ (d +ℤ b) a
unfolding sub_time
sub_time-gt d a b hi lo = ground (arith, -ℤ_parts a b, +ℤ_parts d b)
