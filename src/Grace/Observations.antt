-- ===== src/Grace/Observations.antt =====
-- pkg/framework/grace.go: signals, and the window of a grace period.
use nfs_verification.Clock.{Time, Duration, before, after, sub_time}
use nfs_verification.Prelude.{
  Bool, not, ◌&&◌, List, [], ◌∷◌, Option, none, some, if◌then◌else◌, keep_if, pos, eq_ℤ, ◌+ℤ◌, ◌-ℤ◌,
}
use nfs_verification.Text.{Text}

pub record GraceSignal : Type 0 where
  pub at : Time
  pub is_exit : Bool
  pub line : Text
  pub source : Text

-- The two fields that the classification fills.
pub record GraceObservation : Type 0 where
  pub signals : List GraceSignal
  pub unclassified : List Text

pub record LogLine : Type 0 where
  pub at : Time
  pub text : Text
  pub source : Text

-- The zero `time.Time`, the first instant of year 1.
abbrev pub zero_time : Time
zero_time = pos 0 -ℤ pos 62135596800000000000

abbrev pub is_zero : Time → Bool
is_zero t = eq_ℤ t zero_time

-- `Entries`.
abbrev pub entries : GraceObservation → List GraceSignal
entries o = keep_if (λ s. not s.is_exit) o.signals

pub record GraceWindow : Type 0 where
  pub start : Time
  pub end : Time

-- The loop of `Window`, at the start of the window once one is found.
unfoldable pub window_from : Option Time → List GraceSignal → Option GraceWindow
window_from started [] = none
window_from none (s ∷ ss) = if s.is_exit then window_from none ss else window_from (some s.at) ss
window_from (some t) (s ∷ ss) =
    if s.is_exit && after s.at t
    then some (record { start = t; end = s.at })
    else window_from (some t) ss

-- `Window`, with `none` where its second result is false.
unfoldable pub window : GraceObservation → Option GraceWindow
unfolding window_from
window o = window_from none o.signals

-- `GraceWindow.Duration`.
abbrev pub duration : GraceWindow → Duration
duration w = sub_time w.end w.start

unfoldable pub firmly_contains : GraceWindow → Time → Duration → Bool
firmly_contains w t guard = after t (w.start +ℤ guard) && before t (w.end +ℤ (pos 0 -ℤ guard))
