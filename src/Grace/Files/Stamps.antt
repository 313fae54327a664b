-- ===== src/Grace/Files/Stamps.antt =====
-- pkg/framework/serverlogfile.go, lines: the lines of one file, and whether its stamps can be believed.
pub mod Origins
use nfs_verification.Clock.{Time, Duration, before, seconds, sub_time}
use nfs_verification.Grace.Files.{ServerLogFile}
use nfs_verification.Grace.Observations.{LogLine, is_zero, zero_time}
use nfs_verification.Grace.Phrases.{Patterns, classify_grace}
use nfs_verification.Prelude.{
  ◌≡◌, refl, ◌^◌, Bool, true, false, not, ◌&&◌, ◌||◌, List, [], ◌∷◌, ◌++◌, Option, none, some,
  if◌then◌else◌, ◌==◌, ℤ, pos, ltb_ℤ, ◌-ℤ◌, All, Bool-cases, ◌⊎◌, inl, inr,
}
use nfs_verification.Text.{Text, is_empty, split, cut, trim_right}

abbrev pub server_log_tail_bytes : ℤ
server_log_tail_bytes = pos (2 ^ 20)

abbrev pub server_log_mtime_slack : Duration
server_log_mtime_slack = seconds 5

-- The entries of `gaps` for a file: grace is announced in lines without a stamp, the stamps are not the
-- ones the server wrote, and the file was read from its last bytes on.
pub data LogGap : Type 0 where
  no_stamps wrong_stamps only_tail : LogGap

-- The variables of the loop.
pub record FileLines : Type 0 where
  pub out : List LogLine
  pub newest : Time
  pub oldest : Time
  pub announces : Bool
  pub keep : Bool

-- Whether a time is in what is asked for.
pub in_window : Time → Time → Bool
in_window from at = is_zero from || not (before at from)

module _ (stamp_of : Text → Option (Time × Text)) (cfg : Patterns) (source : Text)
    (from : Time) where
  unstamped : Text → FileLines → FileLines
  unfolding classify_grace
  unstamped line s =
      let told : Bool = elim (classify_grace cfg line) [ none ↦ s.announces | some _ ↦ true ] in
      record s {
        announces = told;
        out =
            if s.keep
            then s.out ++ record { at = zero_time; text = line; source = source } ∷ []
            else s.out;
      }

  stamped : Time → Text → FileLines → FileLines
  unfolding in_window
  stamped at rest s = record {
    out =
        if in_window from at
        then s.out ++ record { at = at; text = rest; source = source } ∷ []
        else s.out;
    newest = if before s.newest at then at else s.newest;
    oldest = if is_zero s.oldest then at else s.oldest;
    announces = s.announces;
    keep = in_window from at;
  }

  line_with : Text → Option (Time × Text) → FileLines → FileLines
  unfolding stamped unstamped
  line_with line none s = unstamped line s
  line_with line (some (at, rest)) s = stamped at rest s

  file_line : Text → FileLines → FileLines
  unfolding line_with
  file_line line s = if is_empty line then s else line_with line (stamp_of line) s

  file_lines : List Text → FileLines → FileLines
  unfolding file_line trim_right
  file_lines [] s = s
  file_lines (raw ∷ ls) s = file_lines ls (file_line (trim_right (λ c. c == b'\r') raw) s)

abbrev pub no_lines : FileLines
no_lines = record {
  out = [];
  newest = zero_time;
  oldest = zero_time;
  announces = false;
  keep = false;
}

-- The body without the line that the read began in.
behind_first : Text → Text
behind_first body = elim (cut b'\n' body) [ none ↦ body | some (_, rest) ↦ rest ]

is_off : Duration → Bool
is_off d = ltb_ℤ server_log_mtime_slack d || ltb_ℤ d (pos 0 -ℤ server_log_mtime_slack)

-- The end of `lines`: what is used, whether the file is a log, and the gap.
judge_lines : Time → Time → Bool → FileLines → List LogLine × Bool × Option LogGap
unfolding is_off
judge_lines mtime from truncated s =
    if is_zero s.newest
    then ([], false, if s.announces then some no_stamps else none)
    else if is_off (sub_time s.newest mtime)
    then ([], false, some wrong_stamps)
    else (
      s.out,
      true,
      if truncated && not (is_zero from) && before from s.oldest then some only_tail else none,
    )

-- `lines`.
unfoldable pub lines_of :
    (Text → Option (Time × Text))
    → Patterns
    → Text
    → Time
    → ServerLogFile
    → List LogLine × Bool × Option LogGap
unfolding file_lines judge_lines behind_first
lines_of stamp_of cfg source from f =
    let truncated = ltb_ℤ server_log_tail_bytes f.size in
    let body = if truncated then behind_first f.body else f.body in
    judge_lines f.mtime from truncated
      (file_lines stamp_of cfg source from (split b'\n' body) no_lines)
