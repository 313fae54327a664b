-- ===== src/Grace/Streams.antt =====
-- pkg/framework/grace.go: from the log stream to the signals.
use nfs_verification.Grace.Observations.{GraceObservation, GraceSignal, LogLine, is_zero, zero_time}
use nfs_verification.Grace.Phrases.{Patterns, classify_grace, mentions_grace}
use nfs_verification.Clock.{Time, before, sub_time}
use nfs_verification.Prelude.{
  Bool, not, ◌&&◌, ◌||◌, List, [], ◌∷◌, ◌++◌, Option, none, some, ◌==◌, if◌then◌else◌, has, pos,
  ltb_ℤ, ◌-ℤ◌,
}
use nfs_verification.Slo.{clock_skew_guard}
use nfs_verification.Text.{Text, eq_text, is_empty, split, trim_space, trim_right, has_suffix, cut}

-- `splitLogTimestamp`, over `time.Parse` at RFC 3339.
unfoldable pub split_log_timestamp : (Text → Option Time) → Text → Option (Time × Text)
unfolding cut
split_log_timestamp parse_time line = elim (cut b' ' line) [
  | none ↦ none
  | some (stamp, rest) ↦ elim (parse_time stamp) [ none ↦ none | some at ↦ some (at, rest) ]
]

-- What `parseLogStream` keeps of one line.
stream_line : (Text → Option Time) → Text → Time → Text → List LogLine
unfolding split_log_timestamp
stream_line parse_time source since line = elim (split_log_timestamp parse_time line) [
  | none ↦ record { at = zero_time; text = line; source = source } ∷ []
  | some (at, rest) ↦
      if not (is_zero since) && before at since
      then []
      else record { at = at; text = rest; source = source } ∷ []
]

stream_lines : (Text → Option Time) → Text → Time → List Text → List LogLine
unfolding stream_line trim_right
stream_lines parse_time source since [] = []
stream_lines parse_time source since (raw ∷ ls) =
    let line = trim_right (λ c. c == b'\r') raw in
    let rest = stream_lines parse_time source since ls in
    if is_empty line then rest else stream_line parse_time source since line ++ rest

-- `parseLogStream`.
unfoldable pub parse_log_stream : (Text → Option Time) → Text → Text → Time → List LogLine
unfolding stream_lines
parse_log_stream parse_time raw source since =
    stream_lines parse_time source since (split b'\n' raw)

-- The body of the loop of `sameAnnouncement`.
unfoldable pub announces : GraceSignal → GraceSignal → Bool
unfolding eq_text has_suffix
announces s o =
    (if o.is_exit then s.is_exit else not s.is_exit)
    && not (eq_text o.source s.source)
    && not (ltb_ℤ clock_skew_guard (sub_time o.at s.at))
    && not (ltb_ℤ (sub_time o.at s.at) (pos 0 -ℤ clock_skew_guard))
    && (has_suffix o.line s.line || has_suffix s.line o.line)

abbrev pub same_announcement : List GraceSignal → GraceSignal → Bool
same_announcement signals s = has (announces s) signals

abbrev pub signal_of : LogLine → Bool → GraceSignal
signal_of l e = record { at = l.at; is_exit = e; line = trim_space l.text; source = l.source }

-- A classified line, as one more signal unless it is announced already.
unfoldable pub add_signal : GraceSignal → GraceObservation → GraceObservation
unfolding announces
add_signal s o =
    if same_announcement o.signals s then o else record o { signals = o.signals ++ s ∷ [] }

unfoldable pub add_unclassified : Text → GraceObservation → GraceObservation
unfolding mentions_grace
add_unclassified text o =
    if mentions_grace text then record o { unclassified = o.unclassified ++ text ∷ [] } else o

-- One turn of the loop of `classifyGraceLines`.
unfoldable pub observe_line : Patterns → LogLine → GraceObservation → GraceObservation
unfolding classify_grace add_signal add_unclassified
observe_line cfg l o = elim (classify_grace cfg l.text) [
  | none ↦ add_unclassified l.text o
  | some e ↦ if is_zero l.at then add_unclassified l.text o else add_signal (signal_of l e) o
]

unfoldable pub observe_lines : Patterns → List LogLine → GraceObservation → GraceObservation
unfolding observe_line
observe_lines cfg [] o = o
observe_lines cfg (l ∷ ls) o = observe_lines cfg ls (observe_line cfg l o)

-- `classifyGraceLines`, over the sort of the signals by time.
unfoldable pub classify_grace_lines :
    (List GraceSignal → List GraceSignal) → Patterns → List LogLine → GraceObservation
unfolding observe_lines
classify_grace_lines sort_signals cfg lines =
    let o = observe_lines cfg lines (record { signals = []; unclassified = [] }) in
    record o { signals = sort_signals o.signals }
