-- ===== src/Grace/Files.antt =====
-- pkg/framework/serverlogfile.go: the log files of a server's process, as scripts/server-log.sh prints them.
pub mod Stamps
use nfs_verification.Clock.{Time, Duration, before, seconds, sub_time, unix}
use nfs_verification.Grace.Observations.{LogLine, is_zero, zero_time}
use nfs_verification.Grace.Phrases.{Patterns, classify_grace}
use nfs_verification.Grace.Streams.{split_log_timestamp}
use nfs_verification.Prelude.{
  ℕ, Bool, true, false, not, ◌&&◌, ◌||◌, List, [], ◌∷◌, ◌++◌, Option, none, some, if◌then◌else◌,
  ◌==◌, length, ltb, ℤ, pos, ltb_ℤ, ◌-ℤ◌, take, drop,
}
use nfs_verification.Text.Number.{parse_int}
use nfs_verification.Text.{
  Text, codes, eq_text, is_empty, split, cut, join, has_prefix, trim_prefix, trim_space, trim_right,
}

-- `serverLogFile`.
pub record ServerLogFile : Type 0 where
  pub path : Text
  pub size : ℤ
  pub mtime : Time
  pub body : Text

-- The entries of `errors`: a file whose read failed, a header that cannot be read, and what the script
-- reports.
pub data LogReadError : Type 0 where
  bad_file : Text → Text → LogReadError
  bad_header : Text → LogReadError
  reported : Text → LogReadError

-- `serverLogRead`.
pub record ServerLogRead : Type 0 where
  pub files : List ServerLogFile
  pub errors : List LogReadError
  pub complete : Bool

header_with : Option ℤ → Option ℤ → Text → Option ServerLogFile
header_with (some size) (some mtime) path =
    some (record { path = path; size = size; mtime = unix mtime; body = [] })
header_with _ _ path = none

header_behind : Text → Option (Text × Text) → Option ServerLogFile
unfolding header_with
header_behind size none = none
header_behind size (some (mtime, path)) = header_with (parse_int size) (parse_int mtime) path

-- `parseFileHeader`; `none` is an error.
unfoldable pub parse_file_header : Text → Option ServerLogFile
unfolding header_behind cut
parse_file_header h = elim (cut b' ' h) [
  | none ↦ none
  | some (size, rest) ↦ header_behind size (cut b' ' rest)
]

-- What is read so far: `r`, and the file that is open with the lines of it.
pub record LogReading : Type 0 where
  pub read : ServerLogRead
  pub current : Option ServerLogFile
  pub lines : List Text

add_error : LogReadError → ServerLogRead → ServerLogRead
add_error e r = record r { errors = r.errors ++ e ∷ [] }

-- A line behind a header.
pub in_file : ServerLogFile → Text → LogReading → LogReading
unfolding add_error
in_file f line r =
    if eq_text line (codes "==ENDFILE")
    then record {
      read = record r.read {
        files = r.read.files ++ record f { body = join (codes "\n") r.lines } ∷ [];
      };
      current = none;
      lines = [];
    }
    else if has_prefix line (codes "==BADFILE")
    then record {
      read = add_error (bad_file f.path (trim_space (trim_prefix line (codes "==BADFILE")))) r.read;
      current = none;
      lines = [];
    }
    else record r { lines = r.lines ++ line ∷ [] }

opened : Text → Option ServerLogFile → LogReading → LogReading
unfolding add_error
opened h none r = record r { read = add_error (bad_header h) r.read }
opened h (some f) r = record r { current = some f }

-- A line between two files.
pub out_of_file : Text → LogReading → LogReading
unfolding opened add_error
out_of_file line r =
    if has_prefix line (codes "==FILE ")
    then opened (trim_prefix line (codes "==FILE "))
        (parse_file_header (trim_prefix line (codes "==FILE "))) r
    else if has_prefix line (codes "==ERROR ")
    then record r { read = add_error (reported (trim_prefix line (codes "==ERROR "))) r.read }
    else if eq_text line (codes "==END")
    then record r { read = record r.read { complete = true } }
    else r

pub log_read_line : Text → LogReading → LogReading
unfolding in_file out_of_file
log_read_line line r = elim r.current [ none ↦ out_of_file line r | some f ↦ in_file f line r ]

pub log_read_lines : List Text → LogReading → LogReading
unfolding log_read_line
log_read_lines [] r = r
log_read_lines (raw ∷ ls) r = log_read_lines ls (log_read_line (trim_right (λ c. c == b'\r') raw) r)

abbrev pub no_reading : LogReading
no_reading = record {
  read = record { files = []; errors = []; complete = false };
  current = none;
  lines = [];
}

-- `parseServerLogRead`.
unfoldable pub parse_server_log_read : Text → ServerLogRead
unfolding log_read_lines
parse_server_log_read out = (log_read_lines (split b'\n' out) no_reading).read

-- `splitServerStamp`, over `time.Parse` at RFC 3339 and `time.ParseInLocation` at Ganesha's layout. The
-- layout has 19 characters, all of them ASCII.
unfoldable pub split_server_stamp :
    (Text → Option Time) → (Text → Option Time) → Text → Option (Time × Text)
unfolding split_log_timestamp
split_server_stamp parse_time parse_ganesha line = elim (split_log_timestamp parse_time line) [
  | some (at, rest) ↦ some (at, rest)
  | none ↦
      if ltb (length line) 19
      then none
      else elim (parse_ganesha (take 19 line)) [ none ↦ none | some at ↦ some (at, drop 19 line) ]
]
