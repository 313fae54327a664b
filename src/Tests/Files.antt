-- ===== src/Tests/Files.antt =====
-- pkg/framework/serverlogfile.go on the output of a small read.
use nfs_verification.Clock.{Time, seconds, sub_time, unix}
use nfs_verification.Grace.Files.Stamps.{lines_of}
use nfs_verification.Grace.Files.Stamps.Origins.{ReadOf, Used, lines_of-Used}
use nfs_verification.Grace.Files.{
  ServerLogFile, bad_file, reported, parse_file_header, parse_server_log_read, split_server_stamp,
}
use nfs_verification.Grace.Observations.{zero_time}
use nfs_verification.Grace.Phrases.{Patterns, classify_grace}
use nfs_verification.Prelude.{
  ◌≡◌, refl, true, [], ◌∷◌, Option, none, some, All, pos, ◌-ℤ◌, if◌then◌else◌, scale,
}
use nfs_verification.Text.Number.{parse_int}
use nfs_verification.Text.{
  Text, codes, eq_text, split, split_by, cut, join, has_prefix, trim_prefix, trim_space, trim_right,
}

abbrev log_file : ServerLogFile
log_file = record {
  path = codes "/var/log/a b";
  size = pos 12;
  mtime = seconds 7;
  body = codes "7 in grace\n  more\n";
}

abbrev output : Text
output =
    codes
      "==FILE 12 7 /var/log/a b\n7 in grace\n  more\n\n==ENDFILE\n==ERROR none\n==FILE 9 8 /x\npart\n==BADFILE read error\n==END\n"

read_run : parse_server_log_read output ≡ record {
  files = log_file ∷ [];
  errors = reported (codes "none") ∷ bad_file (codes "/x") (codes "read error") ∷ [];
  complete = true;
}
unfolding parse_server_log_read parse_file_header parse_int split_by cut join has_prefix trim_prefix
    trim_space trim_right eq_text unix scale
read_run = refl

abbrev parse_time : Text → Option Time
parse_time stamp = if eq_text stamp (codes "7") then some (seconds 7) else none

abbrev no_ganesha : Text → Option Time
no_ganesha stamp = none

stamp_run :
    split_server_stamp parse_time no_ganesha (codes "7 in grace")
    ≡ some (seconds 7, codes "in grace")
unfolding split_server_stamp cut eq_text
stamp_run = refl

ganesha_run :
    split_server_stamp no_ganesha (λ stamp. some (seconds 9)) (codes "09/01/2024 10:00:00 : up")
    ≡ some (seconds 9, codes " : up")
unfolding split_server_stamp cut
ganesha_run = refl

abbrev no_patterns : Patterns
no_patterns = (none, none)

lines_run :
    lines_of
      (split_server_stamp parse_time no_ganesha)
      no_patterns
      (codes "srv")
      (seconds 7)
      log_file
    ≡ (
      record { at = seconds 7; text = codes "in grace"; source = codes "srv" }
          ∷ record { at = zero_time; text = codes "  more"; source = codes "srv" }
          ∷ [],
      true,
      none,
    )
unfolding lines_of split_server_stamp cut eq_text split_by trim_right classify_grace sub_time ◌-ℤ◌
lines_run = refl

abbrev stamp_of : Text → Option (Time × Text)
stamp_of = split_server_stamp parse_time no_ganesha

lines_of-Used_example :
    (body : Text) × ReadOf stamp_of no_patterns (codes "srv") (seconds 7) log_file body
    × All
        (Used stamp_of no_patterns (codes "srv") (seconds 7) (split b'\n' body))
        (lines_of stamp_of no_patterns (codes "srv") (seconds 7) log_file).0
lines_of-Used_example = lines_of-Used stamp_of no_patterns (codes "srv") (seconds 7) log_file
