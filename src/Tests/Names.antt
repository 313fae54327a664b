-- ===== src/Tests/Names.antt =====
-- pkg/framework/ranges.go, scripts.go, exec.go and framework.go, and pkg/slo/slo.go on concrete names and
-- numbers.
use nfs_verification.Clock.{seconds}
use nfs_verification.Prelude.{
  ◌≡◌, ◌≢◌, refl, true, false, List, [], ◌∷◌, some, ℤ, pos, ◌+ℤ◌, ◌≤ℤ◌, ◌<ℤ◌, eq_ℤ, has, ◌≤◌,
  length, All, sort_ints,
}
use nfs_verification.Ranges.Cover.{in_range, Apart, ranges-covers}
use nfs_verification.Ranges.{ranges, compact_ranges}
use nfs_verification.Shell.Names.{check_script_id-safe}
use nfs_verification.Shell.Quoting.{read_words, read_words-command_line}
use nfs_verification.Shell.{
  check_script_id, is_id_char, command_line, script_path, object_name, case_prefix,
}
use nfs_verification.Slo.Bounds.{grace_exit_bound-match_profile}
use nfs_verification.Slo.{
  tuned, match_profile, by_name, grace_exit_bound, lock_release_bound, clock_skew_guard,
}
use nfs_verification.Text.Number.{itoa}
use nfs_verification.Text.{codes, has_prefix, to_lower}

abbrev lost : List ℤ
lost = pos 7 ∷ pos 3 ∷ pos 4 ∷ pos 5 ∷ pos 9 ∷ pos 4 ∷ []

lost_run : compact_ranges lost ≡ codes "3-5, 7, 9"
unfolding compact_ranges itoa sort_ints ◌+ℤ◌
lost_run = refl

ranges-covers_example :
    (has (in_range (pos 4)) (ranges lost) ≡ has (λ m. eq_ℤ m (pos 4)) lost) × Apart (ranges lost)
ranges-covers_example = ranges-covers lost (pos 4)

read_words-command_line_example :
    read_words (command_line (codes "probe.sh") (codes "x1") (codes "it's $HOME; rm" ∷ [] ∷ []))
    ≡ some (
        codes "sh" ∷ script_path (codes "probe.sh") (codes "x1") ∷ codes "it's $HOME; rm" ∷ [] ∷ [])
read_words-command_line_example =
    read_words-command_line (codes "probe.sh") (codes "x1") (codes "it's $HOME; rm" ∷ [] ∷ [])

check_script_id-safe_example :
    (1 ≤ length (codes "a.b-1"))
    × (length (codes "a.b-1") ≤ 64)
    × All (λ c. (c ≢ b'/') × (c ≢ b' ') × (c ≢ b'\'') × (is_id_char c ≡ true)) (codes "a.b-1")
    × (has_prefix (codes "a.b-1") (codes ".") ≡ false)
unfolding check_script_id
check_script_id-safe_example = check_script_id-safe (codes "a.b-1") refl

path_refused : check_script_id (codes "../x") ≡ false
unfolding check_script_id
path_refused = refl

object_name_run :
    object_name (codes "DATA_01") (codes "R1") (codes "Writer") ≡ codes "nfsv-data-01-r1-writer"
unfolding object_name case_prefix to_lower has_prefix
object_name_run = refl

tuned_run : match_profile (seconds 20) (seconds 30) ≡ some tuned
unfolding match_profile
tuned_run = refl

grace_exit_bound-match_profile_example :
    (seconds 30 +ℤ clock_skew_guard ≤ℤ grace_exit_bound tuned)
    × (lock_release_bound tuned <ℤ seconds 30)
    × (by_name tuned.name ≡ some tuned)
grace_exit_bound-match_profile_example =
    grace_exit_bound-match_profile (seconds 20) (seconds 30) {p = tuned} tuned_run
