-- ===== src/Census/Entries.antt =====
-- pkg/framework/dircensus.go: the names that a listing returned.
use nfs_verification.Holders.Picks.{path_base}
use nfs_verification.Prelude.{
  ℕ, suc, Bool, true, false, not, ◌&&◌, List, [], ◌∷◌, Option, none, some, if◌then◌else◌, ℤ, pos,
  ltb_ℤ,
}
use nfs_verification.Text.{Text, codes, is_empty, split, trim_space, has_prefix, trim_prefix}
use nfs_verification.Text.Number.{parse_int, is_digit}

all_digits : Text → Bool
unfolding is_digit
all_digits [] = true
all_digits (c ∷ s) = is_digit c && all_digits s

-- `dirEntry`: `e-` and one digit or more; then the number is read.
entry_number : Text → Option ℤ
unfolding all_digits
entry_number name =
    let digits = trim_prefix name (codes "e-") in
    if has_prefix name (codes "e-") && not (is_empty digits) && all_digits digits
    then parse_int digits
    else none

-- Whether a name is one that the populate step created.
pub was_created : ℤ → Text → Bool
unfolding entry_number
was_created created name = elim (entry_number name) [
  | none ↦ false
  | some i ↦ not (ltb_ℤ i (pos 1)) && not (ltb_ℤ created i)
]

pub classify_lines : ℤ → List Text → ℕ × List Text
unfolding was_created path_base
classify_lines created [] = (0, [])
classify_lines created (l ∷ ls) =
    let (listed, unknown) = classify_lines created ls in
    let name = path_base (trim_space l) in
    if is_empty (trim_space l)
    then (listed, unknown)
    else if was_created created name
    then (suc listed, unknown)
    else (suc listed, name ∷ unknown)

-- `ClassifyEntries`.
unfoldable pub classify_entries : ℤ → Text → ℕ × List Text
unfolding classify_lines
classify_entries created listing = classify_lines created (split b'\n' listing)
