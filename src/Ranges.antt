-- ===== src/Ranges.antt =====
-- pkg/framework/ranges.go: a set of record numbers written as ranges.
pub mod Cover
use nfs_verification.Prelude.{
  ◌+◌, Bool, true, false, ◌||◌, List, [], ◌∷◌, ◌++◌, map, if◌then◌else◌, ℤ, pos, ◌+ℤ◌, eq_ℤ,
  sort_ints,
}
use nfs_verification.Text.{Text, codes, join}
use nfs_verification.Text.Number.{itoa}

-- From `start` to `prev`, as `flush` writes it.
pub record Range : Type 0 where
  pub start : ℤ
  pub prev : ℤ

-- The loop over the sorted numbers, from its two variables on; `flush` puts a range out.
pub ranges_from : ℤ → ℤ → List ℤ → List Range
ranges_from start prev [] = record { start = start; prev = prev } ∷ []
ranges_from start prev (n ∷ ns) =
    let extended = ranges_from start n ns in
    let flushed = ranges_from n n ns in
    if eq_ℤ n prev || eq_ℤ n (prev +ℤ pos 1)
    then extended
    else record { start = start; prev = prev } ∷ flushed

ranges_of : List ℤ → List Range
unfolding ranges_from
ranges_of [] = []
ranges_of (n ∷ ns) = ranges_from n n ns

pub ranges : List ℤ → List Range
unfolding ranges_of
ranges nums = ranges_of (sort_ints nums)

show_range : Range → Text
show_range r = if eq_ℤ r.start r.prev then itoa r.start else itoa r.start ++ (b'-' ∷ itoa r.prev)

unfoldable pub compact_ranges : List ℤ → Text
unfolding show_range ranges join
compact_ranges [] = codes "none"
compact_ranges (n ∷ ns) = join (codes ", ") (map show_range (ranges (n ∷ ns)))
