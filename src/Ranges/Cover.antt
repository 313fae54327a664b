-- ===== src/Ranges/Cover.antt =====
-- pkg/framework/ranges.go: ranges against the numbers they are made from.
use nfs_verification.Prelude.{
  ◌≡◌, refl, ap, ◌∙◌, Bool, true, false, ◌&&◌, ◌||◌, List, [], ◌∷◌, Bool-cases, inl, inr, arith, ℤ,
  pos, ◌+ℤ◌, +ℤ_parts, ◌≤ℤ◌, eq_ℤ, leb_ℤ, sort_ints, IsSorted, sort_ints-IsSorted, has,
  has-sort_ints,
}
use nfs_verification.Ranges.{Range, ranges_from, ranges_of, ranges}

-- A number lies in a range.
abbrev pub in_range : ℤ → Range → Bool
in_range n r = leb_ℤ r.start n && leb_ℤ n r.prev

abbrev spans : ℤ → ℤ → ℤ → Bool
spans lo hi n = leb_ℤ lo n && leb_ℤ n hi

spans_extended :
    (start prev m n : ℤ)
    → prev ≤ℤ m
    → start ≤ℤ prev
    → (eq_ℤ m prev || eq_ℤ m (prev +ℤ pos 1)) ≡ true
    → spans start m n ≡ (spans start prev n || eq_ℤ m n)
spans_extended start prev m n h k e = ground (arith, +ℤ_parts prev (pos 1))

has-ranges_from :
    (n : ℤ) (ns : List ℤ) (start prev : ℤ)
    → start ≤ℤ prev
    → IsSorted (prev ∷ ns)
    → has (in_range n) (ranges_from start prev ns) ≡ (spans start prev n || has (λ m. eq_ℤ m n) ns)
unfolding ranges_from
has-ranges_from n [] start prev h s = refl
has-ranges_from n (m ∷ ns) start prev h s =
    elim (Bool-cases (eq_ℤ m prev || eq_ℤ m (prev +ℤ pos 1))) [
      | inl e ↦ rw e (
          has-ranges_from n ns start m (omega (arith, s.0.0)) s.1
          ∙ ground (arith, spans_extended start prev m n s.0.0 h e))
      | inr e ↦ rw e (ground (arith, has-ranges_from n ns m m (omega arith) s.1))
    ]

-- The ranges start at `low` or above, each is in order, and between two that follow one another there
-- is a number that neither holds.
abbrev pub ApartFrom : ℤ → List Range → Type 0
ApartFrom low [] = Unit
ApartFrom low (r ∷ rs) = (low ≤ℤ r.start) × (r.start ≤ℤ r.prev) × ApartFrom (r.prev +ℤ pos 2) rs

abbrev pub Apart : List Range → Type 0
Apart [] = Unit
Apart (r ∷ rs) = (r.start ≤ℤ r.prev) × ApartFrom (r.prev +ℤ pos 2) rs

next_apart :
    (prev m : ℤ) → prev ≤ℤ m → (eq_ℤ m prev || eq_ℤ m (prev +ℤ pos 1)) ≡ false → prev +ℤ pos 2 ≤ℤ m
next_apart prev m h e = ground (arith, +ℤ_parts prev (pos 1), +ℤ_parts prev (pos 2))

ranges_from-ApartFrom :
    (ns : List ℤ) (low start prev : ℤ)
    → low ≤ℤ start
    → start ≤ℤ prev
    → IsSorted (prev ∷ ns)
    → ApartFrom low (ranges_from start prev ns)
unfolding ranges_from
ranges_from-ApartFrom [] low start prev l h s = (l, h, tt)
ranges_from-ApartFrom (m ∷ ns) low start prev l h s =
    elim (Bool-cases (eq_ℤ m prev || eq_ℤ m (prev +ℤ pos 1))) [
      | inl e ↦ rw e (ranges_from-ApartFrom ns low start m l (omega (arith, s.0.0)) s.1)
      | inr e ↦ rw e (
        l,
        h,
        ranges_from-ApartFrom ns (prev +ℤ pos 2) m m (next_apart prev m s.0.0 e) (omega arith) s.1,
      )
    ]

Apart-of_ApartFrom : (low : ℤ) (rs : List Range) → ApartFrom low rs → Apart rs
Apart-of_ApartFrom low [] h = tt
Apart-of_ApartFrom low (r ∷ rs) h = (h.1, h.2)

ranges_of-covers :
    (n : ℤ) (ns : List ℤ)
    → IsSorted ns
    → (has (in_range n) (ranges_of ns) ≡ has (λ m. eq_ℤ m n) ns) × Apart (ranges_of ns)
unfolding ranges_of
ranges_of-covers n [] s = (refl, tt)
ranges_of-covers n (m ∷ ns) s = (
  has-ranges_from n ns m m (omega arith) s ∙ ap (λ b. b || has (λ k. eq_ℤ k n) ns) (at_one m n),
  Apart-of_ApartFrom m _ (ranges_from-ApartFrom ns m m m (omega arith) (omega arith) s),
)
  where
    at_one : (m n : ℤ) → spans m m n ≡ eq_ℤ m n
    at_one m n = ground arith

-- For every list of numbers, in any order and with repetitions: a number lies in one of the ranges
-- exactly where it is in the list, each range is in order, and each begins at least two above the end of
-- the range before it, so that no two could be one.
pub ranges-covers :
    (nums : List ℤ) (n : ℤ)
    → (has (in_range n) (ranges nums) ≡ has (λ m. eq_ℤ m n) nums) × Apart (ranges nums)
unfolding ranges
ranges-covers nums n =
    let c = ranges_of-covers n (sort_ints nums) (sort_ints-IsSorted nums) in
    (c.0 ∙ has-sort_ints (λ m. eq_ℤ m n) nums, c.1)
