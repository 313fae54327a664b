-- ===== src/Prelude/Sort.antt =====
-- `sort.Ints`: the members in increasing order. The order of integers is total and antisymmetric, so
-- every sorting procedure returns this list.
use Prim.Native.Nat.{suc, ◌+◌}
use mathlib.Core.Bool.{Bool, true, false, ◌||◌}
use mathlib.Core.Logic.{inl, inr}
use mathlib.Core.List.{List, [], ◌∷◌}
use mathlib.Core.Path.{◌≡◌, refl, ap, ◌∙◌}
use native.Mathlib.Omega.{arith}
use nfs_verification.Prelude.Int.{ℤ, ◌≤ℤ◌, leb_ℤ}
use nfs_verification.Prelude.Lists.{All, count_if, has, length}
use nfs_verification.Prelude.Tests.{if◌then◌else◌, Bool-cases}

leb_ℤ-le : (a b : ℤ) → leb_ℤ a b ≡ true → a ≤ℤ b
leb_ℤ-le a b e = ground arith

leb_ℤ-gt : (a b : ℤ) → leb_ℤ a b ≡ false → b ≤ℤ a
leb_ℤ-gt a b e = ground arith

pub insert_int : ℤ → List ℤ → List ℤ
insert_int a [] = a ∷ []
insert_int a (b ∷ bs) = if leb_ℤ a b then a ∷ b ∷ bs else b ∷ insert_int a bs

unfoldable pub sort_ints : List ℤ → List ℤ
unfolding insert_int
sort_ints [] = []
sort_ints (a ∷ as_) = insert_int a (sort_ints as_)

-- Each member is at most every later one.
abbrev pub IsSorted : List ℤ → Type 0
IsSorted [] = Unit
IsSorted (a ∷ as_) = All (λ b. a ≤ℤ b) as_ × IsSorted as_

All-le_trans : (a b : ℤ) (cs : List ℤ) → a ≤ℤ b → All (λ c. b ≤ℤ c) cs → All (λ c. a ≤ℤ c) cs
All-le_trans a b [] h all = tt
All-le_trans a b (c ∷ cs) h all = (omega arith, All-le_trans a b cs h all.1)

All-insert_int :
    (a b : ℤ) (cs : List ℤ) → a ≤ℤ b → All (λ c. a ≤ℤ c) cs → All (λ c. a ≤ℤ c) (insert_int b cs)
unfolding insert_int
All-insert_int a b [] h all = (h, tt)
All-insert_int a b (c ∷ cs) h all = ground (arith, All-insert_int a b cs h all.1)

insert_int-IsSorted : (a : ℤ) (bs : List ℤ) → IsSorted bs → IsSorted (insert_int a bs)
unfolding insert_int
insert_int-IsSorted a [] s = (tt, tt)
insert_int-IsSorted a (b ∷ bs) s = elim (Bool-cases (leb_ℤ a b)) [
  | inl e ↦ rw e ((leb_ℤ-le a b e, All-le_trans a b bs (leb_ℤ-le a b e) s.0), s)
  | inr e ↦ rw e (All-insert_int b a bs (leb_ℤ-gt a b e) s.0, insert_int-IsSorted a bs s.1)
]

pub sort_ints-IsSorted : (as_ : List ℤ) → IsSorted (sort_ints as_)
unfolding sort_ints
sort_ints-IsSorted [] = tt
sort_ints-IsSorted (a ∷ as_) = insert_int-IsSorted a (sort_ints as_) (sort_ints-IsSorted as_)

count_if-insert_int :
    (p : ℤ → Bool) (a : ℤ) (bs : List ℤ)
    → count_if p (insert_int a bs) ≡ (if p a then 1 else 0) + count_if p bs
unfolding insert_int
count_if-insert_int p a [] = refl
count_if-insert_int p a (b ∷ bs) = ground (arith, count_if-insert_int p a bs)

-- Sorting keeps every member as often as it stood.
pub count_if-sort_ints : (p : ℤ → Bool) (as_ : List ℤ) → count_if p (sort_ints as_) ≡ count_if p as_
unfolding sort_ints
count_if-sort_ints p [] = refl
count_if-sort_ints p (a ∷ as_) =
    omega (arith, count_if-insert_int p a (sort_ints as_), count_if-sort_ints p as_)

has-insert_int : (p : ℤ → Bool) (a : ℤ) (bs : List ℤ) → has p (insert_int a bs) ≡ (p a || has p bs)
unfolding insert_int
has-insert_int p a [] = refl
has-insert_int p a (b ∷ bs) = ground (arith, has-insert_int p a bs)

pub has-sort_ints : (p : ℤ → Bool) (as_ : List ℤ) → has p (sort_ints as_) ≡ has p as_
unfolding sort_ints
has-sort_ints p [] = refl
has-sort_ints p (a ∷ as_) =
    has-insert_int p a (sort_ints as_) ∙ ap (◌||◌ (p a)) (has-sort_ints p as_)

length-insert_int : (a : ℤ) (bs : List ℤ) → length (insert_int a bs) ≡ suc (length bs)
unfolding insert_int
length-insert_int a [] = refl
length-insert_int a (b ∷ bs) = ground (arith, length-insert_int a bs)

pub length-sort_ints : (as_ : List ℤ) → length (sort_ints as_) ≡ length as_
unfolding sort_ints
length-sort_ints [] = refl
length-sort_ints (a ∷ as_) = length-insert_int a (sort_ints as_) ∙ ap suc (length-sort_ints as_)
