-- ===== src/Load/Records.antt =====
-- pkg/framework/load.go: what the readings of a workload's records return.
use mathlib.Core.Path.{subst, fun_ext}
use nfs_verification.Clock.{Time, Duration, before, after, sub_time}
use nfs_verification.Load.{
  LoadRecord, LoadReport, indices, committed, attempted, committed_before, first_success_from,
  first_success_after, last_committed_from, last_committed, last_record_from, last_of, last_record,
  longest_gap_from, longest_gap_of, longest_gap,
}
use nfs_verification.Prelude.{
  ◌+◌, ◌≡◌, ◌⊎◌, inl, inr, refl, sym, ap, ◌∙◌, Bool, true, false, not, ◌&&◌, ◌||◌, List, [], ◌∷◌,
  ◌++◌, Option, none, some, if◌then◌else◌, Bool-cases, arith, ℤ, pos, ◌≤ℤ◌, keep_if, count_if,
  IsSorted, sort_ints, sort_ints-IsSorted, count_if-sort_ints, ltb_ℤ, leb_ℤ, eq_ℤ, ℕ, IsBest,
  best_step, best_from, best_from_all,
}

-- What passes in `FirstSuccessAfter`, and what it prefers.
abbrev pub success_since : Time → LoadRecord → Bool
success_since t rec = rec.is_ok && not (before rec.at t)

abbrev pub sooner : LoadRecord → LoadRecord → Bool
sooner a b = before a.at b.at

abbrev pub later : LoadRecord → LoadRecord → Bool
later a b = after a.at b.at

first_success_step :
    (t : Time) (best : Option LoadRecord) (rec : LoadRecord)
    → (if not rec.is_ok || before rec.at t then best else elim best [
      | none ↦ some rec
      | some b ↦ if before rec.at b.at then some rec else some b
    ])
      ≡ best_step (success_since t) sooner best rec
first_success_step t best rec = ground arith

first_success_from-best_from :
    (t : Time) (rs : List LoadRecord) (best : Option LoadRecord)
    → first_success_from t best rs ≡ best_from (success_since t) sooner best rs
unfolding first_success_from best_from
first_success_from-best_from t [] best = refl
first_success_from-best_from t (r ∷ rs) best =
    first_success_from-best_from t rs _
    ∙ ap (λ b. best_from (success_since t) sooner b rs) (first_success_step t best r)

-- `FirstSuccessAfter` finds nothing exactly where no committed write is at or after `t`. What it finds
-- is a committed write at or after `t`; every other such write in the log is later if it stands
-- before it, and not earlier if it stands behind it.
pub first_success_after-IsBest :
    (r : LoadReport) (t : Time)
    → IsBest (success_since t) sooner r.records (first_success_after r t)
unfolding first_success_after
first_success_after-IsBest r t =
    subst (IsBest (success_since t) sooner r.records)
      (sym (first_success_from-best_from t r.records none))
      (best_from_all (success_since t) sooner (λ x y h. ground arith) (λ x b y h k. ground arith)
        r.records)

last_committed_from-best_from :
    (rs : List LoadRecord) (best : Option LoadRecord)
    → last_committed_from best rs ≡ best_from (λ rec. rec.is_ok) later best rs
unfolding last_committed_from best_from
last_committed_from-best_from [] best = refl
last_committed_from-best_from (r ∷ rs) best = last_committed_from-best_from rs _

-- `LastCommitted` finds nothing exactly where no write was acknowledged. What it finds is an
-- acknowledged write; every other one is earlier if it stands before it in the log, and not later if
-- it stands behind it.
pub last_committed-IsBest :
    (r : LoadReport) → IsBest (λ rec. rec.is_ok) later r.records (last_committed r)
unfolding last_committed
last_committed-IsBest r =
    subst (IsBest (λ rec. rec.is_ok) later r.records)
      (sym (last_committed_from-best_from r.records none))
      (best_from_all (λ rec. rec.is_ok) later (λ x y h. ground arith) (λ x b y h k. ground arith)
        r.records)

some_if : (b : Bool) (x y : LoadRecord) → some (if b then x else y) ≡ (if b then some x else some y)
some_if true x y = refl
some_if false x y = refl

last_record_from-best_from :
    (rs : List LoadRecord) (last : LoadRecord)
    → some (last_record_from last rs) ≡ best_from (λ _. true) later (some last) rs
unfolding last_record_from best_from
last_record_from-best_from [] last = refl
last_record_from-best_from (r ∷ rs) last =
    last_record_from-best_from rs (if after r.at last.at then r else last)
    ∙ ap (λ b. best_from (λ _. true) later b rs) (some_if (after r.at last.at) r last)

last_of-best_from : (rs : List LoadRecord) → last_of rs ≡ best_from (λ _. true) later none rs
unfolding last_of best_from
last_of-best_from [] = refl
last_of-best_from (r ∷ rs) = last_record_from-best_from rs r

-- `LastRecord` finds nothing exactly in an empty log, and otherwise the attempt with the latest
-- stamp, failed ones included: the first in the log of those that share it.
pub last_record-IsBest : (r : LoadReport) → IsBest (λ _. true) later r.records (last_record r)
unfolding last_record
last_record-IsBest r =
    subst (IsBest (λ _. true) later r.records) (sym (last_of-best_from r.records)) (
      best_from_all (λ _. true) later (λ x y h. ground arith) (λ x b y h k. ground arith) r.records)

-- How often a number stands among the indices of the records that pass a test.
abbrev pub index_count : (LoadRecord → Bool) → ℤ → List LoadRecord → ℕ
index_count p i = count_if (λ rec. p rec && eq_ℤ rec.index i)

count_if-indices :
    (p : LoadRecord → Bool) (i : ℤ) (rs : List LoadRecord)
    → count_if (λ n. eq_ℤ n i) (indices (keep_if p rs)) ≡ index_count p i rs
count_if-indices p i [] = refl
count_if-indices p i (r ∷ rs) = ground (arith, count_if-indices p i rs)

both :
    (i : ℤ) (rs : List LoadRecord)
    → count_if (λ n. eq_ℤ n i) (indices rs)
      ≡ index_count (λ rec. rec.is_ok) i rs + index_count (λ rec. not rec.is_ok) i rs
both i [] = omega arith
both i (r ∷ rs) = ground (arith, both i rs)

-- The indices of the records that pass, sorted: each as often as the log has it.
IsSorted-indices :
    (p q : LoadRecord → Bool) (rs : List LoadRecord)
    → ((rec : LoadRecord) → p rec ≡ q rec)
    → IsSorted (sort_ints (indices (keep_if p rs)))
      × ((i : ℤ)
          → count_if (λ n. eq_ℤ n i) (sort_ints (indices (keep_if p rs))) ≡ index_count q i rs)
IsSorted-indices p q rs same =
    let found = indices (keep_if p rs) in
    (
      sort_ints-IsSorted found,
      λ i.
          count_if-sort_ints (λ n. eq_ℤ n i) found
          ∙ count_if-indices p i rs
          ∙ ap (λ s. index_count s i rs) (fun_ext same),
    )

-- `CommittedBefore` lists, in increasing order, the index of every write acknowledged at or before `t`
-- and no other index, each as often as the log has it.
pub committed_before_lem :
    (r : LoadReport) (t : Time)
    → IsSorted (committed_before r t)
      × ((i : ℤ)
          → count_if (λ n. eq_ℤ n i) (committed_before r t)
            ≡ index_count (λ rec. rec.is_ok && leb_ℤ rec.at t) i r.records)
unfolding committed_before
committed_before_lem r t = IsSorted-indices _ _ r.records (λ rec. ground arith)

-- `Committed` and `Attempted` list in increasing order the index of every acknowledged write and of
-- every attempt, each as often as the log has it; a failed attempt adds to the second alone.
pub committed-attempted :
    (r : LoadReport)
    → (IsSorted (committed r) × IsSorted (attempted r))
      × ((i : ℤ)
          → (count_if (λ n. eq_ℤ n i) (committed r) ≡ index_count (λ rec. rec.is_ok) i r.records)
            × (count_if (λ n. eq_ℤ n i) (attempted r)
                ≡ index_count (λ rec. rec.is_ok) i r.records
                  + index_count (λ rec. not rec.is_ok) i r.records))
unfolding committed attempted
committed-attempted r =
    let ok_part = IsSorted-indices (λ rec. rec.is_ok) (λ rec. rec.is_ok) r.records (λ rec. refl) in
    (
      (ok_part.0, sort_ints-IsSorted (indices r.records)),
      λ i. (ok_part.1 i, count_if-sort_ints (λ n. eq_ℤ n i) (indices r.records) ∙ both i r.records),
    )

-- The distance between two stamps that follow one another in the log is at most `d`.
abbrev GapsWithin : Duration → LoadRecord → List LoadRecord → Type 0
GapsWithin d prev [] = Unit
GapsWithin d prev (r ∷ rs) = (sub_time r.at prev.at ≤ℤ d) × GapsWithin d r rs

abbrev pub AllGapsWithin : Duration → List LoadRecord → Type 0
AllGapsWithin d [] = Unit
AllGapsWithin d (r ∷ rs) = GapsWithin d r rs

-- Two neighbours in the log stand exactly `d` apart.
abbrev pub HasGap : Duration → List LoadRecord → Type 0
HasGap d rs =
    (pre : List LoadRecord) × (a : LoadRecord) × (b : LoadRecord) × (post : List LoadRecord) × (rs
      ≡ pre ++ a ∷ b ∷ post)
    × (d ≡ sub_time b.at a.at)

HasGap-cons :
    (d : Duration) (r : LoadRecord) (rs : List LoadRecord) → HasGap d rs → HasGap d (r ∷ rs)
HasGap-cons d r rs (pre, a, b, post, e, f) = (r ∷ pre, a, b, post, ap (◌∷◌ r) e, f)

abbrev wider : Duration → Duration → Duration
wider longest d = if ltb_ℤ longest d then d else longest

wider_bounds : (l d : Duration) → (l ≤ℤ wider l d) × (d ≤ℤ wider l d)
wider_bounds l d = ground arith

longest_gap_from-bound :
    (rs : List LoadRecord) (longest : Duration) (prev : LoadRecord)
    → (longest ≤ℤ longest_gap_from longest prev rs)
      × GapsWithin (longest_gap_from longest prev rs) prev rs
unfolding longest_gap_from
longest_gap_from-bound [] longest prev = (omega arith, tt)
longest_gap_from-bound (r ∷ rs) longest prev =
    let d = sub_time r.at prev.at in
    let ih = longest_gap_from-bound rs (wider longest d) r in
    let w = wider_bounds longest d in (omega (arith, w.0, ih.0), (omega (arith, w.1, ih.0), ih.1))

longest_gap_from_attained :
    (rs : List LoadRecord) (longest : Duration) (prev : LoadRecord)
    → (longest_gap_from longest prev rs ≡ longest)
      ⊎ HasGap (longest_gap_from longest prev rs) (prev ∷ rs)
unfolding longest_gap_from
longest_gap_from_attained [] longest prev = inl refl
longest_gap_from_attained (r ∷ rs) longest prev =
    let d = sub_time r.at prev.at in
    elim (longest_gap_from_attained rs (wider longest d) r) [
      | inl e ↦ elim (Bool-cases (ltb_ℤ longest d)) [
        | inl w ↦ inr ([], prev, r, rs, refl, e ∙ rw w)
        | inr l ↦ inl (e ∙ rw l)
      ]
      | inr g ↦ inr (HasGap-cons _ prev (r ∷ rs) g)
    ]

longest_gap_of_lem :
    (rs : List LoadRecord)
    → (pos 0 ≤ℤ longest_gap_of rs)
      × AllGapsWithin (longest_gap_of rs) rs
      × ((longest_gap_of rs ≡ pos 0) ⊎ HasGap (longest_gap_of rs) rs)
unfolding longest_gap_of
longest_gap_of_lem [] = (omega arith, tt, inl refl)
longest_gap_of_lem (r ∷ rs) =
    let b = longest_gap_from-bound rs (pos 0) r in
    (b.0, b.1, longest_gap_from_attained rs (pos 0) r)

-- `LongestGap` is not negative, no two neighbours in the log stand further apart, and unless it is 0
-- some two stand exactly so far apart.
pub longest_gap_lem :
    (r : LoadReport)
    → (pos 0 ≤ℤ longest_gap r)
      × AllGapsWithin (longest_gap r) r.records
      × ((longest_gap r ≡ pos 0) ⊎ HasGap (longest_gap r) r.records)
unfolding longest_gap
longest_gap_lem r = longest_gap_of_lem r.records
