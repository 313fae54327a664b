-- ===== src/Sweep/Verdicts.antt =====
-- pkg/framework/sweep.go: counting and picking the verdicts of a sweep.
use mathlib.Core.Path.{subst}
use nfs_verification.Prelude.{
  ◌+◌, ◌≡◌, refl, sym, ◌∙◌, Bool, ◌&&◌, List, [], ◌∷◌, Option, none, if◌then◌else◌, arith, ℤ, ltb_ℤ,
  eq_ℤ, length, length-sort_ints, count_if, IsSorted, sort_ints-IsSorted, count_if-sort_ints,
  IsBest, best_from, best_from_all,
}
use nfs_verification.Sweep.{
  RecordVerdict, correct, absent, short, wrong, RecordResult, RecordSweep, same_verdict, count_in,
  count, indices_in, indices, first_wrong_from, first_wrong,
}

verdict_total :
    (v : RecordVerdict)
    → (if same_verdict v correct then 1 else 0)
        + (if same_verdict v absent then 1 else 0)
        + (if same_verdict v short then 1 else 0)
        + (if same_verdict v wrong then 1 else 0)
      ≡ 1
verdict_total correct = refl
verdict_total _ = refl

count_in-total :
    (rs : List RecordResult)
    → count_in correct rs + count_in absent rs + count_in short rs + count_in wrong rs ≡ length rs
unfolding count_in
count_in-total [] = refl
count_in-total (r ∷ rs) = omega (arith, verdict_total r.verdict, count_in-total rs)

-- The four verdicts are exhaustive and exclude one another: their counts add up to the number of
-- records.
pub count_total :
    (s : RecordSweep)
    → count s correct + count s absent + count s short + count s wrong ≡ length s.results
unfolding count
count_total s = count_in-total s.results

abbrev pub is_wrong : RecordResult → Bool
is_wrong r = same_verdict r.verdict wrong

abbrev pub lower : RecordResult → RecordResult → Bool
lower a b = ltb_ℤ a.index b.index

first_wrong_from-best_from :
    (rs : List RecordResult) (best : Option RecordResult)
    → first_wrong_from best rs ≡ best_from is_wrong lower best rs
unfolding first_wrong_from best_from
first_wrong_from-best_from [] best = refl
first_wrong_from-best_from (r ∷ rs) best = first_wrong_from-best_from rs _

-- `FirstWrong` finds nothing exactly where no record is wrong. What it finds is a wrong record with the
-- lowest index of all wrong ones, the first of those that share it.
pub first_wrong-IsBest : (s : RecordSweep) → IsBest is_wrong lower s.results (first_wrong s)
unfolding first_wrong
first_wrong-IsBest s =
    subst (IsBest is_wrong lower s.results) (sym (first_wrong_from-best_from s.results none))
      (best_from_all is_wrong lower (λ x y h. ground arith) (λ x b y h k. ground arith) s.results)

length-indices_in :
    (v : RecordVerdict) (rs : List RecordResult) → length (indices_in v rs) ≡ count_in v rs
unfolding indices_in count_in
length-indices_in v [] = refl
length-indices_in v (r ∷ rs) = ground (arith, length-indices_in v rs)

count_if-indices_in :
    (v : RecordVerdict) (i : ℤ) (rs : List RecordResult)
    → count_if (λ n. eq_ℤ n i) (indices_in v rs)
      ≡ count_if (λ r. same_verdict r.verdict v && eq_ℤ r.index i) rs
unfolding indices_in
count_if-indices_in v i [] = refl
count_if-indices_in v i (r ∷ rs) = ground (arith, count_if-indices_in v i rs)

-- `Indices` lists the indices of the records with a verdict in increasing order, each as often as the
-- sweep has it, and as many as `Count` counts.
pub indices_lem :
    (s : RecordSweep) (v : RecordVerdict)
    → IsSorted (indices s v)
      × (length (indices s v) ≡ count s v)
      × ((i : ℤ)
          → count_if (λ n. eq_ℤ n i) (indices s v)
            ≡ count_if (λ r. same_verdict r.verdict v && eq_ℤ r.index i) s.results)
unfolding indices count
indices_lem s v =
    let found = indices_in v s.results in
    (
      sort_ints-IsSorted found,
      length-sort_ints found ∙ length-indices_in v s.results,
      λ i. count_if-sort_ints (λ n. eq_ℤ n i) found ∙ count_if-indices_in v i s.results,
    )
