-- ===== src/Metrics/Verdicts/Judging.antt =====
-- pkg/framework/metrics.go: the verdict of a comparison, read off the samples of the scrapes.
use mathlib.Core.Path.{ap₂}
use nfs_verification.Metrics.{MetricSet, name_of, series_of, metric_names, text_less}
use nfs_verification.Metrics.Verdicts.{
  MetricsVerdict, absent, never_resumed, resumed_reset, resumed_continuous, resumed_indeterminate,
  MetricScrapes, SeriesChanges, usable, after_names, series_changes, verdict_of, lost_names,
  compare_scrapes, only_verdict, compare_after, compare_before, classify_metrics,
}
use nfs_verification.Prelude.{
  ◌≡◌, refl, sym, ap, ◌∙◌, Bool, true, false, not, ◌||◌, List, [], ◌∷◌, map, Option, none, some,
  if◌then◌else◌, arith, has, has-append, keep_if, has-distinct,
}
use nfs_verification.Text.{Text, eq_text, is_empty}
use nfs_verification.Text.Equality.{eq_text_iff}
use nfs_verification.Metrics.Verdicts.Losses.{named, moved, fell, rose, series_changes-Tells}

or_false : (b : Bool) → (b || false) ≡ b
or_false true = refl
or_false false = refl

has-ext {ℓ} :
    {A : Type ℓ} (p q : A → Bool) (xs : List A) → ((x : A) → p x ≡ q x) → has p xs ≡ has q xs
has-ext p q [] h = refl
has-ext p q (x ∷ xs) h = ap₂ ◌||◌ (h x) (has-ext p q xs h)

module _ {ℓ} {F : Type ℓ} (less : F → F → Bool) where
  -- Whether a name of `before` is in neither scrape of the replacement.
  pub lost_name : MetricSet F → Option (MetricSet F) → Text × F → Bool
  unfolding named
  lost_name after exercised e =
      not (named less (name_of e.0) (some after) || named less (name_of e.0) exercised)

  has-map {κ μ} :
      {A : Type κ} {B : Type μ} (p : B → Bool) (f : A → B) (xs : List A)
      → has p (map f xs) ≡ has (λ x. p (f x)) xs
  has-map p f [] = refl
  has-map p f (x ∷ xs) = ap (◌||◌ (p (f x))) (has-map p f xs)

  has-metric_names :
      (m : MetricSet F) (p : Text → Bool)
      → has p (metric_names m) ≡ has (λ e. p (name_of e.0)) m.samples
  unfolding metric_names
  has-metric_names m p =
      has-distinct eq_text text_less eq_text_iff p _ ∙ has-map p (λ e. name_of e.0) m.samples

  has-series_of :
      (m : MetricSet F) (p : Text → Bool) → has p (series_of m) ≡ has (λ e. p e.0) m.samples
  unfolding series_of
  has-series_of m p =
      has-distinct eq_text text_less eq_text_iff p _ ∙ has-map p (λ e. e.0) m.samples

  has-after_names :
      (after : MetricSet F) (exercised : Option (MetricSet F)) (n : Text)
      → has (eq_text n) (after_names less after exercised)
        ≡ (named less n (some after) || named less n exercised)
  unfolding after_names named
  has-after_names after none n = has-metric_names after (eq_text n) ∙ sym (or_false _)
  has-after_names after (some e) n =
      has-append (eq_text n) (metric_names after) (metric_names e)
      ∙ ap₂ ◌||◌ (has-metric_names after (eq_text n)) (has-metric_names e (eq_text n))

  is_empty-keep_if {κ} :
      {A : Type κ} (p : A → Bool) (xs : List A) → is_empty (keep_if p xs) ≡ not (has p xs)
  is_empty-keep_if p [] = refl
  is_empty-keep_if p (x ∷ xs) = ground (arith, is_empty-keep_if p xs)

  is_empty-lost_names :
      (s : MetricScrapes F) (before after : MetricSet F)
      → is_empty (lost_names less s before after)
        ≡ not (has (lost_name after s.exercised) before.samples)
  unfolding lost_names lost_name
  is_empty-lost_names s before after =
      is_empty-keep_if _ (metric_names before)
      ∙ ap not (
          has-metric_names before _
          ∙ has-ext _ _ before.samples
              (λ e. ap not (has-after_names after s.exercised (name_of e.0))))

  -- The verdict of a comparison of two scrapes with samples.
  pub judged : MetricScrapes F → MetricSet F → MetricSet F → MetricsVerdict
  unfolding lost_name moved
  judged s before after =
      if has (lost_name after s.exercised) before.samples
      then never_resumed
      else if has (λ e. moved less (fell less) before after e.0) before.samples
      then resumed_reset
      else if has (λ e. moved less (rose less) before after e.0) before.samples
      then resumed_continuous
      else resumed_indeterminate

  verdict_tests :
      (x f r : Bool) (lost : List Text) (c : SeriesChanges F)
      → is_empty lost ≡ not x
      → is_empty c.reset ≡ not f
      → is_empty c.advanced ≡ not r
      → verdict_of less lost c ≡ (
          if x
          then never_resumed
          else if f
          then resumed_reset
          else if r
          then resumed_continuous
          else resumed_indeterminate)
  unfolding verdict_of
  verdict_tests true f r lost c hx hf hr = rw hx refl
  verdict_tests false true r lost c hx hf hr = rw (hx, hf) refl
  verdict_tests false false true lost c hx hf hr = rw (hx, hf, hr) refl
  verdict_tests false false false lost c hx hf hr = rw (hx, hf, hr) refl

  verdict-compare_scrapes :
      (s : MetricScrapes F) (before after : MetricSet F)
      → (compare_scrapes less s before after).verdict ≡ judged s before after
  unfolding compare_scrapes judged
  verdict-compare_scrapes s before after =
      let tells = series_changes-Tells less s before after (series_of before) in
      verdict_tests _ _ _ (lost_names less s before after)
        (series_changes less s before after (series_of before)) (is_empty-lost_names s before after)
        (tells.0 ∙ ap not (has-series_of before (moved less (fell less) before after)))
        (tells.1 ∙ ap not (has-series_of before (moved less (rose less) before after)))

  verdict_before :
      (s : MetricScrapes F) (b a : Option (MetricSet F))
      → (compare_before less s b a).verdict ≡ elim b [
        | none ↦ absent
        | some before ↦ elim a [ none ↦ never_resumed | some after ↦ judged s before after ]
      ]
  unfolding compare_before compare_after only_verdict
  verdict_before s none a = refl
  verdict_before s (some before) none = refl
  verdict_before s (some before) (some after) = verdict-compare_scrapes s before after

  -- The verdict, read off the samples: `absent` without samples before, `never_resumed` without samples
  -- after; then `never_resumed` if a name of a sample before is in no sample of either later scrape, else
  -- `resumed_reset` if a counter of both is lower after, else `resumed_continuous` if one is higher, else
  -- `resumed_indeterminate`.
  pub verdict-classify_metrics :
      (s : MetricScrapes F)
      → (classify_metrics less s).verdict ≡ elim (usable less s.before) [
        | none ↦ absent
        | some before ↦ elim (usable less s.after) [
          | none ↦ never_resumed
          | some after ↦ judged s before after
        ]
      ]
  unfolding classify_metrics compare_before compare_after compare_scrapes only_verdict
  verdict-classify_metrics s = verdict_before s (usable less s.before) (usable less s.after)
