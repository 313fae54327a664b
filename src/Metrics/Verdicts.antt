-- ===== src/Metrics/Verdicts.antt =====
-- pkg/framework/metrics.go: the scrapes on either side of a restart, and what they say together.
pub mod Losses
pub mod Judging
use nfs_verification.Metrics.{
  MetricSet, name_of, lookup, has_key, series_of, metric_names, is_counter, text_less,
}
use nfs_verification.Prelude.{
  ℕ, Bool, true, false, not, ◌&&◌, ◌||◌, List, [], ◌∷◌, ◌++◌, map, Option, none, some,
  if◌then◌else◌, distinct, has, keep_if,
}
use nfs_verification.Text.{Text, codes, eq_text, is_empty}

-- `MetricsVerdict`.
pub data MetricsVerdict : Type 0 where
  absent never_resumed resumed_reset resumed_continuous resumed_indeterminate : MetricsVerdict

-- `CounterChange`.
pub record CounterChange {ℓ} (F : Type ℓ) : Type ℓ where
  pub series : Text
  pub before : F
  pub after : F

-- `MetricScrapes`; `none` is a scrape that did not happen.
pub record MetricScrapes {ℓ} (F : Type ℓ) : Type ℓ where
  pub idle : Option (MetricSet F)
  pub before : Option (MetricSet F)
  pub after : Option (MetricSet F)
  pub exercised : Option (MetricSet F)

-- The lists of `MetricsComparison` that are filled series by series.
pub record SeriesChanges {ℓ} (F : Type ℓ) : Type ℓ where
  pub touched : List Text
  pub lost_series : List Text
  pub lost_touched_series : List Text
  pub reset : List (CounterChange F)
  pub advanced : List (CounterChange F)
  pub unchanged : List (CounterChange F)

-- `MetricsComparison`, less the scrapes themselves and what the caller sets.
pub record MetricsComparison {ℓ} (F : Type ℓ) : Type ℓ where
  pub verdict : MetricsVerdict
  pub lost_metric_names : List Text
  pub new_metric_names : List Text
  pub changes : SeriesChanges F

module _ {ℓ} {F : Type ℓ} (less : F → F → Bool) where
  abbrev pub no_changes : SeriesChanges F
  no_changes = record {
    touched = [];
    lost_series = [];
    lost_touched_series = [];
    reset = [];
    advanced = [];
    unchanged = [];
  }

  -- Whether a scrape was taken and has samples.
  pub usable : Option (MetricSet F) → Option (MetricSet F)
  usable none = none
  usable (some m) = if is_empty m.samples then none else some m

  advanced_since : MetricSet F → Text → Option F → Option F → Bool
  advanced_since before key (some was) (some now) = is_counter before key && less was now
  advanced_since before key none _ = true
  advanced_since before key (some was) none = false

  -- `touchedSeries`, at one series of `before`.
  pub is_touched : Option (MetricSet F) → MetricSet F → Text → Bool
  unfolding usable advanced_since lookup
  is_touched idle before key = elim (usable idle) [
    | none ↦ false
    | some i ↦ advanced_since before key (lookup key i.samples) (lookup key before.samples)
  ]

  -- `published`.
  pub is_published : MetricSet F → Option (MetricSet F) → Text → Bool
  is_published after none key = has_key key after.samples
  is_published after (some e) key = has_key key after.samples || has_key key e.samples

  -- The names of `afterNames`.
  pub after_names : MetricSet F → Option (MetricSet F) → List Text
  after_names after none = metric_names after
  after_names after (some e) = metric_names after ++ metric_names e

  add_change : Text → F → F → SeriesChanges F → SeriesChanges F
  add_change key was now rest =
      let change : CounterChange F = record { series = key; before = was; after = now } in
      if less now was
      then record rest { reset = change ∷ rest.reset }
      else if less was now
      then record rest { advanced = change ∷ rest.advanced }
      else record rest { unchanged = change ∷ rest.unchanged }

  -- A counter that both scrapes have.
  compare_counter : MetricSet F → MetricSet F → Text → SeriesChanges F → SeriesChanges F
  unfolding add_change lookup
  compare_counter before after key rest =
      if is_counter before key
      then elim (lookup key before.samples) [
        | none ↦ rest
        | some was ↦ elim (lookup key after.samples) [
          | none ↦ rest
          | some now ↦ add_change key was now rest
        ]
      ]
      else rest

  add_touched : Bool → Text → SeriesChanges F → SeriesChanges F
  add_touched true key rest = record rest { touched = key ∷ rest.touched }
  add_touched false key rest = rest

  add_lost : Bool → Bool → Text → SeriesChanges F → SeriesChanges F
  add_lost true true key rest = record rest {
    lost_series = key ∷ rest.lost_series;
    lost_touched_series = key ∷ rest.lost_touched_series;
  }
  add_lost true false key rest = record rest { lost_series = key ∷ rest.lost_series }
  add_lost false _ key rest = rest

  -- One series of `before`.
  series_change :
      MetricScrapes F → MetricSet F → MetricSet F → Text → SeriesChanges F → SeriesChanges F
  unfolding add_touched add_lost compare_counter is_touched is_published after_names name_of
  series_change s before after key rest =
      let touched = is_touched s.idle before key in
      let survives = has (eq_text (name_of key)) (after_names after s.exercised) in
      add_touched touched key (
        if is_published after s.exercised key
        then compare_counter before after key rest
        else add_lost survives touched key rest)

  pub series_changes : MetricScrapes F → MetricSet F → MetricSet F → List Text → SeriesChanges F
  unfolding series_change
  series_changes s before after [] = no_changes
  series_changes s before after (key ∷ keys) =
      series_change s before after key (series_changes s before after keys)

  verdict_of : List Text → SeriesChanges F → MetricsVerdict
  verdict_of lost c =
      if not (is_empty lost)
      then never_resumed
      else if not (is_empty c.reset)
      then resumed_reset
      else if not (is_empty c.advanced)
      then resumed_continuous
      else resumed_indeterminate

  pub lost_names : MetricScrapes F → MetricSet F → MetricSet F → List Text
  unfolding after_names
  lost_names s before after =
      keep_if (λ n. not (has (eq_text n) (after_names after s.exercised))) (metric_names before)

  new_names : MetricScrapes F → MetricSet F → MetricSet F → List Text
  unfolding after_names
  new_names s before after =
      keep_if (λ n. not (has (eq_text n) (metric_names before)))
        (distinct eq_text text_less (after_names after s.exercised))

  -- `ClassifyMetrics` behind the two early returns.
  compare_scrapes : MetricScrapes F → MetricSet F → MetricSet F → MetricsComparison F
  unfolding verdict_of lost_names new_names series_changes
  compare_scrapes s before after =
      let lost = lost_names s before after in
      let changes = series_changes s before after (series_of before) in
      record {
        verdict = verdict_of lost changes;
        lost_metric_names = lost;
        new_metric_names = new_names s before after;
        changes = changes;
      }

  only_verdict : MetricsVerdict → MetricsComparison F
  only_verdict v = record {
    verdict = v;
    lost_metric_names = [];
    new_metric_names = [];
    changes = no_changes;
  }

  compare_after : MetricScrapes F → MetricSet F → Option (MetricSet F) → MetricsComparison F
  unfolding compare_scrapes only_verdict
  compare_after s before none = only_verdict never_resumed
  compare_after s before (some after) = compare_scrapes s before after

  compare_before :
      MetricScrapes F → Option (MetricSet F) → Option (MetricSet F) → MetricsComparison F
  unfolding compare_after only_verdict
  compare_before s none after = only_verdict absent
  compare_before s (some before) after = compare_after s before after

  -- `ClassifyMetrics`.
  pub classify_metrics : MetricScrapes F → MetricsComparison F
  unfolding compare_before usable
  classify_metrics s = compare_before s (usable s.before) (usable s.after)
