-- ===== src/Metrics/Verdicts/Losses.antt =====
-- pkg/framework/metrics.go: the verdict of a comparison, read off the samples of the scrapes.
use nfs_verification.Metrics.{MetricSet, name_of, lookup, has_key, is_counter}
use nfs_verification.Metrics.Verdicts.{
  MetricScrapes, SeriesChanges, is_touched, is_published, add_change, compare_counter, add_touched,
  add_lost, series_change, series_changes,
}
use nfs_verification.Prelude.{
  ◌≡◌, refl, sym, ap, ◌∙◌, Bool, true, false, not, ◌&&◌, ◌||◌, List, [], ◌∷◌, Option, none, some,
  if◌then◌else◌, has, Bool-cases, Option-cases, inl, inr,
}
use nfs_verification.Text.{Text, eq_text, is_empty}

first_false : (a b : Bool) → (a || b) ≡ false → a ≡ false
first_false true b h = h
first_false false b h = refl

module _ {ℓ} {F : Type ℓ} (less : F → F → Bool) where
  -- Whether a name is published by a scrape.
  unfoldable pub named : Text → Option (MetricSet F) → Bool
  named n none = false
  named n (some m) = has (λ e. eq_text n (name_of e.0)) m.samples

  -- Whether a counter that two scrapes have moved as the test says.
  unfoldable pub moved : (F → F → Bool) → MetricSet F → MetricSet F → Text → Bool
  unfolding lookup
  moved test before after key = is_counter before key && elim (lookup key before.samples) [
    | none ↦ false
    | some was ↦ elim (lookup key after.samples) [ none ↦ false | some now ↦ test was now ]
  ]

  abbrev pub fell : F → F → Bool
  fell was now = less now was

  abbrev pub rose : F → F → Bool
  rose was now = not (less now was) && less was now

  compare_counter-moved :
      (before after : MetricSet F) (key : Text) (rest : SeriesChanges F)
      → (is_empty (compare_counter less before after key rest).reset
          ≡ (not (moved fell before after key) && is_empty rest.reset))
        × (is_empty (compare_counter less before after key rest).advanced
            ≡ (not (moved rose before after key) && is_empty rest.advanced))
  unfolding compare_counter moved add_change
  compare_counter-moved before after key rest = elim (Bool-cases (is_counter before key)) [
    | inr c ↦ rw c (refl, refl)
    | inl c ↦ rw c (elim (Option-cases (lookup key before.samples)) [
      | inl n ↦ rw n (refl, refl)
      | inr (was, b) ↦ rw b (elim (Option-cases (lookup key after.samples)) [
        | inl n ↦ rw n (refl, refl)
        | inr (now, a) ↦ rw a (elim (Bool-cases (less now was)) [
          | inl f ↦ rw f (refl, refl)
          | inr f ↦ rw f (elim (Bool-cases (less was now)) [
            | inl r ↦ rw r (refl, refl)
            | inr r ↦ rw r (refl, refl)
          ])
        ])
      ])
    ])
  ]

  lookup-none : (key : Text) (es : List (Text × F)) → has_key key es ≡ false → lookup key es ≡ none
  unfolding lookup has_key
  lookup-none key [] h = refl
  lookup-none key ((k, v) ∷ es) h = elim (Bool-cases (eq_text k key)) [
    | inl e ↦ cc (simp e at h)
    | inr e ↦ rw e (lookup-none key es (simp e at h))
  ]

  not_published :
      (after : MetricSet F) (exercised : Option (MetricSet F)) (key : Text)
      → is_published less after exercised key ≡ false
      → lookup key after.samples ≡ none
  unfolding is_published
  not_published after none key h = lookup-none key after.samples h
  not_published after (some e) key h = lookup-none key after.samples (first_false _ _ h)

  not_moved :
      (test : F → F → Bool) (before after : MetricSet F) (key : Text)
      → lookup key after.samples ≡ none
      → moved test before after key ≡ false
  unfolding moved
  not_moved test before after key n = elim (Bool-cases (is_counter before key)) [
    | inr c ↦ rw c refl
    | inl c ↦ rw c (elim (Option-cases (lookup key before.samples)) [
      | inl b ↦ rw b refl
      | inr (was, b) ↦ rw (b, n) refl
    ])
  ]

  -- What the lists of a comparison say of the counters.
  abbrev pub Tells : MetricSet F → MetricSet F → List Text → SeriesChanges F → Type 0
  Tells before after keys c =
      (is_empty c.reset ≡ not (has (moved fell before after) keys))
      × (is_empty c.advanced ≡ not (has (moved rose before after) keys))

  touched-Tells :
      (before after : MetricSet F) (keys : List Text) (t : Bool) (key : Text) (c : SeriesChanges F)
      → Tells before after keys c
      → Tells before after keys (add_touched less t key c)
  unfolding add_touched
  touched-Tells before after keys true key c h = h
  touched-Tells before after keys false key c h = h

  lost-Tells :
      (before after : MetricSet F) (keys : List Text) (s t : Bool) (key : Text)
      (c : SeriesChanges F)
      → Tells before after keys c
      → Tells before after keys (add_lost less s t key c)
  unfolding add_lost
  lost-Tells before after keys true true key c h = h
  lost-Tells before after keys true false key c h = h
  lost-Tells before after keys false t key c h = h

  not_or : (a b : Bool) → (not a && not b) ≡ not (a || b)
  not_or true b = refl
  not_or false b = refl

  branch-Tells :
      (s : MetricScrapes F) (before after : MetricSet F) (key : Text) (keys : List Text)
      (rest : SeriesChanges F) (v t p : Bool)
      → is_published less after s.exercised key ≡ p
      → Tells before after keys rest
      → Tells before after
          (key ∷ keys)
          (if p then compare_counter less before after key rest else add_lost less v t key rest)
  branch-Tells s before after key keys rest v t true p h =
      let (f, r) = compare_counter-moved before after key rest in
      (
        f ∙ ap (λ b. not (moved fell before after key) && b) h.0 ∙ not_or _ _,
        r ∙ ap (λ b. not (moved rose before after key) && b) h.1 ∙ not_or _ _,
      )
  branch-Tells s before after key keys rest v t false p h =
      let n = not_published after s.exercised key p in
      lost-Tells before after (key ∷ keys) v t key rest (
        h.0
            ∙ ap (λ b. not (b || has (moved fell before after) keys))
                (sym (not_moved fell before after key n)),
        h.1
            ∙ ap (λ b. not (b || has (moved rose before after) keys))
                (sym (not_moved rose before after key n)),
      )

  series_change-Tells :
      (s : MetricScrapes F) (before after : MetricSet F) (key : Text) (keys : List Text)
      (rest : SeriesChanges F)
      → Tells before after keys rest
      → Tells before after (key ∷ keys) (series_change less s before after key rest)
  unfolding series_change
  series_change-Tells s before after key keys rest h =
      touched-Tells before after (key ∷ keys) (is_touched less s.idle before key) key _
        (branch-Tells s before after key keys rest _ _ _ refl h)

  pub series_changes-Tells :
      (s : MetricScrapes F) (before after : MetricSet F) (keys : List Text)
      → Tells before after keys (series_changes less s before after keys)
  unfolding series_changes
  series_changes-Tells s before after [] = (refl, refl)
  series_changes-Tells s before after (key ∷ keys) =
      series_change-Tells s before after key keys _ (series_changes-Tells s before after keys)
