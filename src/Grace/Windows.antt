-- ===== src/Grace/Windows.antt =====
-- pkg/framework/grace.go: the grace period that an observation shows.
use mathlib.Core.Path.{subst}
use nfs_verification.Clock.{Time, after}
use nfs_verification.Grace.Observations.{
  GraceSignal, GraceObservation, GraceWindow, window_from, window,
}
use nfs_verification.Prelude.{
  ◌≡◌, refl, sym, ap, true, false, ◌&&◌, List, [], ◌∷◌, ◌++◌, Option, none, some, ◌⊎◌, inl, inr,
  if◌then◌else◌, Bool-cases, arith, All, ◌<ℤ◌, ◌≤ℤ◌,
}

-- An exit, and after `t`.
abbrev pub Ends : Time → GraceSignal → Type 0
Ends t s = (s.is_exit ≡ true) × (t <ℤ s.at)

-- An entry, or an exit at `t` or before.
abbrev pub Continues : Time → GraceSignal → Type 0
Continues t s = (s.is_exit ≡ false) ⊎ (s.at ≤ℤ t)

abbrev pub EndsAt : Time → List GraceSignal → Option GraceWindow → Type 0
EndsAt t ss none = All (Continues t) ss
EndsAt t ss (some w) =
    (mid : List GraceSignal) × (e : GraceSignal) × (post : List GraceSignal) × (ss
      ≡ mid ++ e ∷ post)
    × (w ≡ record { start = t; end = e.at })
    × All (Continues t) mid
    × Ends t e

-- Either there is no entry and no window, or the first entry opens the window, which the first later
-- exit after its time closes.
abbrev pub IsWindow : List GraceSignal → Option GraceWindow → Type 0
IsWindow ss o =
    (All (λ s. s.is_exit ≡ true) ss × (o ≡ none))
    ⊎ ((pre : List GraceSignal) × (s : GraceSignal) × (rest : List GraceSignal) × (ss
          ≡ pre ++ s ∷ rest)
        × All (λ q. q.is_exit ≡ true) pre
        × (s.is_exit ≡ false)
        × EndsAt s.at rest o)

continue_past :
    (t : Time) (s : GraceSignal) (ss : List GraceSignal) (o : Option GraceWindow)
    → Continues t s
    → EndsAt t ss o
    → EndsAt t (s ∷ ss) o
continue_past t s ss none h k = (h, k)
continue_past t s ss (some w) h (mid, e, post, eq, win, all, ends) =
    (s ∷ mid, e, post, ap (◌∷◌ s) eq, win, (h, all), ends)

not_ended : (t : Time) (s : GraceSignal) → (s.is_exit && after s.at t) ≡ false → Continues t s
not_ended t s e = elim (Bool-cases s.is_exit) [ inr x ↦ inl x | inl x ↦ inr (ground arith) ]

window_from-EndsAt : (ss : List GraceSignal) (t : Time) → EndsAt t ss (window_from (some t) ss)
unfolding window_from
window_from-EndsAt [] t = tt
window_from-EndsAt (s ∷ ss) t = elim (Bool-cases (s.is_exit && after s.at t)) [
  | inl e ↦ rw e ([], s, ss, refl, refl, tt, ground arith)
  | inr e ↦ rw e (continue_past t s ss _ (not_ended t s e) (window_from-EndsAt ss t))
]

after_exit :
    (s : GraceSignal) (ss : List GraceSignal) (o : Option GraceWindow)
    → s.is_exit ≡ true
    → IsWindow ss o
    → IsWindow (s ∷ ss) o
after_exit s ss o h (inl (all, e)) = inl ((h, all), e)
after_exit s ss o h (inr (pre, q, rest, eq, all, entry, ends)) =
    inr (s ∷ pre, q, rest, ap (◌∷◌ s) eq, (h, all), entry, ends)

first_signal :
    (s : GraceSignal) (ss : List GraceSignal) (later opened : Option GraceWindow)
    → IsWindow ss later
    → EndsAt s.at ss opened
    → IsWindow (s ∷ ss) (if s.is_exit then later else opened)
first_signal s ss later opened h k = elim (Bool-cases s.is_exit) [
  | inl e ↦
      subst (λ b. IsWindow (s ∷ ss) (if b then later else opened)) (sym e)
        (after_exit s ss later e h)
  | inr e ↦
      subst (λ b. IsWindow (s ∷ ss) (if b then later else opened)) (sym e)
        (inr ([], s, ss, refl, tt, e, k))
]

window_from-IsWindow : (ss : List GraceSignal) → IsWindow ss (window_from none ss)
unfolding window_from
window_from-IsWindow [] = inl (tt, refl)
window_from-IsWindow (s ∷ ss) =
    first_signal s ss _ _ (window_from-IsWindow ss) (window_from-EndsAt ss s.at)

-- `Window` opens at the first entry and closes at the first exit listed after it whose time is later
-- than the entry's. It reports no window exactly where there is no entry, or no such exit.
pub window-IsWindow : (o : GraceObservation) → IsWindow o.signals (window o)
unfolding window
window-IsWindow o = window_from-IsWindow o.signals
