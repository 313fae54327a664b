-- ===== src/Grace/Signals.antt =====
-- pkg/framework/grace.go: the lines that mention grace against the signals.
use mathlib.Core.List.{append_assoc, append-nil}
use mathlib.Core.Path.{subst}
use nfs_verification.Grace.Observations.{GraceSignal, GraceObservation, LogLine, is_zero}
use nfs_verification.Grace.Phrases.{mentions_grace, Patterns, classify_grace}
use nfs_verification.Grace.Streams.{
  announces, same_announcement, signal_of, add_signal, add_unclassified, observe_line,
  observe_lines, classify_grace_lines,
}
use nfs_verification.Prelude.{
  ◌≡◌, refl, sym, ap, ◌∙◌, Bool, true, false, List, [], ◌∷◌, ◌++◌, Option, none, some, ◌⊎◌, inl,
  inr, if◌then◌else◌, Bool-cases, Option-cases, arith, All, All-map, has, has-append,
}
use nfs_verification.Text.{Text}

-- A member of the list.
abbrev pub StandsIn : {A : Type 0} → A → List A → Type 0
StandsIn x [] = ⊥
StandsIn x (y ∷ ys) = (x ≡ y) ⊎ StandsIn x ys

StandsIn-snoc : {A : Type 0} (x y : A) (xs : List A) → StandsIn x xs → StandsIn x (xs ++ y ∷ [])
StandsIn-snoc x y [] h = elim h [ ]
StandsIn-snoc x y (z ∷ xs) (inl e) = inl e
StandsIn-snoc x y (z ∷ xs) (inr h) = inr (StandsIn-snoc x y xs h)

StandsIn-last : {A : Type 0} (x : A) (xs : List A) → StandsIn x (xs ++ x ∷ [])
StandsIn-last x [] = inl refl
StandsIn-last x (y ∷ xs) = inr (StandsIn-last x xs)

-- A line does not mention grace, or it is kept as unclassified, or it is stamped, is read as a
-- transition, and that signal is among the signals or announced by one of them.
abbrev pub Accounted : Patterns → GraceObservation → LogLine → Type 0
Accounted cfg o l =
    (mentions_grace l.text ≡ false)
    ⊎ (StandsIn l.text o.unclassified
        ⊎ ((e : Bool) × (classify_grace cfg l.text ≡ some e)
            × (is_zero l.at ≡ false)
            × (StandsIn (signal_of l e) o.signals
                ⊎ (same_announcement o.signals (signal_of l e) ≡ true))))

-- Every signal and every unclassified line of `o` is in `p`.
abbrev Grows : GraceObservation → GraceObservation → Type 0
Grows o p =
    ((s : GraceSignal) → StandsIn s o.signals → StandsIn s p.signals)
    × ((t : GraceSignal)
        → same_announcement o.signals t ≡ true
        → same_announcement p.signals t ≡ true)
    × ((u : Text) → StandsIn u o.unclassified → StandsIn u p.unclassified)

Accounted-Grows :
    (cfg : Patterns) (o p : GraceObservation) (l : LogLine)
    → Grows o p
    → Accounted cfg o l
    → Accounted cfg p l
Accounted-Grows cfg o p l g (inl m) = inl m
Accounted-Grows cfg o p l g (inr (inl u)) = inr (inl (g.2 l.text u))
Accounted-Grows cfg o p l g (inr (inr (e, c, z, inl s))) =
    inr (inr (e, c, z, inl (g.0 (signal_of l e) s)))
Accounted-Grows cfg o p l g (inr (inr (e, c, z, inr s))) =
    inr (inr (e, c, z, inr (g.1 (signal_of l e) s)))

Grows-refl : (o : GraceObservation) → Grows o o
Grows-refl o = ((λ s h. h), (λ t h. h), (λ u h. h))

add_signal-Grows : (s : GraceSignal) (o : GraceObservation) → Grows o (add_signal s o)
unfolding add_signal
add_signal-Grows s o = elim (Bool-cases (same_announcement o.signals s)) [
  | inl e ↦ rw e (Grows-refl o)
  | inr e ↦ rw e (
    (λ t h. StandsIn-snoc t s o.signals h),
    (λ t h. has-append (announces t) o.signals (s ∷ []) ∙ ground arith),
    (λ u h. h),
  )
]

add_unclassified-Grows : (u : Text) (o : GraceObservation) → Grows o (add_unclassified u o)
unfolding add_unclassified
add_unclassified-Grows u o = elim (Bool-cases (mentions_grace u)) [
  | inl e ↦ rw e ((λ s h. h), (λ t h. h), (λ v h. StandsIn-snoc v u o.unclassified h))
  | inr e ↦ rw e (Grows-refl o)
]

add_unclassified-kept :
    (u : Text) (o : GraceObservation)
    → (mentions_grace u ≡ false) ⊎ StandsIn u (add_unclassified u o).unclassified
unfolding add_unclassified
add_unclassified-kept u o = elim (Bool-cases (mentions_grace u)) [
  | inr m ↦ inl m
  | inl m ↦ inr (rw m (StandsIn-last u o.unclassified))
]

add_signal-kept :
    (s : GraceSignal) (o : GraceObservation)
    → StandsIn s (add_signal s o).signals ⊎ (same_announcement (add_signal s o).signals s ≡ true)
unfolding add_signal
add_signal-kept s o = elim (Bool-cases (same_announcement o.signals s)) [
  | inl e ↦ rw e (inr e)
  | inr e ↦ rw e (inl (StandsIn-last s o.signals))
]

-- What a turn of the loop makes of a classification.
abbrev outcome : LogLine → GraceObservation → Option Bool → Bool → GraceObservation
outcome l o none z = add_unclassified l.text o
outcome l o (some e) z = if z then add_unclassified l.text o else add_signal (signal_of l e) o

unread :
    (cfg : Patterns) (l : LogLine) (o : GraceObservation)
    → Accounted cfg (add_unclassified l.text o) l
unread cfg l o = elim (add_unclassified-kept l.text o) [ inl m ↦ inl m | inr u ↦ inr (inl u) ]

Handles : Patterns → LogLine → GraceObservation → GraceObservation → Type 0
Handles cfg l o p = Grows o p × Accounted cfg p l

outcome-Handles :
    (cfg : Patterns) (l : LogLine) (o : GraceObservation) (c : Option Bool) (z : Bool)
    → classify_grace cfg l.text ≡ c
    → is_zero l.at ≡ z
    → Handles cfg l o (outcome l o c z)
unfolding Handles
outcome-Handles cfg l o none z e h = (add_unclassified-Grows l.text o, unread cfg l o)
outcome-Handles cfg l o (some b) true e h = (add_unclassified-Grows l.text o, unread cfg l o)
outcome-Handles cfg l o (some b) false e h =
    (add_signal-Grows (signal_of l b) o, inr (inr (b, e, h, add_signal-kept (signal_of l b) o)))

observe_line-outcome :
    (cfg : Patterns) (l : LogLine) (o : GraceObservation)
    → observe_line cfg l o ≡ outcome l o (classify_grace cfg l.text) (is_zero l.at)
unfolding observe_line
observe_line-outcome cfg l o = elim (Option-cases (classify_grace cfg l.text)) [
  | inl c ↦ rw (c, observe_line) refl
  | inr (e, c) ↦ rw (c, observe_line) refl
]

observe_line-Handles :
    (cfg : Patterns) (l : LogLine) (o : GraceObservation) → Handles cfg l o (observe_line cfg l o)
observe_line-Handles cfg l o =
    subst (Handles cfg l o) (sym (observe_line-outcome cfg l o))
      (outcome-Handles cfg l o (classify_grace cfg l.text) (is_zero l.at) refl refl)

Grows-trans : (o p q : GraceObservation) → Grows o p → Grows p q → Grows o q
Grows-trans o p q g h =
    ((λ s k. h.0 s (g.0 s k)), (λ t k. h.1 t (g.1 t k)), (λ u k. h.2 u (g.2 u k)))

observe_lines-Grows :
    (cfg : Patterns) (ls : List LogLine) (o : GraceObservation) → Grows o (observe_lines cfg ls o)
unfolding observe_lines Handles
observe_lines-Grows cfg [] o = Grows-refl o
observe_lines-Grows cfg (l ∷ ls) o =
    Grows-trans o (observe_line cfg l o) _ (observe_line-Handles cfg l o).0
      (observe_lines-Grows cfg ls (observe_line cfg l o))

observe_lines-Accounted :
    (cfg : Patterns) (ls : List LogLine) (o : GraceObservation)
    → All (Accounted cfg (observe_lines cfg ls o)) ls
unfolding observe_lines Handles
observe_lines-Accounted cfg [] o = tt
observe_lines-Accounted cfg (l ∷ ls) o = (
  Accounted-Grows cfg (observe_line cfg l o) _ l (observe_lines-Grows cfg ls (observe_line cfg l o))
      (observe_line-Handles cfg l o).1,
  observe_lines-Accounted cfg ls (observe_line cfg l o),
)

-- What the sort of the signals keeps: the members of the list.
abbrev pub KeepsMembers : (List GraceSignal → List GraceSignal) → Type 0
KeepsMembers sort_signals =
    (ss : List GraceSignal) (p : GraceSignal → Bool)
    → ((s : GraceSignal) → StandsIn s ss → StandsIn s (sort_signals ss))
      × (has p (sort_signals ss) ≡ has p ss)

-- No line that mentions grace is lost: it is kept as unclassified, or it is stamped and read as a
-- transition whose signal is among the signals or is the same announcement as one of them. The sort
-- has to keep the members of a list.
pub classify_grace_lines-Accounted :
    (sort_signals : List GraceSignal → List GraceSignal) (cfg : Patterns) (ls : List LogLine)
    → KeepsMembers sort_signals
    → All (Accounted cfg (classify_grace_lines sort_signals cfg ls)) ls
unfolding classify_grace_lines
classify_grace_lines-Accounted sort_signals cfg ls keeps =
    let o = observe_lines cfg ls (record { signals = []; unclassified = [] }) in
    All-map (Accounted cfg o) _ ls
      (λ l.
        Accounted-Grows cfg o (record o { signals = sort_signals o.signals }) l
          (
            (λ s h. (keeps o.signals (λ _. true)).0 s h),
            (λ t h. (keeps o.signals (announces t)).1 ∙ h),
            λ u h. h,
          ))
      (observe_lines-Accounted cfg ls (record { signals = []; unclassified = [] }))

-- None of the signals is the same announcement as one that stands before it, or as one of `seen`.
abbrev pub NoRepeatsAfter : List GraceSignal → List GraceSignal → Type 0
NoRepeatsAfter seen [] = Unit
NoRepeatsAfter seen (s ∷ ss) =
    (same_announcement seen s ≡ false) × NoRepeatsAfter (seen ++ s ∷ []) ss

NoRepeatsAfter-snoc :
    (ss seen : List GraceSignal) (t : GraceSignal)
    → NoRepeatsAfter seen ss
    → same_announcement (seen ++ ss) t ≡ false
    → NoRepeatsAfter seen (ss ++ t ∷ [])
NoRepeatsAfter-snoc [] seen t h k = (rw append-nil at k, tt)
NoRepeatsAfter-snoc (s ∷ ss) seen t h k = (
  h.0,
  NoRepeatsAfter-snoc ss (seen ++ s ∷ []) t h.1
      (ap (λ l. same_announcement l t) (append_assoc seen (s ∷ []) ss) ∙ k),
)

add_unclassified-signals :
    (u : Text) (o : GraceObservation) → (add_unclassified u o).signals ≡ o.signals
unfolding add_unclassified
add_unclassified-signals u o = ground arith

outcome-NoRepeats :
    (l : LogLine) (o : GraceObservation) (c : Option Bool) (z : Bool)
    → NoRepeatsAfter [] o.signals
    → NoRepeatsAfter [] (outcome l o c z).signals
outcome-NoRepeats l o none z h =
    subst (NoRepeatsAfter []) (sym (add_unclassified-signals l.text o)) h
outcome-NoRepeats l o (some b) true h =
    subst (NoRepeatsAfter []) (sym (add_unclassified-signals l.text o)) h
outcome-NoRepeats l o (some b) false h =
    unfold add_signal in
    elim (Bool-cases (same_announcement o.signals (signal_of l b))) [
      | inl e ↦ rw e h
      | inr e ↦ rw e (NoRepeatsAfter-snoc o.signals [] (signal_of l b) h e)
    ]

observe_lines-NoRepeats :
    (cfg : Patterns) (ls : List LogLine) (o : GraceObservation)
    → NoRepeatsAfter [] o.signals
    → NoRepeatsAfter [] (observe_lines cfg ls o).signals
unfolding observe_lines
observe_lines-NoRepeats cfg [] o h = h
observe_lines-NoRepeats cfg (l ∷ ls) o h = observe_lines-NoRepeats cfg ls (observe_line cfg l o) (
    subst (λ p. NoRepeatsAfter [] p.signals) (sym (observe_line-outcome cfg l o))
      (outcome-NoRepeats l o (classify_grace cfg l.text) (is_zero l.at) h))

-- In the order in which the loop of `classifyGraceLines` collects them, no signal is the same
-- announcement as one before it, whatever lines are read and whatever patterns are set.
pub observed-NoRepeats :
    (cfg : Patterns) (ls : List LogLine)
    → NoRepeatsAfter [] (observe_lines cfg ls (record { signals = []; unclassified = [] })).signals
observed-NoRepeats cfg ls =
    observe_lines-NoRepeats cfg ls (record { signals = []; unclassified = [] }) tt
