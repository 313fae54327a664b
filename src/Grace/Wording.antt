-- ===== src/Grace/Wording.antt =====
-- pkg/framework/grace.go: which announcement a line is read as, by the wording near "grace".
use mathlib.Core.Path.{subst}
use nfs_verification.Grace.Phrases.{
  exit_words, enter_words, earlier, earliest_from, earliest, decide_phrase, classify_phrase,
  classify_phrases, grace_phrases, mentions_grace, classify_grace,
}
use nfs_verification.Prelude.{
  ℕ, suc, ◌≤◌, ◌<◌, ◌≡◌, refl, sym, ap, ◌∙◌, Bool, true, false, List, [], ◌∷◌, ◌++◌, Option, none,
  some, ◌⊎◌, inl, inr, ltb, leb, Bool-cases, arith, All, All-map,
}
use nfs_verification.Text.{Text, index, to_lower}

-- One of the words stands at position `i` of the phrase.
abbrev pub StandsAt : Text → ℕ → List Text → Type 0
StandsAt p i [] = ⊥
StandsAt p i (w ∷ ws) = (index p w ≡ some i) ⊎ StandsAt p i ws

abbrev pub NotBefore : ℕ → Option ℕ → Type 0
NotBefore i none = Unit
NotBefore i (some j) = i ≤ j

-- None of the words stands before position `i`.
abbrev pub NoneBefore : Text → ℕ → List Text → Type 0
NoneBefore p i = All (λ w. NotBefore i (index p w))

abbrev pub IsAbsent : Text → List Text → Type 0
IsAbsent p = All (λ w. index p w ≡ none)

abbrev IsEarliest : Text → List Text → Option ℕ → Type 0
IsEarliest p ws none = IsAbsent p ws
IsEarliest p ws (some i) = StandsAt p i ws × NoneBefore p i ws

earlier_assoc : (a b c : Option ℕ) → earlier (earlier a b) c ≡ earlier a (earlier b c)
earlier_assoc a b none = refl
earlier_assoc a none (some k) = refl
earlier_assoc none (some j) (some k) = ground arith
earlier_assoc (some i) (some j) (some k) = ground arith

earlier-none : (a : Option ℕ) → earlier none a ≡ a
earlier-none none = refl
earlier-none (some i) = refl

earliest_from-earlier :
    (p : Text) (ws : List Text) (best : Option ℕ)
    → earliest_from p ws best ≡ earlier best (earliest_from p ws none)
unfolding earliest_from
earliest_from-earlier p [] best = refl
earliest_from-earlier p (w ∷ ws) best =
    earliest_from-earlier p ws (earlier best (index p w))
    ∙ earlier_assoc best (index p w) (earliest_from p ws none)
    ∙ ap (earlier best) (
        ap (λ a. earlier a (earliest_from p ws none)) (sym (earlier-none (index p w)))
        ∙ sym (earliest_from-earlier p ws (earlier none (index p w))))

NotBefore-le : (i j : ℕ) (o : Option ℕ) → i ≤ j → NotBefore j o → NotBefore i o
NotBefore-le i j none h k = tt
NotBefore-le i j (some m) h k = omega arith

earlier-IsEarliest :
    (p w : Text) (ws : List Text) (a b : Option ℕ)
    → index p w ≡ a
    → IsEarliest p ws b
    → IsEarliest p (w ∷ ws) (earlier a b)
earlier-IsEarliest p w ws none none e h = (e, h)
earlier-IsEarliest p w ws (some i) none e h =
    (inl e, (rw e (omega arith), All-map _ _ ws (λ v f. rw f tt) h))
earlier-IsEarliest p w ws none (some j) e h = (inr h.0, (rw e tt, h.1))
earlier-IsEarliest p w ws (some i) (some j) e h = elim (Bool-cases (ltb j i)) [
  | inl l ↦ rw l (inr h.0, (rw e (ground arith), h.1))
  | inr l ↦ rw l (
    inl e,
    (rw e (omega arith), All-map _ _ ws (λ v f. NotBefore-le i j (index p v) (ground arith) f) h.1),
  )
]

earliest_from-IsEarliest : (p : Text) (ws : List Text) → IsEarliest p ws (earliest_from p ws none)
unfolding earliest_from
earliest_from-IsEarliest p [] = tt
earliest_from-IsEarliest p (w ∷ ws) =
    subst (IsEarliest p (w ∷ ws))
      (sym (
        earliest_from-earlier p ws (earlier none (index p w))
        ∙ ap (λ a. earlier a (earliest_from p ws none)) (earlier-none (index p w))))
      (earlier-IsEarliest p w ws (index p w) (earliest_from p ws none) refl
        (earliest_from-IsEarliest p ws))

-- What the positional rule says of a phrase: an exit where an exit word stands before or at every enter
-- word, an entry where an enter word stands before every exit word, and neither where no word occurs.
abbrev pub Decides : Text → Option Bool → Type 0
Decides p none = IsAbsent p exit_words × IsAbsent p enter_words
Decides p (some true) = (i : ℕ) × StandsAt p i exit_words × NoneBefore p i enter_words
Decides p (some false) = (j : ℕ) × StandsAt p j enter_words × NoneBefore p (suc j) exit_words

NotBefore-suc : (i : ℕ) (o : Option ℕ) (j : ℕ) → j < i → NotBefore i o → NotBefore (suc j) o
NotBefore-suc i none j h k = tt
NotBefore-suc i (some m) j h k = omega arith

decide_phrase-Decides :
    (p : Text) (x n : Option ℕ)
    → IsEarliest p exit_words x
    → IsEarliest p enter_words n
    → Decides p (decide_phrase x n)
unfolding decide_phrase
decide_phrase-Decides p none none hx hn = (hx, hn)
decide_phrase-Decides p (some i) none hx hn = (i, hx.0, All-map _ _ enter_words (λ w f. rw f tt) hn)
decide_phrase-Decides p none (some j) hx hn = (j, hn.0, All-map _ _ exit_words (λ w f. rw f tt) hx)
decide_phrase-Decides p (some i) (some j) hx hn = elim (Bool-cases (leb i j)) [
  | inl l ↦
      rw l (
        i,
        hx.0,
        All-map _ _ enter_words (λ w f. NotBefore-le i j (index p w) (ground arith) f) hn.1,
      )
  | inr l ↦
      rw l (
        j,
        hn.0,
        All-map _ _ exit_words (λ w f. NotBefore-suc i (index p w) j (ground arith) f) hx.1,
      )
]

classify_phrase-Decides : (p : Text) → Decides p (classify_phrase p)
unfolding classify_phrase earliest
classify_phrase-Decides p =
    decide_phrase-Decides p (earliest_from p exit_words none) (earliest_from p enter_words none)
      (earliest_from-IsEarliest p exit_words) (earliest_from-IsEarliest p enter_words)

-- The first phrase that holds any of the words decides.
abbrev pub FirstDecides : List Text → Option Bool → Type 0
FirstDecides ps none = All (λ p. Decides p none) ps
FirstDecides ps (some b) =
    (pre : List Text) × (p : Text) × (post : List Text) × (ps ≡ pre ++ p ∷ post)
    × All (λ q. Decides q none) pre
    × Decides p (some b)

skip_phrase :
    (p : Text) (ps : List Text) (o : Option Bool)
    → Decides p none
    → FirstDecides ps o
    → FirstDecides (p ∷ ps) o
skip_phrase p ps none h k = (h, k)
skip_phrase p ps (some b) h (pre, q, post, e, none_before, d) =
    (p ∷ pre, q, post, ap (◌∷◌ p) e, (h, none_before), d)

add_phrase :
    (p : Text) (ps : List Text) (o rest : Option Bool)
    → Decides p o
    → FirstDecides ps rest
    → FirstDecides (p ∷ ps) (elim o [ some b ↦ some b | none ↦ rest ])
add_phrase p ps none rest d h = skip_phrase p ps rest d h
add_phrase p ps (some b) rest d h = ([], p, ps, refl, tt, d)

classify_phrases-FirstDecides : (ps : List Text) → FirstDecides ps (classify_phrases ps)
unfolding classify_phrases
classify_phrases-FirstDecides [] = tt
classify_phrases-FirstDecides (p ∷ ps) =
    add_phrase p ps (classify_phrase p) (classify_phrases ps) (classify_phrase-Decides p)
      (classify_phrases-FirstDecides ps)

-- A line that mentions grace is read, where no pattern is set, by the first of its phrases with any of
-- the words: as the end of grace where an exit word of that phrase stands no later than every enter
-- word, as the entry where an enter word stands before every exit word. It is read as neither where no
-- phrase has any of the words.
pub classify_grace-FirstDecides :
    (line : Text)
    → mentions_grace line ≡ true
    → FirstDecides (grace_phrases (to_lower line)) (classify_grace (none, none) line)
unfolding classify_grace
classify_grace-FirstDecides line h =
    rw h (classify_phrases-FirstDecides (grace_phrases (to_lower line)))
