-- ===== src/Grace/Phrases.antt =====
-- pkg/framework/grace.go: what a line announces.
use nfs_verification.Prelude.{
  ℕ, suc, ◌+◌, ◌-◌, Bool, true, false, not, ◌||◌, List, [], ◌∷◌, ◌++◌, Option, none, some, ltb, leb,
  ◌==◌, if◌then◌else◌, keep_if, take, drop,
}
use nfs_verification.Text.{Text, codes, fields, fields_func, contains, index, join, to_lower}

-- `graceLine`.
unfoldable pub mentions_grace : Text → Bool
unfolding contains to_lower
mentions_grace s = contains (to_lower s) (codes "grace")

pub exit_words : List Text
exit_words =
    codes "not in grace"
    ∷ codes "no longer"
    ∷ codes "out of grace"
    ∷ codes "end"
    ∷ codes "exit"
    ∷ codes "over"
    ∷ codes "lift"
    ∷ codes "expire"
    ∷ codes "complete"
    ∷ codes "finish"
    ∷ codes "leav"
    ∷ codes "clear"
    ∷ codes "releas"
    ∷ []

pub enter_words : List Text
enter_words =
    codes "in grace"
    ∷ codes "enter"
    ∷ codes "start"
    ∷ codes "begin"
    ∷ codes "init"
    ∷ codes "into grace"
    ∷ []

abbrev pub grace_context_words : ℕ
grace_context_words = 3

-- The words around word `i`: three on either side, as far as there are any.
phrase_at : ℕ → List Text → Text
unfolding join
phrase_at i words =
    let lo = i - grace_context_words in
    join (codes " ") (take (i + grace_context_words + 1 - lo) (drop lo words))

-- The phrases of one clause; `i` counts the words passed.
phrases_from : ℕ → List Text → List Text → List Text
unfolding phrase_at contains
phrases_from i all [] = []
phrases_from i all (w ∷ ws) =
    let rest = phrases_from (suc i) all ws in
    if contains w (codes "grace") then phrase_at i all ∷ rest else rest

-- The words of a clause that are not identifiers.
clause_words : Text → List Text
unfolding fields contains
clause_words clause = keep_if (λ w. not (contains w (codes "_"))) (fields clause)

clauses_phrases : List Text → List Text
unfolding phrases_from clause_words
clauses_phrases [] = []
clauses_phrases (c ∷ cs) = phrases_from 0 (clause_words c) (clause_words c) ++ clauses_phrases cs

-- `gracePhrases`.
unfoldable pub grace_phrases : Text → List Text
unfolding clauses_phrases
grace_phrases lower = clauses_phrases (fields_func (λ c. c == b':' || c == b';' || c == b',') lower)

-- One turn of the loop of `earliest`.
abbrev pub earlier : Option ℕ → Option ℕ → Option ℕ
earlier best none = best
earlier none (some i) = some i
earlier (some b) (some i) = if ltb i b then some i else some b

unfoldable pub earliest_from : Text → List Text → Option ℕ → Option ℕ
unfolding index
earliest_from lower [] best = best
earliest_from lower (w ∷ ws) best = earliest_from lower ws (earlier best (index lower w))

-- `earliest`, with `none` for -1.
unfoldable pub earliest : Text → List Text → Option ℕ
unfolding earliest_from
earliest lower words = earliest_from lower words none

-- The switch of `classifyGrace`: what the first exit word and the first enter word decide, and `none` to
-- go on to the next phrase.
unfoldable pub decide_phrase : Option ℕ → Option ℕ → Option Bool
decide_phrase none none = none
decide_phrase (some i) none = some true
decide_phrase none (some j) = some false
decide_phrase (some i) (some j) = some (leb i j)

unfoldable pub classify_phrase : Text → Option Bool
unfolding decide_phrase earliest exit_words enter_words
classify_phrase phrase = decide_phrase (earliest phrase exit_words) (earliest phrase enter_words)

unfoldable pub classify_phrases : List Text → Option Bool
unfolding classify_phrase
classify_phrases [] = none
classify_phrases (p ∷ ps) =
    let rest = classify_phrases ps in elim (classify_phrase p) [ some b ↦ some b | none ↦ rest ]

-- The operator's patterns for the exit from grace and the entry into it, where they are set.
abbrev pub Patterns : Type 0
Patterns = Option (Text → Bool) × Option (Text → Bool)

abbrev pub matches : Option (Text → Bool) → Text → Bool
matches none s = false
matches (some re) s = re s

abbrev pub is_set : Option (Text → Bool) → Bool
is_set none = false
is_set (some re) = true

-- `classifyGrace`: `some true` for an exit, `some false` for an entry, `none` for neither.
unfoldable pub classify_grace : Patterns → Text → Option Bool
unfolding mentions_grace classify_phrases grace_phrases to_lower
classify_grace cfg line =
    if not (mentions_grace line)
    then none
    else if matches cfg.0 line
    then some true
    else if matches cfg.1 line
    then some false
    else if is_set cfg.0 || is_set cfg.1
    then none
    else classify_phrases (grace_phrases (to_lower line))
