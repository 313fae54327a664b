-- ===== src/Metrics/Exposition/Rounds.antt =====
-- pkg/framework/metrics.go, readLabels: the number of rounds that its loop is given.
use nfs_verification.Metrics.Exposition.{
  split_front, unescape, with_front, read_value, quoted_at, equals_at, value_behind, label_at,
  read_label, with_pair, next_pair, label_round, pairs_from, is_blank, is_separator,
  is_label_name_char,
}
use nfs_verification.Prelude.{
  ◌≡◌, refl, sym, ap, some_inj, ℕ, zero, suc, ◌≤◌, ◌<◌, Bool, true, false, List, [], ◌∷◌, ◌++◌,
  Option, none, some, if◌then◌else◌, ◌==◌, arith, length,
}
use nfs_verification.Text.{Text, trim_left}

length-trim_left : (p : ℕ → Bool) (s : Text) → length (trim_left p s) ≤ length s
unfolding trim_left
length-trim_left p [] = omega arith
length-trim_left p (c ∷ s) = ground (arith, length-trim_left p s)

length-split_front : (p : ℕ → Bool) (s : Text) → length (split_front p s).1 ≤ length s
unfolding split_front
length-split_front p [] = omega arith
length-split_front p (c ∷ s) = ground (arith, length-split_front p s)

-- What is left is shorter than what was read.
abbrev Shortens : Text → Option (Text × Text) → Type 0
Shortens s o = (v rest : Text) → o ≡ some (v, rest) → length rest < length s

none-Shortens : (s : Text) → Shortens s none
none-Shortens s v rest h = cc

if-Shortens :
    (b : Bool) (s : Text) (x y : Option (Text × Text))
    → Shortens s x
    → Shortens s y
    → Shortens s (if b then x else y)
if-Shortens true s x y hx hy = hx
if-Shortens false s x y hx hy = hy

with_front-Shortens :
    (front s t : Text) (o : Option (Text × Text))
    → length t ≤ length s
    → Shortens t o
    → Shortens s (with_front front o)
unfolding with_front
with_front-Shortens front s t none l h = none-Shortens s
with_front-Shortens front s t (some (v, r)) l h = λ whole rest e.
    let q : r ≡ rest = ap (λ p. p.1) (some_inj e) in let k = h v r refl in rw (sym q) (omega arith)

closed-Shortens : (c : ℕ) (s : Text) → Shortens (c ∷ s) (some ([], s))
closed-Shortens c s v rest e =
    let q : s ≡ rest = ap (λ p. p.1) (some_inj e) in rw (sym q) (omega arith)

read_value-Shortens : (s : Text) → Shortens s (read_value s)
unfolding read_value
read_value-Shortens [] = none-Shortens []
read_value-Shortens (c ∷ []) =
    if-Shortens (c == b'"') (c ∷ []) _ _ (closed-Shortens c []) (none-Shortens (c ∷ []))
read_value-Shortens (c ∷ (d ∷ s)) =
    let s2 = c ∷ (d ∷ s) in
    if-Shortens (c == b'\\') s2 _ _
      (with_front-Shortens (unescape d) s2 s (read_value s) (omega arith) (read_value-Shortens s))
      (if-Shortens (c == b'"') s2 _ _ (closed-Shortens c (d ∷ s)) (
        with_front-Shortens (c ∷ []) s2 (d ∷ s) (read_value (d ∷ s)) (omega arith)
          (read_value-Shortens (d ∷ s))))

longer-Shortens :
    (s t : Text) (o : Option (Text × Text)) → length t ≤ length s → Shortens t o → Shortens s o
longer-Shortens s t o l h v rest e = let k = h v rest e in omega arith

quoted_at-Shortens : (s : Text) → Shortens s (quoted_at s)
unfolding quoted_at
quoted_at-Shortens [] = none-Shortens []
quoted_at-Shortens (d ∷ u) =
    if-Shortens (d == b'"') (d ∷ u) _ _
      (longer-Shortens (d ∷ u) u (read_value u) (omega arith) (read_value-Shortens u))
      (none-Shortens (d ∷ u))

equals_at-Shortens : (s : Text) → Shortens s (equals_at s)
unfolding equals_at
equals_at-Shortens [] = none-Shortens []
equals_at-Shortens (c ∷ t) =
    if-Shortens (c == b'=') (c ∷ t) _ _
      (longer-Shortens (c ∷ t) (trim_left is_blank t) _ (omega (arith, length-trim_left is_blank t))
        (quoted_at-Shortens (trim_left is_blank t)))
      (none-Shortens (c ∷ t))

value_behind-Shortens : (s : Text) → Shortens s (value_behind s)
unfolding value_behind
value_behind-Shortens s =
    longer-Shortens s (trim_left is_blank s) _ (length-trim_left is_blank s)
      (equals_at-Shortens (trim_left is_blank s))

module _ (quote : Text → Text) where
  label_with-Shortens :
      (name s : Text) (o : Option (Text × Text))
      → Shortens s o
      → Shortens s
          (elim o [ none ↦ none | some (value, rest) ↦ some (name ++ b'=' ∷ quote value, rest) ])
  label_with-Shortens name s none h = none-Shortens s
  label_with-Shortens name s (some (value, r)) h = λ v rest e.
      let q : r ≡ rest = ap (λ p. p.1) (some_inj e) in h value rest (ap (λ t. some (value, t)) q)

  label_at-Shortens : (name s : Text) → Shortens s (label_at quote name s)
  unfolding label_at
  label_at-Shortens [] s = none-Shortens s
  label_at-Shortens (c ∷ name) s =
      label_with-Shortens (c ∷ name) s (value_behind s) (value_behind-Shortens s)

  read_label-Shortens : (s : Text) → Shortens s (read_label quote s)
  unfolding read_label
  read_label-Shortens s =
      longer-Shortens s (split_front is_label_name_char s).1 _
        (length-split_front is_label_name_char s)
        (label_at-Shortens (split_front is_label_name_char s).0
          (split_front is_label_name_char s).1)

  next_pair-same :
      (f g : Text → Option (List Text × Text)) (s : Text) (o : Option (Text × Text))
      → Shortens s o
      → ((t : Text) → length t < length s → f t ≡ g t)
      → next_pair quote f o ≡ next_pair quote g o
  unfolding next_pair
  next_pair-same f g s none h e = refl
  next_pair-same f g s (some (pair, rest)) h e =
      ap (with_pair quote pair) (e rest (h pair rest refl))

  label_round-same :
      (f g : Text → Option (List Text × Text)) (s : Text)
      → ((t : Text) → length t < length s → f t ≡ g t)
      → label_round quote f s ≡ label_round quote g s
  unfolding label_round
  label_round-same f g [] e = refl
  label_round-same f g (c ∷ t) e =
      ap (λ o. if c == b'}' then some ([], t) else o)
        (next_pair-same f g (c ∷ t) (read_label quote (c ∷ t)) (read_label-Shortens (c ∷ t)) e)

  -- The loop has enough rounds with one more than the text has characters: any two numbers of rounds
  -- above the text's length read the same labels.
  pairs_from-enough :
      (n m : ℕ) (s : Text)
      → length s < n
      → length s < m
      → pairs_from quote n s ≡ pairs_from quote m s
  unfolding pairs_from
  pairs_from-enough zero m s h k = absurd (omega arith)
  pairs_from-enough (suc n) zero s h k = absurd (omega arith)
  pairs_from-enough (suc n) (suc m) s h k =
      label_round-same (λ rest. pairs_from quote n rest) (λ rest. pairs_from quote m rest)
        (trim_left is_separator s)
        (λ t l.
          let shorter = length-trim_left is_separator s in
          pairs_from-enough n m t (omega arith) (omega arith))
