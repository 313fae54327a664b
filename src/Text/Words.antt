-- ===== src/Text/Words.antt =====
-- Splitting a text into lines and words, against texts that are built from words.
use mathlib.Core.List.{append_assoc}
use nfs_verification.Prelude.{
  ℕ, ◌≡◌, ◌≢◌, refl, sym, ap, ◌∙◌, Bool, true, false, List, [], ◌∷◌, ◌++◌, ◌==◌, arith, All, ℤ, pos,
  negsuc, suc,
}
use nfs_verification.Text.Number.{
  AllDigits, is_digit, show_ℕ, show_ℕ-AllDigits, show_ℕ-ne-nil, itoa,
}
use nfs_verification.Text.{
  Text, is_empty, is_space, trim_left, trim_right, trim_space, push, split_by, split, fields_func,
  fields,
}

-- No character passes the test.
abbrev pub Without : (ℕ → Bool) → Text → Type 0
Without p = All (λ c. p c ≡ false)

-- At least one character, and no space.
abbrev pub IsWord : Text → Type 0
IsWord w = (w ≢ []) × Without is_space w

split_by-Without : (p : ℕ → Bool) (w : Text) → Without p w → split_by p w ≡ w ∷ []
unfolding split_by push
split_by-Without p [] h = refl
split_by-Without p (c ∷ w) h = rw (h.0, split_by-Without p w h.1)

-- A part ends at the separator, and the rest is split on its own.
pub split_by-append :
    (p : ℕ → Bool) (w : Text) (c : ℕ) (s : Text)
    → Without p w
    → p c ≡ true
    → split_by p (w ++ c ∷ s) ≡ w ∷ split_by p s
unfolding split_by push
split_by-append p [] c s h e = rw e
split_by-append p (d ∷ w) c s h e = rw (h.0, split_by-append p w c s h.1 e)

pub fields_first :
    (p : ℕ → Bool) (w : Text) (c : ℕ) (s : Text)
    → w ≢ []
    → Without p w
    → p c ≡ true
    → fields_func p (w ++ c ∷ s) ≡ w ∷ fields_func p s
fields_first p [] c s n h e = absurd (n refl)
fields_first p (d ∷ w) c s n h e = rw (split_by-append p (d ∷ w) c s h e)

pub fields_last : (p : ℕ → Bool) (w : Text) → w ≢ [] → Without p w → fields_func p w ≡ w ∷ []
fields_last p [] n h = absurd (n refl)
fields_last p (d ∷ w) n h = rw (split_by-Without p (d ∷ w) h)

-- Three words with single spaces between them.
pub three_words : Text → Text → Text → Text
three_words a b c = a ++ b' ' ∷ (b ++ b' ' ∷ c)

pub fields-three_words :
    (a b c : Text) → IsWord a → IsWord b → IsWord c → fields (three_words a b c) ≡ a ∷ b ∷ c ∷ []
unfolding fields three_words
fields-three_words a b c ha hb hc =
    fields_first is_space a b' ' _ ha.0 ha.1 refl
    ∙ ap (◌∷◌ a) (fields_first is_space b b' ' c hb.0 hb.1 refl)
    ∙ ap (λ r. a ∷ b ∷ r) (fields_last is_space c hc.0 hc.1)

pub trim_left-word :
    (p : ℕ → Bool) (w s : Text) → w ≢ [] → Without p w → trim_left p (w ++ s) ≡ w ++ s
unfolding trim_left
trim_left-word p [] s n h = absurd (n refl)
trim_left-word p (c ∷ w) s n h = rw h.0

pub trim_right-Without : (p : ℕ → Bool) (w : Text) → Without p w → trim_right p w ≡ w
unfolding trim_right
trim_right-Without p [] h = refl
trim_right-Without p (c ∷ w) h = rw (trim_right-Without p w h.1) (ground arith)

pub is_empty-append : (s w : Text) → w ≢ [] → is_empty (s ++ w) ≡ false
is_empty-append [] [] n = absurd (n refl)
is_empty-append [] (c ∷ w) n = refl
is_empty-append (d ∷ s) w n = refl

trim_right-word :
    (p : ℕ → Bool) (s w : Text) → w ≢ [] → Without p w → trim_right p (s ++ w) ≡ s ++ w
unfolding trim_right
trim_right-word p [] w n h = trim_right-Without p w h
trim_right-word p (c ∷ s) w n h = rw (trim_right-word p s w n h, is_empty-append s w n)

regroup : (a b c : Text) → a ++ b' ' ∷ (b ++ b' ' ∷ c) ≡ (a ++ b' ' ∷ (b ++ b' ' ∷ [])) ++ c
regroup a b c = simp append_assoc

-- Words with nothing round them are not trimmed.
pub trim_space-three_words :
    (a b c : Text)
    → IsWord a
    → IsWord b
    → IsWord c
    → trim_space (three_words a b c) ≡ three_words a b c
unfolding trim_space three_words
trim_space-three_words a b c ha hb hc =
    ap (trim_right is_space) (trim_left-word is_space a _ ha.0 ha.1)
    ∙ ap (trim_right is_space) (regroup a b c)
    ∙ trim_right-word is_space (a ++ b' ' ∷ (b ++ b' ' ∷ [])) c hc.0 hc.1
    ∙ sym (regroup a b c)

-- A text of lines, each with its newline.
pub unlines : List Text → Text
unlines [] = []
unlines (l ∷ ls) = l ++ b'\n' ∷ unlines ls

pub split-unlines :
    (ls : List Text) → All (Without (λ c. c == b'\n')) ls → split b'\n' (unlines ls) ≡ ls ++ [] ∷ []
unfolding unlines split_by
split-unlines [] h = refl
split-unlines (l ∷ ls) h =
    split_by-append (λ c. c == b'\n') l b'\n' (unlines ls) h.0 refl
    ∙ ap (◌∷◌ l) (split-unlines ls h.1)

pub one_line : (w : Text) → Without is_space w → Without (λ c. c == b'\n') w
unfolding is_space
one_line [] h = tt
one_line (c ∷ w) h = (ground (arith, h.0), one_line w h.1)

pub Without-append : (p : ℕ → Bool) (v w : Text) → Without p v → Without p w → Without p (v ++ w)
Without-append p [] w hv hw = hw
Without-append p (c ∷ v) w hv hw = (hv.0, Without-append p v w hv.1 hw)

-- Three words stand on one line.
pub three_words-Without :
    (a b c : Text) → IsWord a → IsWord b → IsWord c → Without (λ d. d == b'\n') (three_words a b c)
unfolding three_words
three_words-Without a b c ha hb hc =
    Without-append _ a _ (one_line a ha.1)
      (refl, Without-append _ b _ (one_line b hb.1) (refl, one_line c hc.1))

pub AllDigits-Without : (s : Text) → AllDigits s → Without is_space s
unfolding is_space is_digit
AllDigits-Without [] h = tt
AllDigits-Without (c ∷ s) h = (ground (arith, h.0), AllDigits-Without s h.1)

-- A printed integer is a word.
pub itoa-IsWord : (a : ℤ) → IsWord (itoa a)
unfolding itoa is_space
itoa-IsWord (pos n) = (show_ℕ-ne-nil n, AllDigits-Without (show_ℕ n) (show_ℕ-AllDigits n))
itoa-IsWord (negsuc n) =
    ((λ e. cc), (refl, AllDigits-Without (show_ℕ (suc n)) (show_ℕ-AllDigits (suc n))))

pub three_words-not_empty : (a b c : Text) → a ≢ [] → is_empty (three_words a b c) ≡ false
unfolding three_words
three_words-not_empty [] b c n = absurd (n refl)
three_words-not_empty (d ∷ a) b c n = refl
