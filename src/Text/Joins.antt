-- ===== src/Text/Joins.antt =====
-- Words joined by single spaces, as one line of output.
use mathlib.Core.List.{append_assoc}
use nfs_verification.Prelude.{
  ℕ, ◌≡◌, ◌≢◌, refl, sym, ap, ◌∙◌, Bool, true, List, [], ◌∷◌, ◌++◌, All, ◌==◌,
}
use nfs_verification.Text.Words.{
  IsWord, fields_first, fields_last, trim_left-word, is_empty-append, trim_right-Without, Without,
  Without-append, one_line,
}
use nfs_verification.Text.{Text, is_space, trim_left, trim_right, trim_space, fields, join, codes}

abbrev pub spaced : List Text → Text
spaced = join (codes " ")

pub fields-spaced :
    (w : Text) (ws : List Text) → All IsWord (w ∷ ws) → fields (spaced (w ∷ ws)) ≡ w ∷ ws
unfolding join fields
fields-spaced w [] h = fields_last is_space w h.0.0 h.0.1
fields-spaced w (v ∷ ws) h =
    fields_first is_space w b' ' _ h.0.0 h.0.1 refl ∙ ap (◌∷◌ w) (fields-spaced v ws h.1)

-- A back that is not trimmed keeps what is in front of it.
trim_right-keeps :
    (p : ℕ → Bool) (s t : Text) → t ≢ [] → trim_right p t ≡ t → trim_right p (s ++ t) ≡ s ++ t
unfolding trim_right
trim_right-keeps p [] t n h = h
trim_right-keeps p (c ∷ s) t n h = rw (trim_right-keeps p s t n h, is_empty-append s t n)

spaced-ne-nil : (w : Text) (ws : List Text) → w ≢ [] → spaced (w ∷ ws) ≢ []
unfolding join
spaced-ne-nil [] ws n e = n refl
spaced-ne-nil (c ∷ w) [] n e = cc
spaced-ne-nil (c ∷ w) (v ∷ ws) n e = cc

trim_right-spaced :
    (w : Text) (ws : List Text)
    → All IsWord (w ∷ ws)
    → trim_right is_space (spaced (w ∷ ws)) ≡ spaced (w ∷ ws)
unfolding join
trim_right-spaced w [] h = trim_right-Without is_space w h.0.1
trim_right-spaced w (v ∷ ws) h =
    ap (trim_right is_space) (sym (append_assoc w (b' ' ∷ []) (spaced (v ∷ ws))))
    ∙ trim_right-keeps is_space (w ++ b' ' ∷ []) (spaced (v ∷ ws)) (spaced-ne-nil v ws h.1.0.0)
        (trim_right-spaced v ws h.1)
    ∙ append_assoc w (b' ' ∷ []) (spaced (v ∷ ws))

-- A space at the end goes.
trim_right_space :
    (p : ℕ → Bool) (s : Text) (c : ℕ) → p c ≡ true → trim_right p (s ++ c ∷ []) ≡ trim_right p s
unfolding trim_right
trim_right_space p [] c h = rw h
trim_right_space p (d ∷ s) c h = rw (trim_right_space p s c h)

trim_left-spaced :
    (w : Text) (ws : List Text) (t : Text)
    → IsWord w
    → trim_left is_space (spaced (w ∷ ws) ++ t) ≡ spaced (w ∷ ws) ++ t
unfolding join
trim_left-spaced w [] t h = trim_left-word is_space w t h.0 h.1
trim_left-spaced w (v ∷ ws) t h =
    ap (trim_left is_space) (append_assoc w _ t)
    ∙ trim_left-word is_space w _ h.0 h.1
    ∙ sym (append_assoc w _ t)

-- A line of words is what is left of it behind its newline is trimmed.
pub trim_space-spaced :
    (w : Text) (ws : List Text)
    → All IsWord (w ∷ ws)
    → trim_space (spaced (w ∷ ws) ++ codes "\n") ≡ spaced (w ∷ ws)
unfolding trim_space is_space
trim_space-spaced w ws h =
    ap (trim_right is_space) (trim_left-spaced w ws (codes "\n") h.0)
    ∙ trim_right_space is_space (spaced (w ∷ ws)) b'\n' refl
    ∙ trim_right-spaced w ws h

-- A line of words stands on one line.
pub spaced-Without : (ws : List Text) → All IsWord ws → Without (λ d. d == b'\n') (spaced ws)
unfolding join
spaced-Without [] h = tt
spaced-Without (w ∷ []) h = one_line w h.0.1
spaced-Without (w ∷ (v ∷ ws)) h =
    Without-append _ w _ (one_line w h.0.1) (refl, spaced-Without (v ∷ ws) h.1)
