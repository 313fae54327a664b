-- ===== src/Text/Trim.antt =====
-- Trimming twice is trimming once.
use nfs_verification.Prelude.{
  ℕ, ◌≡◌, refl, ap, ◌∙◌, Bool, ◌&&◌, [], ◌∷◌, Bool-cases, inl, inr, arith,
}
use nfs_verification.Text.{Text, is_empty, is_space, trim_left, trim_right, trim_space}

trim_right_idem : (p : ℕ → Bool) (s : Text) → trim_right p (trim_right p s) ≡ trim_right p s
unfolding trim_right
trim_right_idem p [] = refl
trim_right_idem p (c ∷ s) = elim (Bool-cases (is_empty (trim_right p s) && p c)) [
  | inl e ↦ rw e refl
  | inr e ↦ rw e (rw (trim_right_idem p s, e))
]

trim_left-trim_right :
    (p : ℕ → Bool) (s : Text)
    → trim_left p (trim_right p (trim_left p s)) ≡ trim_right p (trim_left p s)
unfolding trim_left
trim_left-trim_right p [] = unfold trim_right in refl
trim_left-trim_right p (c ∷ s) = elim (Bool-cases (p c)) [
  | inl e ↦ rw e (trim_left-trim_right p s)
  | inr e ↦ rw e (unfold trim_right in ground arith)
]

pub trim_space_idem : (s : Text) → trim_space (trim_space s) ≡ trim_space s
unfolding trim_space
trim_space_idem s =
    ap (trim_right is_space) (trim_left-trim_right is_space s)
    ∙ trim_right_idem is_space (trim_left is_space s)
