-- ===== src/Text/Equality.antt =====
-- `==` on strings decides equality.
use nfs_verification.Prelude.{◌≡◌, refl, ◌↔◌, true, List, ◌∷◌, arith}
use nfs_verification.Text.{Text, eq_text, eq_texts}

pub eq_text_iff : (a b : Text) → (eq_text a b ≡ true) ↔ (a ≡ b)
unfolding eq_text
eq_text_iff (x ∷ a) (y ∷ b) = ground (arith, eq_text_iff a b)
eq_text_iff _ _ = ground arith

pub eq_text_refl : (a : Text) → eq_text a a ≡ true
eq_text_refl a = (eq_text_iff a a).1 refl

pub eq_texts_iff : (a b : List Text) → (eq_texts a b ≡ true) ↔ (a ≡ b)
unfolding eq_texts
eq_texts_iff (x ∷ a) (y ∷ b) = ground (arith, eq_texts_iff a b, eq_text_iff x y)
eq_texts_iff _ _ = ground arith
