-- ===== src/Text/Found.antt =====
-- Reading a text line by line, where a line that cannot be read is passed over.
use nfs_verification.Prelude.{◌≡◌, refl, ap, ◌∙◌, List, [], ◌∷◌, ◌++◌, map, Option, none, some, All}

module _ {ℓ κ} {A : Type ℓ} {B : Type κ} (read : A → Option B) where
  -- The values that are read, in order.
  unfoldable pub found_in : List A → List B
  found_in [] = []
  found_in (l ∷ ls) = let rest = found_in ls in elim (read l) [ none ↦ rest | some a ↦ a ∷ rest ]

  pub found_in-cons :
      (l : A) (ls : List A) (b : B) → read l ≡ some b → found_in (l ∷ ls) ≡ b ∷ found_in ls
  unfolding found_in
  found_in-cons l ls b e = rw (e, found_in) refl

  -- What is printed so that it can be read is found in front of what follows.
  pub found_in-map {μ} :
      {P : Type μ} (show : P → A) (value : P → B) (ps : List P) (ls : List A)
      → All (λ p. read (show p) ≡ some (value p)) ps
      → found_in (map show ps ++ ls) ≡ map value ps ++ found_in ls
  found_in-map show value [] ls h = refl
  found_in-map show value (p ∷ ps) ls h =
      found_in-cons (show p) (map show ps ++ ls) (value p) h.0
      ∙ ap (◌∷◌ (value p)) (found_in-map show value ps ls h.1)
