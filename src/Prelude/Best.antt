-- ===== src/Prelude/Best.antt =====
-- The loop that keeps the best member of a list so far: of those that pass a test, the first one that
-- none beats.
use mathlib.Core.Bool.{Bool, true, false, not}
use mathlib.Core.List.{List, [], ◌∷◌, ◌++◌, append_assoc, append-nil}
use mathlib.Core.Logic.{inl, inr}
use mathlib.Core.Option.{Option, none, some}
use mathlib.Core.Path.{◌≡◌, refl, sym, subst}
use nfs_verification.Prelude.Lists.{All}
use nfs_verification.Prelude.Tests.{if◌then◌else◌, Bool-cases}

pub All-append {ℓ} :
    {A : Type ℓ} (P : A → Type 0) (xs ys : List A) → All P xs → All P ys → All P (xs ++ ys)
All-append P [] ys hx hy = hy
All-append P (x ∷ xs) ys hx hy = (hx.0, All-append P xs ys hx.1 hy)

pub All-map {ℓ} :
    {A : Type ℓ} (P Q : A → Type 0) (xs : List A) → ((x : A) → P x → Q x) → All P xs → All Q xs
All-map P Q [] f h = tt
All-map P Q (x ∷ xs) f h = (f x h.0, All-map P Q xs f h.1)

snoc {ℓ} :
    {A : Type ℓ} (seen pre post : List A) (b x : A)
    → seen ≡ pre ++ b ∷ post
    → seen ++ x ∷ [] ≡ pre ++ b ∷ (post ++ x ∷ [])
snoc seen pre post b x eq = rw eq (append_assoc pre (b ∷ post) (x ∷ []))

module _ {A : Type 0} (p : A → Bool) (beats : A → A → Bool) where
  abbrev pub best_step : Option A → A → Option A
  best_step best x =
      if not (p x)
      then best
      else elim best [ none ↦ some x | some b ↦ if beats x b then some x else some b ]

  unfoldable pub best_from : Option A → List A → Option A
  best_from best [] = best
  best_from best (x ∷ xs) = best_from (best_step best x) xs

  -- `none`: no member of `seen` passes. `some b`: `b` stands in `seen` and passes, beats every member
  -- that passes and stands before it, and is beaten by none after it.
  abbrev pub IsBest : List A → Option A → Type 0
  IsBest seen none = All (λ x. p x ≡ false) seen
  IsBest seen (some b) =
      (pre : List A) × (post : List A) × (seen ≡ pre ++ b ∷ post)
      × (p b ≡ true)
      × All (λ x. p x ≡ true → beats b x ≡ true) pre
      × All (λ x. p x ≡ true → beats x b ≡ false) post

  module _ (asym : (x y : A) → beats x y ≡ true → beats y x ≡ false)
      (mix : (x b y : A) → beats x b ≡ true → beats y b ≡ false → beats x y ≡ true) where
    best_step-IsBest :
        (seen : List A) (best : Option A) (x : A)
        → IsBest seen best
        → IsBest (seen ++ x ∷ []) (best_step best x)
    best_step-IsBest seen none x h = elim (Bool-cases (p x)) [
      | inl e ↦ rw e (seen, [], refl, e, All-map _ _ seen (λ y f t. cc) h, tt)
      | inr e ↦ rw e (All-append _ seen (x ∷ []) h (e, tt))
    ]
    best_step-IsBest seen (some b) x (pre, post, eq, pass, hpre, hpost) = elim (Bool-cases (p x)) [
      | inl e ↦ elim (Bool-cases (beats x b)) [
        | inl w ↦
            rw (e, w)
              (
                seen,
                [],
                refl,
                e,
                subst (All (λ y. p y ≡ true → beats x y ≡ true)) (sym eq) (
                    All-append _ pre (b ∷ post)
                      (All-map _ _ pre (λ y f t. mix x b y w (asym b y (f t))) hpre)
                      ((λ _. w), All-map _ _ post (λ y f t. mix x b y w (f t)) hpost)),
                tt,
              )
        | inr l ↦
            rw (e, l)
              (
                pre,
                post ++ x ∷ [],
                snoc seen pre post b x eq,
                pass,
                hpre,
                All-append _ post (x ∷ []) hpost ((λ _. l), tt),
              )
      ]
      | inr e ↦ rw e (
        pre,
        post ++ x ∷ [],
        snoc seen pre post b x eq,
        pass,
        hpre,
        All-append _ post (x ∷ []) hpost ((λ t. cc), tt),
      )
    ]

    best_from-IsBest :
        (seen : List A) (best : Option A) (xs : List A)
        → IsBest seen best
        → IsBest (seen ++ xs) (best_from best xs)
    unfolding best_from
    best_from-IsBest seen best [] h = rw append-nil h
    best_from-IsBest seen best (x ∷ xs) h =
        subst (λ ys. IsBest ys (best_from (best_step best x) xs)) (append_assoc seen (x ∷ []) xs)
          (best_from-IsBest (seen ++ x ∷ []) (best_step best x) xs (best_step-IsBest seen best x h))

    -- The loop over a whole list.
    pub best_from_all : (xs : List A) → IsBest xs (best_from none xs)
    best_from_all xs = best_from-IsBest [] none xs tt
