-- ===== src/Prelude/Distinct.antt =====
-- The distinct members of a list in some order: what is left of a map whose keys were added one by one
-- and then sorted.
use Prim.Native.Nat.{◌+◌}
use mathlib.Core.Bool.{Bool, true, false, ◌||◌}
use mathlib.Core.Logic.{◌↔◌, inl, inr}
use mathlib.Core.List.{List, [], ◌∷◌}
use mathlib.Core.Path.{◌≡◌, refl, sym, ap, ◌∙◌}
use native.Mathlib.Omega.{arith}
use nfs_verification.Prelude.Lists.{count_if, has}
use nfs_verification.Prelude.Tests.{if◌then◌else◌, Bool-cases}

or_true : (b : Bool) → (b || true) ≡ true
or_true true = refl
or_true false = refl

module _ {ℓ} {A : Type ℓ} (eq : A → A → Bool) where
  add_key : A → List A → List A
  add_key a seen = if has (eq a) seen then seen else a ∷ seen

  -- The keys of a map to which the members are added.
  keys : List A → List A
  unfolding add_key
  keys [] = []
  keys (a ∷ as_) = add_key a (keys as_)

module _ {ℓ} {A : Type ℓ} (less : A → A → Bool) where
  insert_by : A → List A → List A
  insert_by a [] = a ∷ []
  insert_by a (b ∷ bs) = let rest = insert_by a bs in if less a b then a ∷ b ∷ bs else b ∷ rest

  -- `sort.Slice`.
  unfoldable pub sort_by : List A → List A
  unfolding insert_by
  sort_by [] = []
  sort_by (a ∷ as_) = insert_by a (sort_by as_)

module _ {ℓ} {A : Type ℓ} (eq less : A → A → Bool) where
  unfoldable pub distinct : List A → List A
  unfolding keys sort_by
  distinct as_ = sort_by less (keys eq as_)

  count_if-insert_by :
      (p : A → Bool) (a : A) (bs : List A)
      → count_if p (insert_by less a bs) ≡ (if p a then 1 else 0) + count_if p bs
  unfolding insert_by
  count_if-insert_by p a [] = refl
  count_if-insert_by p a (b ∷ bs) = ground (arith, count_if-insert_by p a bs)

  count_if-sort_by : (p : A → Bool) (as_ : List A) → count_if p (sort_by less as_) ≡ count_if p as_
  unfolding sort_by
  count_if-sort_by p [] = refl
  count_if-sort_by p (a ∷ as_) =
      count_if-insert_by p a (sort_by less as_)
      ∙ ap (λ n. (if p a then 1 else 0) + n) (count_if-sort_by p as_)

  has-insert_by :
      (p : A → Bool) (a : A) (bs : List A) → has p (insert_by less a bs) ≡ (p a || has p bs)
  unfolding insert_by
  has-insert_by p a [] = refl
  has-insert_by p a (b ∷ bs) = ground (arith, has-insert_by p a bs)

  has-sort_by : (p : A → Bool) (as_ : List A) → has p (sort_by less as_) ≡ has p as_
  unfolding sort_by
  has-sort_by p [] = refl
  has-sort_by p (a ∷ as_) =
      has-insert_by p a (sort_by less as_) ∙ ap (◌||◌ (p a)) (has-sort_by p as_)

  module _ (decides : (x y : A) → (eq x y ≡ true) ↔ (x ≡ y)) where
    has-member :
        (p : A → Bool) (x : A) (ks : List A) → has (eq x) ks ≡ true → p x ≡ true → has p ks ≡ true
    has-member p x [] h e = cc
    has-member p x (k ∷ ks) h e = elim (Bool-cases (eq x k)) [
      | inl m ↦ rw (sym (ap p ((decides x k).0 m)) ∙ e) refl
      | inr m ↦ rw (has-member p x ks (sym (ap (λ b. b || has (eq x) ks) m) ∙ h) e) (or_true (p k))
    ]

    has-keys : (p : A → Bool) (as_ : List A) → has p (keys eq as_) ≡ has p as_
    unfolding keys add_key
    has-keys p [] = refl
    has-keys p (x ∷ as_) = elim (Bool-cases (has (eq x) (keys eq as_))) [
      | inl m ↦ rw m (elim (Bool-cases (p x)) [
        | inl e ↦ rw e (has-member p x (keys eq as_) m e)
        | inr e ↦ rw e (has-keys p as_)
      ])
      | inr m ↦ rw m (ap (◌||◌ (p x)) (has-keys p as_))
    ]

    count_none : (p : A → Bool) (ks : List A) → has p ks ≡ false → count_if p ks ≡ 0
    count_none p [] h = refl
    count_none p (k ∷ ks) h = ground (arith, count_none p ks)

    count_if-keys :
        (a : A) (as_ : List A) → count_if (eq a) (keys eq as_) ≡ (if has (eq a) as_ then 1 else 0)
    unfolding keys add_key
    count_if-keys a [] = refl
    count_if-keys a (x ∷ as_) = elim (Bool-cases (has (eq x) (keys eq as_))) [
      | inl m ↦ rw m (elim (Bool-cases (eq a x)) [
        | inl e ↦ rw e (
            count_if-keys a as_
            ∙ ap (λ b. if b then 1 else 0)
                (sym (has-keys (eq a) as_) ∙ has-member (eq a) x (keys eq as_) m e))
        | inr e ↦ rw e (count_if-keys a as_)
      ])
      | inr m ↦ rw m (elim (Bool-cases (eq a x)) [
        | inl e ↦ rw e (
            ap (λ n. 1 + n)
              (count_none (eq a) (keys eq as_)
                (ap (λ y. has (eq y) (keys eq as_)) ((decides a x).0 e) ∙ m)))
        | inr e ↦ rw e (omega (arith, count_if-keys a as_))
      ])
    ]

    -- Every member once, and nothing else.
    pub count_if-distinct :
        (a : A) (as_ : List A) → count_if (eq a) (distinct as_) ≡ (if has (eq a) as_ then 1 else 0)
    unfolding distinct
    count_if-distinct a as_ = count_if-sort_by (eq a) (keys eq as_) ∙ count_if-keys a as_

    -- A test passes for one of them where it passes for a member.
    pub has-distinct : (p : A → Bool) (as_ : List A) → has p (distinct as_) ≡ has p as_
    unfolding distinct
    has-distinct p as_ = has-sort_by p (keys eq as_) ∙ has-keys p as_
