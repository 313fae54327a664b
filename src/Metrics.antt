-- ===== src/Metrics.antt =====
-- pkg/framework/metrics.go: what a server publishes about itself, and what is left of it behind a restart. A
-- sample's value is of a type `F` with an order, for float64, of which nothing else is used.
pub mod Endpoints
pub mod Exposition
pub mod Verdicts
use nfs_verification.Clock.{Time}
use nfs_verification.Prelude.{
  ℕ, Bool, true, false, not, ◌&&◌, ◌||◌, List, [], ◌∷◌, ◌++◌, map, Option, none, some,
  if◌then◌else◌, ltb, ◌==◌, distinct, has, ℤ, length, pos,
}
use nfs_verification.Text.{Text, codes, eq_text, is_empty, has_suffix, trim_suffix}

-- `<` on strings.
pub text_less : Text → Text → Bool
text_less [] [] = false
text_less [] (_ ∷ _) = true
text_less (_ ∷ _) [] = false
text_less (a ∷ s) (b ∷ t) =
    let rest = text_less s t in if ltb a b then true else if a == b then rest else false

-- The value of a map at a key.
pub lookup {ℓ} : {A : Type ℓ} → Text → List (Text × A) → Option A
lookup key [] = none
lookup key ((k, v) ∷ es) = let rest = lookup key es in if eq_text k key then some v else rest

pub has_key {ℓ} : {A : Type ℓ} → Text → List (Text × A) → Bool
has_key key es = has (λ e. eq_text e.0 key) es

-- A map without a key.
without {ℓ} : {A : Type ℓ} → Text → List (Text × A) → List (Text × A)
without key [] = []
without key ((k, v) ∷ es) =
    let rest = without key es in if eq_text k key then rest else (k, v) ∷ rest

-- `m[key] = value`.
pub put {ℓ} : {A : Type ℓ} → Text → A → List (Text × A) → List (Text × A)
unfolding without
put key v es = (key, v) ∷ without key es

-- `MetricSet`.
pub record MetricSet {ℓ} (F : Type ℓ) : Type ℓ where
  pub at : Time
  pub endpoint : Text
  pub scheme : Text
  pub samples : List (Text × F)
  pub types : List (Text × Text)
  pub lines : ℕ
  pub unparsed : ℕ
  pub excerpt : Text

-- `nameOf`.
pub name_of : Text → Text
name_of [] = []
name_of (c ∷ s) = let rest = name_of s in if c == b'{' then [] else c ∷ rest

is_word_of : Option Text → Text → Bool
is_word_of none w = false
is_word_of (some t) w = eq_text t w

-- The type of the parent family, for a name with this suffix.
parent_counts : Text → List (Text × Text) → Text → Bool
unfolding is_word_of lookup
parent_counts name types suffix =
    let parent = lookup (trim_suffix name suffix) types in
    has_suffix name suffix
    && (is_word_of parent (codes "histogram") || is_word_of parent (codes "summary"))

module _ {ℓ} {F : Type ℓ} where
  -- `Len`.
  abbrev pub series_count : MetricSet F → ℕ
  series_count m = length m.samples

  -- The keys of `Samples`, sorted.
  pub series_of : MetricSet F → List Text
  unfolding text_less
  series_of m = distinct eq_text text_less (map (λ e. e.0) m.samples)

  -- `MetricNames`.
  pub metric_names : MetricSet F → List Text
  unfolding name_of text_less
  metric_names m = distinct eq_text text_less (map (λ e. name_of e.0) m.samples)

  -- `isCounter`.
  pub is_counter : MetricSet F → Text → Bool
  unfolding name_of lookup parent_counts
  is_counter m key =
      let name = name_of key in
      elim (lookup name m.types) [
        | some t ↦ eq_text t (codes "counter")
        | none ↦
            parent_counts name m.types (codes "_bucket")
            || parent_counts name m.types (codes "_count")
      ]
