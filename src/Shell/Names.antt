-- ===== src/Shell/Names.antt =====
-- pkg/framework/exec.go and framework.go: the names that become files in a pod and objects in the API.
use nfs_verification.Prelude.{
  ℕ, ◌≤◌, ◌≡◌, ◌≢◌, refl, ap, ◌∙◌, Bool, true, false, [], ◌∷◌, ◌++◌, Bool-cases, inl, inr, arith,
  length, All, All-map,
}
use nfs_verification.Shell.{
  check_script_id, is_id_char, is_alnum, all_chars, case_prefix, object_name, replace_char,
}
use nfs_verification.Text.{Text, codes, to_lower, lower_char, has_prefix}

all_chars-All : (p : ℕ → Bool) (s : Text) → all_chars p s ≡ true → All (λ c. p c ≡ true) s
unfolding all_chars
all_chars-All p [] h = tt
all_chars-All p (c ∷ s) h = (ground arith, all_chars-All p s (ground arith))

id_char_safe :
    (c : ℕ) → is_id_char c ≡ true → (c ≢ b'/') × (c ≢ b' ') × (c ≢ b'\'') × (is_id_char c ≡ true)
unfolding is_id_char
id_char_safe c h = ground arith

first_safe :
    (c : ℕ) → is_alnum c ≡ true → (c ≢ b'/') × (c ≢ b' ') × (c ≢ b'\'') × (is_id_char c ≡ true)
unfolding is_id_char
first_safe c h = ground arith

no_dot : (c : ℕ) (s : Text) → is_alnum c ≡ true → has_prefix (c ∷ s) (codes ".") ≡ false
unfolding has_prefix is_alnum
no_dot c s h = ground arith

-- A script id that is accepted is 1 to 64 characters long, holds no slash, space, quote or other
-- character that is not a letter, a digit, a dot, an underscore or a dash, and does not start with a
-- dot, so that it names a file in its directory and nothing outside it.
pub check_script_id-safe :
    (id : Text)
    → check_script_id id ≡ true
    → (1 ≤ length id)
      × (length id ≤ 64)
      × All (λ c. (c ≢ b'/') × (c ≢ b' ') × (c ≢ b'\'') × (is_id_char c ≡ true)) id
      × (has_prefix id (codes ".") ≡ false)
unfolding check_script_id
check_script_id-safe [] h = cc
check_script_id-safe (c ∷ s) h = (
  omega arith,
  ground arith,
  (
    first_safe c (ground arith),
    All-map _ _ s id_char_safe (all_chars-All is_id_char s (ground arith)),
  ),
  no_dot c s (ground arith),
)

lower_char_idem : (c : ℕ) → lower_char (lower_char c) ≡ lower_char c
unfolding lower_char
lower_char_idem c = ground arith

to_lower_idem : (s : Text) → to_lower (to_lower s) ≡ to_lower s
unfolding to_lower
to_lower_idem [] = refl
to_lower_idem (c ∷ s) = cc (lower_char_idem c, to_lower_idem s)

to_lower-append : (s t : Text) → to_lower (s ++ t) ≡ to_lower s ++ to_lower t
unfolding to_lower
to_lower-append [] t = refl
to_lower-append (c ∷ s) t = cc (to_lower-append s t)

has_prefix-append : (s t : Text) → has_prefix (s ++ t) s ≡ true
unfolding has_prefix
has_prefix-append [] [] = refl
has_prefix-append [] (c ∷ t) = refl
has_prefix-append (c ∷ s) t = ground (arith, has_prefix-append s t)

case_prefix_lower :
    (case_id run_id : Text) → to_lower (case_prefix case_id run_id) ≡ case_prefix case_id run_id
unfolding case_prefix
case_prefix_lower case_id run_id =
    to_lower-append (codes "nfsv-") _
    ∙ ap (◌++◌ (codes "nfsv-")) (
        to_lower-append (to_lower (replace_char b'_' b'-' case_id)) _
        ∙ cc (
          to_lower_idem (replace_char b'_' b'-' case_id),
          to_lower-append (to_lower run_id) (b'-' ∷ []),
          to_lower_idem run_id,
        ))

object_name_fixed :
    (case_id run_id s : Text)
    → to_lower s ≡ s
    → has_prefix s (case_prefix case_id run_id) ≡ true
    → object_name case_id run_id s ≡ s
unfolding object_name
object_name_fixed case_id run_id s low e = rw (low, e)

-- `Name` gives a name with the case's prefix in lower case, and is idempotent: a name that it made is
-- left as it is.
pub object_name_idem :
    (case_id run_id logical : Text)
    → (object_name case_id run_id (object_name case_id run_id logical)
        ≡ object_name case_id run_id logical)
      × (has_prefix (object_name case_id run_id logical) (case_prefix case_id run_id) ≡ true)
unfolding object_name
object_name_idem case_id run_id logical =
    let lowered = to_lower logical in
    let prefix = case_prefix case_id run_id in
    elim (Bool-cases (has_prefix lowered prefix)) [
      | inl e ↦ rw e (object_name_fixed case_id run_id lowered (to_lower_idem logical) e, e)
      | inr e ↦ rw e (
        object_name_fixed case_id run_id (prefix ++ lowered)
            (to_lower-append prefix lowered
              ∙ cc (case_prefix_lower case_id run_id, to_lower_idem logical))
            (has_prefix-append prefix lowered),
        has_prefix-append prefix lowered,
      )
    ]
