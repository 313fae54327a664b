-- ===== src/Text.antt =====
-- The functions of Go's `strings` and `strconv` packages that the source calls. A string is the list of
-- its code points; Go's `len`, which counts bytes of UTF-8, is `byte_len`.
pub mod Number
pub mod Words
pub mod Joins
pub mod Found
pub mod Equality
pub mod Trim
use Prim.Native.Char.{code}
use Prim.Native.String.{String}
use nfs_verification.Prelude.{
  ℕ, zero, suc, ◌+◌, ◌-◌, Bool, true, false, not, ◌&&◌, ◌||◌, List, [], ◌∷◌, ◌++◌, Option, none,
  some, ltb, leb, ◌==◌, if◌then◌else◌, take, drop, keep_if,
}

abbrev pub Text : Type 0
Text = List ℕ

-- A literal.
abbrev pub codes : String → Text
codes String.[] = []
codes (String.◌∷◌ c s) = code c ∷ codes s

-- `==` on strings.
unfoldable pub eq_text : Text → Text → Bool
eq_text [] [] = true
eq_text (a ∷ s) (b ∷ t) = a == b && eq_text s t
eq_text _ _ = false

unfoldable pub eq_texts : List Text → List Text → Bool
unfolding eq_text
eq_texts [] [] = true
eq_texts (a ∷ s) (b ∷ t) = eq_text a b && eq_texts s t
eq_texts _ _ = false

abbrev pub is_empty {ℓ} : {A : Type ℓ} → List A → Bool
is_empty [] = true
is_empty (_ ∷ _) = false

abbrev within : ℕ → ℕ → ℕ → Bool
within lo hi c = leb lo c && leb c hi

-- `unicode.IsSpace`.
unfoldable pub is_space : ℕ → Bool
is_space c =
    within 9 13 c
    || c == 32
    || c == 0x85
    || c == 0xa0
    || c == 0x1680
    || within 0x2000 0x200a c
    || c == 0x2028
    || c == 0x2029
    || c == 0x202f
    || c == 0x205f
    || c == 0x3000

unfoldable pub trim_left : (ℕ → Bool) → Text → Text
trim_left p [] = []
trim_left p (c ∷ s) = if p c then trim_left p s else c ∷ s

unfoldable pub trim_right : (ℕ → Bool) → Text → Text
trim_right p [] = []
trim_right p (c ∷ s) = let rest = trim_right p s in if is_empty rest && p c then [] else c ∷ rest

-- `strings.TrimSpace`.
unfoldable pub trim_space : Text → Text
unfolding trim_left trim_right is_space
trim_space s = trim_right is_space (trim_left is_space s)

-- One more character at the front of the first part.
pub push : ℕ → List Text → List Text
push c [] = (c ∷ []) ∷ []
push c (w ∷ ws) = (c ∷ w) ∷ ws

-- The parts between the characters that the test accepts, the empty ones included.
unfoldable pub split_by : (ℕ → Bool) → Text → List Text
unfolding push
split_by p [] = [] ∷ []
split_by p (c ∷ s) = if p c then [] ∷ split_by p s else push c (split_by p s)

-- `strings.Split` at a separator of one character.
abbrev pub split : ℕ → Text → List Text
split sep = split_by (λ c. c == sep)

-- `strings.FieldsFunc`.
abbrev pub fields_func : (ℕ → Bool) → Text → List Text
fields_func p s = keep_if (λ w. not (is_empty w)) (split_by p s)

-- `strings.Fields`.
unfoldable pub fields : Text → List Text
unfolding split_by is_space
fields s = fields_func is_space s

unfoldable pub has_prefix : Text → Text → Bool
has_prefix s [] = true
has_prefix [] (_ ∷ _) = false
has_prefix (a ∷ s) (b ∷ t) = a == b && has_prefix s t

unfoldable pub has_suffix : Text → Text → Bool
unfolding eq_text
has_suffix [] t = is_empty t
has_suffix (a ∷ s) t = eq_text (a ∷ s) t || has_suffix s t

abbrev bump : Option ℕ → Option ℕ
bump none = none
bump (some i) = some (suc i)

-- `strings.Index`, with `none` for -1. The position is counted in characters, and the source only
-- compares positions in one string.
unfoldable pub index : Text → Text → Option ℕ
unfolding has_prefix
index [] t = if is_empty t then some 0 else none
index (a ∷ s) t = if has_prefix (a ∷ s) t then some 0 else bump (index s t)

unfoldable pub contains : Text → Text → Bool
unfolding has_prefix
contains [] t = is_empty t
contains (a ∷ s) t = has_prefix (a ∷ s) t || contains s t

-- `strings.Cut` at one character: `none` where it is not found.
unfoldable pub cut : ℕ → Text → Option (Text × Text)
cut sep [] = none
cut sep (c ∷ s) =
    let rest = cut sep s in
    if c == sep then some ([], s) else elim rest [ none ↦ none | some (a, b) ↦ some (c ∷ a, b) ]

-- `strings.Join`.
unfoldable pub join : Text → List Text → Text
join sep [] = []
join sep (w ∷ []) = w
join sep (w ∷ (v ∷ vs)) = w ++ (sep ++ join sep (v ∷ vs))

-- `strings.ToLower`, as far as an ASCII word can be found in the result: besides the capital letters
-- only U+0130 and U+212A have an ASCII lower case, and no other character gets one.
unfoldable pub lower_char : ℕ → ℕ
lower_char c =
    if within b'A' b'Z' c
    then c + 32
    else if c == 0x130
    then b'i'
    else if c == 0x212a
    then b'k'
    else c

unfoldable pub to_lower : Text → Text
unfolding lower_char
to_lower [] = []
to_lower (c ∷ s) = lower_char c ∷ to_lower s

-- `strings.ToUpper`, as far as an ASCII word can come out of it: besides the small letters only U+0131
-- and U+017F have an ASCII upper case.
upper_char : ℕ → ℕ
upper_char c =
    if leb b'a' c && leb c b'z'
    then c - 32
    else if c == 0x131
    then b'I'
    else if c == 0x17f
    then b'S'
    else c

unfoldable pub to_upper : Text → Text
unfolding upper_char
to_upper [] = []
to_upper (c ∷ s) = upper_char c ∷ to_upper s

rune_len : ℕ → ℕ
rune_len c = if ltb c 0x80 then 1 else if ltb c 0x800 then 2 else if ltb c 0x10000 then 3 else 4

-- `len(s)`.
unfoldable pub byte_len : Text → ℕ
unfolding rune_len
byte_len [] = 0
byte_len (c ∷ s) = rune_len c + byte_len s

-- `strings.TrimPrefix`.
unfoldable pub trim_prefix : Text → Text → Text
unfolding has_prefix
trim_prefix s [] = s
trim_prefix [] (b ∷ p) = []
trim_prefix (a ∷ s) (b ∷ p) = if has_prefix (a ∷ s) (b ∷ p) then trim_prefix s p else a ∷ s

-- `strings.TrimSuffix`.
unfoldable pub trim_suffix : Text → Text → Text
unfolding eq_text
trim_suffix [] t = []
trim_suffix (a ∷ s) t = let rest = trim_suffix s t in if eq_text (a ∷ s) t then [] else a ∷ rest
