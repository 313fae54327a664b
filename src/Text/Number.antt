-- ===== src/Text/Number.antt =====
-- `strconv.Itoa`, `strconv.Atoi` and `strconv.ParseInt` in base ten with 64 bits, and that the second
-- reads what the first prints.
use nfs_verification.Prelude.{
  ℕ, zero, suc, ◌+◌, ◌-◌, ◌*◌, ◌/◌, ◌%◌, ◌<◌, ◌≡◌, ◌≢◌, refl, sym, ap, ◌∙◌, Bool, true, ◌&&◌, List,
  [], ◌∷◌, Option, none, some, leb, ◌==◌, if◌then◌else◌, arith, ℤ, pos, negsuc, fits_int64, ◌≤ℤ◌,
  int64_min, int64_max,
}

-- The digits of `n` in front of `out`; `n + 1` rounds are enough, as `n` falls in each.
digits_from : ℕ → ℕ → List ℕ → List ℕ
digits_from zero n out = out
digits_from (suc f) n out =
    let rest = digits_from f (n / 10) ((b'0' + n % 10) ∷ out) in if n == 0 then out else rest

unfoldable pub show_ℕ : ℕ → List ℕ
unfolding digits_from
show_ℕ n = if n == 0 then b'0' ∷ [] else digits_from (suc n) n []

unfoldable pub itoa : ℤ → List ℕ
unfolding show_ℕ
itoa (pos n) = show_ℕ n
itoa (negsuc n) = b'-' ∷ show_ℕ (suc n)

unfoldable pub is_digit : ℕ → Bool
is_digit c = leb b'0' c && leb c b'9'

-- Decimal digits read after the number `n`.
scan : ℕ → List ℕ → Option ℕ
unfolding is_digit
scan n [] = some n
scan n (c ∷ s) = if is_digit c then scan (n * 10 + (c - b'0')) s else none

-- One digit or more.
pub parse_digits : List ℕ → Option ℕ
unfolding scan
parse_digits [] = none
parse_digits (c ∷ s) = scan 0 (c ∷ s)

in_range : Option ℤ → Option ℤ
in_range none = none
in_range (some a) = if fits_int64 a then some a else none

abbrev positive : Option ℕ → Option ℤ
positive none = none
positive (some n) = some (pos n)

abbrev negative : Option ℕ → Option ℤ
negative none = none
negative (some zero) = some (pos 0)
negative (some (suc n)) = some (negsuc n)

-- `Atoi(s)` and `ParseInt(s, 10, 64)`, with `none` for an error.
unfoldable pub parse_int : List ℕ → Option ℤ
unfolding parse_digits in_range
parse_int [] = none
parse_int (c ∷ s) = in_range (
    if c == b'-'
    then negative (parse_digits s)
    else if c == b'+'
    then positive (parse_digits s)
    else positive (parse_digits (c ∷ s)))

scan-digits_from : (f n : ℕ) (out : List ℕ) → n < f → scan 0 (digits_from f n out) ≡ scan n out
unfolding digits_from scan
scan-digits_from zero n out h = elim h [ ]
scan-digits_from (suc f) n out h =
    ground (arith, scan-digits_from f (n / 10) ((b'0' + n % 10) ∷ out))

digits_from-ne-nil : (f n : ℕ) (out : List ℕ) → out ≢ [] → digits_from f n out ≢ []
unfolding digits_from
digits_from-ne-nil zero n out h = h
digits_from-ne-nil (suc f) n out h =
    ground (arith, digits_from-ne-nil f (n / 10) ((b'0' + n % 10) ∷ out))

-- A digit in front of a list that is all digits, and of a list that does not start with a sign.
abbrev pub AllDigits : List ℕ → Type 0
AllDigits [] = Unit
AllDigits (c ∷ s) = (is_digit c ≡ true) × AllDigits s

digits_from-AllDigits : (f n : ℕ) (out : List ℕ) → AllDigits out → AllDigits (digits_from f n out)
unfolding digits_from is_digit
digits_from-AllDigits zero n out h = h
digits_from-AllDigits (suc f) n out h =
    ground (arith, digits_from-AllDigits f (n / 10) ((b'0' + n % 10) ∷ out))

show_ℕ-suc : (n : ℕ) → show_ℕ (suc n) ≡ digits_from (suc n) (suc n / 10) ((b'0' + suc n % 10) ∷ [])
unfolding show_ℕ
show_ℕ-suc n = ground arith

digit_last : (n : ℕ) → is_digit (b'0' + n % 10) ≡ true
unfolding is_digit
digit_last n = ground arith

pub show_ℕ-AllDigits : (n : ℕ) → AllDigits (show_ℕ n)
unfolding show_ℕ is_digit
show_ℕ-AllDigits zero = (refl, tt)
show_ℕ-AllDigits (suc n) =
    rw (show_ℕ-suc n) (
      digits_from-AllDigits (suc n) (suc n / 10) ((b'0' + suc n % 10) ∷ [])
        (digit_last (suc n), tt))

pub show_ℕ-ne-nil : (n : ℕ) → show_ℕ n ≢ []
unfolding show_ℕ
show_ℕ-ne-nil zero h = cc
show_ℕ-ne-nil (suc n) h =
    digits_from-ne-nil (suc n) (suc n / 10) ((b'0' + suc n % 10) ∷ []) (λ e. cc)
      (sym (show_ℕ-suc n) ∙ h)

parse_digits-scan : (s : List ℕ) → s ≢ [] → parse_digits s ≡ scan 0 s
unfolding parse_digits
parse_digits-scan [] h = absurd (h refl)
parse_digits-scan (c ∷ s) h = refl

scan_one : (n : ℕ) → scan (n / 10) ((b'0' + n % 10) ∷ []) ≡ some n
unfolding scan is_digit
scan_one n = ground arith

scan-show_ℕ : (n : ℕ) → scan 0 (show_ℕ n) ≡ some n
unfolding show_ℕ
scan-show_ℕ zero = scan_one 0
scan-show_ℕ (suc n) =
    ap (scan 0) (show_ℕ-suc n)
    ∙ scan-digits_from (suc n) (suc n / 10) ((b'0' + suc n % 10) ∷ []) (omega arith)
    ∙ scan_one (suc n)

pub parse_digits-show_ℕ : (n : ℕ) → parse_digits (show_ℕ n) ≡ some n
parse_digits-show_ℕ n = parse_digits-scan (show_ℕ n) (show_ℕ-ne-nil n) ∙ scan-show_ℕ n

-- A number in front of which no sign stands is read as it is.
parse_int_unsigned :
    (s : List ℕ) → s ≢ [] → AllDigits s → parse_int s ≡ in_range (positive (parse_digits s))
unfolding parse_int is_digit
parse_int_unsigned [] h d = absurd (h refl)
parse_int_unsigned (c ∷ s) h d = ground arith

-- Every 64-bit integer is read back from its print.
pub parse_int-itoa : (a : ℤ) → int64_min ≤ℤ a → a ≤ℤ int64_max → parse_int (itoa a) ≡ some a
unfolding parse_int itoa in_range
parse_int-itoa (pos n) lo hi =
    parse_int_unsigned (show_ℕ n) (show_ℕ-ne-nil n) (show_ℕ-AllDigits n)
    ∙ rw (parse_digits-show_ℕ n) (ground arith)
parse_int-itoa (negsuc n) lo hi = rw (parse_digits-show_ℕ (suc n)) (ground arith)
