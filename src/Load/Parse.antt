-- ===== src/Load/Parse.antt =====
-- pkg/framework/load.go: reading the workload's log back. scripts/write-load.sh prints one line
-- "OK <index> <seconds>" or "ERR <index> <seconds>" for each attempt.
use nfs_verification.Clock.{unix}
use nfs_verification.Load.{
  LoadRecord, LoadReport, ok_word, err_word, parse_fields, add_line, parse_lines, parse_load_log,
}
use nfs_verification.Prelude.{
  ℕ, ◌+◌, ◌≡◌, refl, ap, ◌∙◌, Bool, true, false, not, List, [], ◌∷◌, ◌++◌, map, some, ◌==◌, arith,
  ℤ, ◌≤ℤ◌, int64_min, int64_max, length, count_if, All,
}
use nfs_verification.Text.{Text, is_empty, is_space, trim_space, split, fields}
use nfs_verification.Text.Number.{itoa, parse_int, parse_int-itoa}
use nfs_verification.Text.Words.{
  Without, IsWord, three_words, fields-three_words, trim_space-three_words, unlines, split-unlines,
  three_words-Without, itoa-IsWord, three_words-not_empty,
}

-- The lines that are not blank.
abbrev pub printed_lines : List Text → ℕ
printed_lines = count_if (λ l. not (is_empty (trim_space l)))

parse_lines_count :
    (ls : List Text)
    → length (parse_lines ls).records + length (parse_lines ls).unparsed ≡ printed_lines ls
unfolding parse_lines
parse_lines_count [] = omega arith
parse_lines_count (l ∷ ls) = ground (arith, parse_lines_count ls)

-- Every line of the log that is not blank is one record or one unparsed line.
pub parse_load_log_complete :
    (out : Text)
    → length (parse_load_log out).records + length (parse_load_log out).unparsed
      ≡ printed_lines (split b'\n' out)
unfolding parse_load_log
parse_load_log_complete out = parse_lines_count (split b'\n' out)

-- One attempt as the workload prints it.
pub record Attempt : Type 0 where
  pub good : Bool
  pub number : ℤ
  pub secs : ℤ

abbrev pub status_word : Bool → Text
status_word true = ok_word
status_word false = err_word

pub attempt_line : Attempt → Text
attempt_line a = three_words (status_word a.good) (itoa a.number) (itoa a.secs)

abbrev pub InInt64 : ℤ → Type 0
InInt64 a = (int64_min ≤ℤ a) × (a ≤ℤ int64_max)

abbrev pub IsPrintable : Attempt → Type 0
IsPrintable a = InInt64 a.number × InInt64 a.secs

abbrev pub record_for : Attempt → LoadRecord
record_for a = record { index = a.number; is_ok = a.good; at = unix a.secs }

status_word-IsWord : (b : Bool) → IsWord (status_word b)
unfolding is_space
status_word-IsWord true = ((λ e. cc), (refl, (refl, tt)))
status_word-IsWord false = ((λ e. cc), (refl, (refl, (refl, tt))))

parse_fields-good :
    (b : Bool) (n s : ℤ) (num sec : Text)
    → parse_int num ≡ some n
    → parse_int sec ≡ some s
    → parse_fields (status_word b ∷ num ∷ sec ∷ [])
      ≡ some (record { index = n; is_ok = b; at = unix s })
unfolding parse_fields
parse_fields-good true n s num sec hn hs = rw (hn, hs)
parse_fields-good false n s num sec hn hs = rw (hn, hs)

read_attempt :
    (a : Attempt) → IsPrintable a → parse_fields (fields (attempt_line a)) ≡ some (record_for a)
unfolding attempt_line
read_attempt a h =
    ap parse_fields (
      fields-three_words _ _ _ (status_word-IsWord a.good) (itoa-IsWord a.number)
        (itoa-IsWord a.secs))
    ∙ parse_fields-good a.good a.number a.secs _ _ (parse_int-itoa a.number h.0.0 h.0.1)
        (parse_int-itoa a.secs h.1.0 h.1.1)

trim-attempt : (a : Attempt) → trim_space (attempt_line a) ≡ attempt_line a
unfolding attempt_line
trim-attempt a =
    trim_space-three_words _ _ _ (status_word-IsWord a.good) (itoa-IsWord a.number)
      (itoa-IsWord a.secs)

line-not_empty : (a : Attempt) → is_empty (attempt_line a) ≡ false
unfolding attempt_line
line-not_empty a = three_words-not_empty _ _ _ (status_word-IsWord a.good).0

line-Without : (a : Attempt) → Without (λ c. c == b'\n') (attempt_line a)
unfolding attempt_line
line-Without a =
    three_words-Without _ _ _ (status_word-IsWord a.good) (itoa-IsWord a.number)
      (itoa-IsWord a.secs)

lines-Without : (as_ : List Attempt) → All (Without (λ c. c == b'\n')) (map attempt_line as_)
lines-Without [] = tt
lines-Without (a ∷ as_) = (line-Without a, lines-Without as_)

add_line-attempt :
    (a : Attempt) (rep : LoadReport)
    → IsPrintable a
    → add_line (attempt_line a) rep ≡ record rep { records = record_for a ∷ rep.records }
unfolding add_line
add_line-attempt a rep h = rw (read_attempt a h, add_line)

parse_lines-attempts :
    (as_ : List Attempt)
    → All IsPrintable as_
    → parse_lines (map attempt_line as_ ++ [] ∷ [])
      ≡ record { records = map record_for as_; unparsed = [] }
unfolding parse_lines trim_space
parse_lines-attempts [] h = refl
parse_lines-attempts (a ∷ as_) h =
    rw (trim-attempt a, line-not_empty a, parse_lines-attempts as_ h.1) (add_line-attempt a _ h.0)

-- Reading back what the workload prints, one line for each attempt, gives the attempts in order and no
-- unparsed line, for every list of attempts whose numbers and stamps are 64-bit integers.
pub parse_load_log-attempts :
    (as_ : List Attempt)
    → All IsPrintable as_
    → parse_load_log (unlines (map attempt_line as_))
      ≡ record { records = map record_for as_; unparsed = [] }
unfolding parse_load_log
parse_load_log-attempts as_ h =
    ap parse_lines (split-unlines (map attempt_line as_) (lines-Without as_))
    ∙ parse_lines-attempts as_ h
