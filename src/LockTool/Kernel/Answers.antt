-- ===== src/LockTool/Kernel/Answers.antt =====
-- What the harness reads of what the program in the pod printed.
use nfs_verification.Prelude.{
  ◌≡◌, ◌≢◌, refl, ap, ◌∙◌, true, false, List, [], ◌∷◌, ◌++◌, none, some, All, ℤ, ◌≤ℤ◌, int64_min,
  int64_max,
}
use nfs_verification.Text.{Text, codes, eq_text, cut, join, is_space}
use nfs_verification.Text.Number.{parse_int-itoa}
use nfs_verification.Text.Words.{IsWord, itoa-IsWord, Without, Without-append}
use nfs_verification.Text.Joins.{spaced, fields-spaced, trim_space-spaced}
use nfs_verification.LockTool.{
  LockConflict, no_conflict, parse_conflict, conflict_from, set_field, set_mode, set_start, set_len,
  answer_in, answer_of, answer_free, answer_refused, with_conflict, parse_lock_answer,
  LockToolAnswer, answered, tool_error, tool_failed, judge_tool, read_answer,
}
use nfs_verification.LockTool.Kernel.{
  Flock, FcntlType, rdlck, wrlck, unlck, Acquired, granted, refused, error, describe_words,
  type_letter, try_result, prints, fails,
}

-- The mode that stands for a lock's type.
pub mode_of : FcntlType → Text
mode_of rdlck = codes "read"
mode_of _ = codes "write"

-- The conflict that a lock of the kernel's is.
pub conflict_of : Flock → LockConflict
unfolding mode_of
conflict_of lk = record { known = true; mode = mode_of lk.typ; start = lk.start; len = lk.len }

-- Whether the integers of a lock are 64-bit ones.
abbrev pub Fits : Flock → Type 0
Fits lk =
    (int64_min ≤ℤ lk.start)
    × (lk.start ≤ℤ int64_max)
    × (int64_min ≤ℤ lk.len)
    × (lk.len ≤ℤ int64_max)

-- The answer that stands for what `setLock` returned.
pub told : Acquired → LockToolAnswer
unfolding conflict_of describe_words
told granted = answered (record { free = true; conflict = no_conflict; raw = codes "GRANTED" })
told (refused none) =
    answered (record { free = false; conflict = no_conflict; raw = codes "REFUSED" })
told (refused (some c)) = answered (record {
  free = false;
  conflict = conflict_of c;
  raw = spaced (codes "REFUSED" ∷ describe_words c);
})
told error = tool_error tool_failed

abbrev pub NamesFit : Acquired → Type 0
NamesFit (refused (some c)) = Fits c
NamesFit _ = Unit

parse_conflict-describe :
    (t : FcntlType) (start len : ℤ)
    → Fits (record { typ = t; start = start; len = len })
    → parse_conflict (describe_words (record { typ = t; start = start; len = len }))
      ≡ some (conflict_of (record { typ = t; start = start; len = len }))
unfolding parse_conflict conflict_from set_field set_mode describe_words cut eq_text set_start
    set_len conflict_of type_letter mode_of
parse_conflict-describe rdlck start len h = rw (
  parse_int-itoa start h.0 h.1,
  parse_int-itoa len h.2 h.3,
  parse_conflict,
  conflict_from,
  set_field,
  set_start,
  set_len,
)
parse_conflict-describe wrlck start len h = rw (
  parse_int-itoa start h.0 h.1,
  parse_int-itoa len h.2 h.3,
  parse_conflict,
  conflict_from,
  set_field,
  set_start,
  set_len,
)
parse_conflict-describe unlck start len h = rw (
  parse_int-itoa start h.0 h.1,
  parse_int-itoa len h.2 h.3,
  parse_conflict,
  conflict_from,
  set_field,
  set_start,
  set_len,
)

IsWord-with : (k w : Text) → k ≢ [] → Without is_space k → Without is_space w → IsWord (k ++ w)
IsWord-with [] w n hk hw = absurd (n refl)
IsWord-with (c ∷ k) w n hk hw = ((λ e. cc), Without-append is_space (c ∷ k) w hk hw)

letter_word : (t : FcntlType) → Without is_space (type_letter t)
unfolding type_letter is_space
letter_word rdlck = (refl, tt)
letter_word wrlck = (refl, tt)
letter_word unlck = (refl, tt)

describe-IsWord : (lk : Flock) → All IsWord (describe_words lk)
unfolding describe_words is_space
describe-IsWord lk = (
  IsWord-with (codes "type=") _ (λ e. cc) (refl, (refl, (refl, (refl, (refl, tt)))))
      (letter_word lk.typ),
  (
    IsWord-with (codes "start=") _ (λ e. cc) (refl, (refl, (refl, (refl, (refl, (refl, tt))))))
        (itoa-IsWord lk.start).1,
    (
      IsWord-with (codes "len=") _ (λ e. cc) (refl, (refl, (refl, (refl, tt))))
          (itoa-IsWord lk.len).1,
      tt,
    ),
  ),
)

-- A line of words is read by its first.
parse_line :
    (w : Text) (ws : List Text)
    → All IsWord (w ∷ ws)
    → parse_lock_answer (spaced (w ∷ ws) ++ codes "\n") ≡ answer_of (spaced (w ∷ ws)) w ws
unfolding parse_lock_answer answer_in
parse_line w ws h = rw (trim_space-spaced w ws h, fields-spaced w ws h)

verb-IsWord : IsWord (codes "REFUSED") × IsWord (codes "GRANTED")
unfolding is_space
verb-IsWord = (
  ((λ e. cc), (refl, (refl, (refl, (refl, (refl, (refl, (refl, tt)))))))),
  ((λ e. cc), (refl, (refl, (refl, (refl, (refl, (refl, (refl, tt)))))))),
)

-- The harness reads what `setLock` returned back from what `try` prints.
pub judge_tool-try_result : (a : Acquired) → NamesFit a → judge_tool (try_result a) ≡ told a
unfolding join judge_tool try_result prints fails told read_answer answer_of answer_free
    answer_refused with_conflict eq_text
judge_tool-try_result granted h =
    ap read_answer (parse_line (codes "GRANTED") [] (verb-IsWord.1, tt))
judge_tool-try_result (refused none) h =
    ap read_answer (parse_line (codes "REFUSED") [] (verb-IsWord.0, tt))
judge_tool-try_result (refused (some c)) h =
    ap read_answer
      (parse_line (codes "REFUSED") (describe_words c) (verb-IsWord.0, describe-IsWord c))
    ∙ ap (λ o. read_answer (with_conflict (spaced (codes "REFUSED" ∷ describe_words c)) o))
        (parse_conflict-describe c.typ c.start c.len h)
judge_tool-try_result error h = refl
