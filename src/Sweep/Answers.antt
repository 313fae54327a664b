-- ===== src/Sweep/Answers.antt =====
-- pkg/framework/sweep.go: the answers of a sweep against what it was asked.
use mathlib.Core.Path.{subst}
use nfs_verification.Shell.{ExecResult}
use nfs_verification.Prelude.{
  ℕ, ◌+◌, ◌≡◌, refl, ap, ◌∙◌, false, not, List, [], ◌∷◌, ◌++◌, map, none, some, ◌==◌, if◌then◌else◌,
  arith, ℤ, ◌≤ℤ◌, int64_min, int64_max, length, count_if, All,
}
use nfs_verification.Shell.{ScriptResult, script, run_script}
use nfs_verification.Sweep.{
  RecordVerdict, correct, absent, short, wrong, RecordResult, RecordSweep, read_verdict,
  verdict_word, parse_result, add_line, parse_lines, parse_record_sweep, short_sweep, sweep_args,
  judge_sweep, sweep_with, verify_records,
}
use nfs_verification.Text.{Text, codes, is_empty, is_space, trim_space, split, fields}
use nfs_verification.Text.Number.{itoa, parse_int-itoa}
use nfs_verification.Text.Words.{
  Without, IsWord, three_words, fields-three_words, trim_space-three_words, three_words-not_empty,
  unlines, split-unlines, three_words-Without, itoa-IsWord,
}

-- The lines that are not blank.
abbrev pub printed_lines : List Text → ℕ
printed_lines = count_if (λ l. not (is_empty (trim_space l)))

parse_lines_count :
    (raw : Text) (ls : List Text)
    → length (parse_lines raw ls).results + length (parse_lines raw ls).unparsed ≡ printed_lines ls
unfolding parse_lines
parse_lines_count raw [] = omega arith
parse_lines_count raw (l ∷ ls) = ground (arith, parse_lines_count raw ls)

parse_lines-raw : (raw : Text) (ls : List Text) → (parse_lines raw ls).raw ≡ raw
unfolding parse_lines
parse_lines-raw raw [] = refl
parse_lines-raw raw (l ∷ ls) = ground (arith, parse_lines-raw raw ls)

-- A sweep's text is kept whole, and every line of it that is not blank is one verdict or one unread
-- line.
pub parse_record_sweep_complete :
    (out : Text)
    → (length (parse_record_sweep out).results + length (parse_record_sweep out).unparsed
        ≡ printed_lines (split b'\n' out))
      × ((parse_record_sweep out).raw ≡ out)
unfolding parse_record_sweep
parse_record_sweep_complete out =
    (parse_lines_count out (split b'\n' out), parse_lines-raw out (split b'\n' out))

-- One line of scripts/verify-records.sh.
pub result_line : RecordResult → Text
result_line r = three_words (verdict_word r.verdict) (itoa r.index) (itoa r.offset)

abbrev pub InInt64 : ℤ → Type 0
InInt64 a = (int64_min ≤ℤ a) × (a ≤ℤ int64_max)

abbrev pub IsPrintable : RecordResult → Type 0
IsPrintable r = InInt64 r.index × InInt64 r.offset

verdict_word-IsWord : (v : RecordVerdict) → IsWord (verdict_word v)
unfolding is_space verdict_word
verdict_word-IsWord correct =
    ((λ e. cc), (refl, (refl, (refl, (refl, (refl, (refl, (refl, tt))))))))
verdict_word-IsWord absent = ((λ e. cc), (refl, (refl, (refl, (refl, (refl, (refl, tt)))))))
verdict_word-IsWord short = ((λ e. cc), (refl, (refl, (refl, (refl, (refl, tt))))))
verdict_word-IsWord wrong = ((λ e. cc), (refl, (refl, (refl, (refl, (refl, tt))))))

read-verdict_word : (v : RecordVerdict) → read_verdict (verdict_word v) ≡ some v
unfolding read_verdict
read-verdict_word correct = refl
read-verdict_word _ = refl

read_result : (r : RecordResult) → IsPrintable r → parse_result (fields (result_line r)) ≡ some r
unfolding result_line
read_result r h =
    ap parse_result (
      fields-three_words _ _ _ (verdict_word-IsWord r.verdict) (itoa-IsWord r.index)
        (itoa-IsWord r.offset))
    ∙ unfold parse_result in
      rw (
        read-verdict_word r.verdict,
        parse_int-itoa r.index h.0.0 h.0.1,
        parse_int-itoa r.offset h.1.0 h.1.1,
      )

add_line-result :
    (r : RecordResult) (s : RecordSweep)
    → IsPrintable r
    → add_line (result_line r) s ≡ record s { results = r ∷ s.results }
unfolding add_line
add_line-result r s h = rw (read_result r h, add_line)

trim-result : (r : RecordResult) → trim_space (result_line r) ≡ result_line r
unfolding result_line
trim-result r =
    trim_space-three_words _ _ _ (verdict_word-IsWord r.verdict) (itoa-IsWord r.index)
      (itoa-IsWord r.offset)

result-not_empty : (r : RecordResult) → is_empty (result_line r) ≡ false
unfolding result_line
result-not_empty r = three_words-not_empty _ _ _ (verdict_word-IsWord r.verdict).0

results-Without : (rs : List RecordResult) → All (Without (λ c. c == b'\n')) (map result_line rs)
unfolding result_line
results-Without [] = tt
results-Without (r ∷ rs) = (
  three_words-Without _ _ _ (verdict_word-IsWord r.verdict) (itoa-IsWord r.index)
      (itoa-IsWord r.offset),
  results-Without rs,
)

parse_lines-results :
    (raw : Text) (rs : List RecordResult)
    → All IsPrintable rs
    → parse_lines raw (map result_line rs ++ [] ∷ [])
      ≡ record { results = rs; unparsed = []; raw = raw }
unfolding parse_lines trim_space
parse_lines-results raw [] h = refl
parse_lines-results raw (r ∷ rs) h =
    rw (trim-result r, result-not_empty r, parse_lines-results raw rs h.1) (add_line-result r _ h.0)

-- Reading what the script prints, one line for each record, gives the verdicts in order.
parse_record_sweep-results :
    (rs : List RecordResult)
    → All IsPrintable rs
    → parse_record_sweep (unlines (map result_line rs))
      ≡ record { results = rs; unparsed = []; raw = unlines (map result_line rs) }
unfolding parse_record_sweep
parse_record_sweep-results rs h =
    ap (parse_lines (unlines (map result_line rs)))
      (split-unlines (map result_line rs) (results-Without rs))
    ∙ parse_lines-results _ rs h

sweep_with-none :
    (sh : Text → ExecResult) (idx : List ℤ) (built : ScriptResult) {s : RecordSweep}
    → sweep_with sh idx built ≡ (s, none)
    → length s.results + length s.unparsed ≡ length idx
unfolding sweep_with judge_sweep
sweep_with-none sh idx (script text) h = ground arith
sweep_with-none sh idx _ h = cc (ap (λ q. q.1) h)

-- `VerifyRecords` reports no error only for a sweep with exactly one verdict or unread line for each
-- record that it was asked about, whatever the pod printed.
pub verify_records-none :
    (script_body : Text → Text) (sh : Text → ExecResult) (dir : Text) (idx : List ℤ)
    {s : RecordSweep}
    → verify_records script_body sh dir idx ≡ (s, none)
    → length s.results + length s.unparsed ≡ length idx
unfolding verify_records
verify_records-none script_body sh dir [] h =
    subst (λ q. length q.0.results + length q.0.unparsed ≡ 0) h refl
verify_records-none script_body sh dir (i ∷ idx) h = sweep_with-none sh (i ∷ idx) _ h

judge_sweep-results :
    (idx : List ℤ) (res : ExecResult) (rs : List RecordResult)
    → res.failed ≡ false
    → res.stdout ≡ unlines (map result_line rs)
    → All IsPrintable rs
    → judge_sweep idx res ≡ (
      record { results = rs; unparsed = []; raw = unlines (map result_line rs) },
      if length rs == length idx then none else some short_sweep,
    )
unfolding judge_sweep
judge_sweep-results idx res rs ran printed h =
    rw (ran, printed, parse_record_sweep-results rs h) (ground arith)

-- Where the script can be built and the pod's shell runs it and prints one line for each of `rs`, the
-- sweep holds exactly those verdicts, and the error is nil where there are as many as records asked about
-- and the one for a short sweep where there are not.
pub verify_records-results :
    (script_body : Text → Text) (sh : Text → ExecResult) (dir : Text) (i : ℤ) (idx : List ℤ)
    (text : Text) (rs : List RecordResult)
    → run_script script_body (codes "verify-records.sh") (codes "sweep") (sweep_args dir (i ∷ idx))
      ≡ script text
    → (sh text).failed ≡ false
    → (sh text).stdout ≡ unlines (map result_line rs)
    → All IsPrintable rs
    → verify_records script_body sh dir (i ∷ idx) ≡ (
      record { results = rs; unparsed = []; raw = unlines (map result_line rs) },
      if length rs == length (i ∷ idx) then none else some short_sweep,
    )
unfolding verify_records
verify_records-results script_body sh dir i idx text rs built ran printed h =
    unfold sweep_with in
    ap (sweep_with sh (i ∷ idx)) built ∙ judge_sweep-results (i ∷ idx) (sh text) rs ran printed h
