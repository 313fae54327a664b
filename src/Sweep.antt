-- ===== src/Sweep.antt =====
-- pkg/framework/sweep.go: a verdict for each record of the workload.
pub mod Verdicts
pub mod Answers
use nfs_verification.Load.{record_bytes}
use nfs_verification.Prelude.{
  ℕ, ◌+◌, Bool, true, false, not, ◌&&◌, List, [], ◌∷◌, ◌++◌, map, Option, none, some, ◌==◌,
  if◌then◌else◌, ltb, length, ℤ, pos, ltb_ℤ, pos_part, neg_part, sort_ints,
}
use nfs_verification.Shell.{ExecResult, ScriptResult, script, bad_id, has_terminator, run_script}
use nfs_verification.Text.{
  Text, codes, eq_text, is_empty, trim_space, split, split_by, fields, join,
}
use nfs_verification.Text.Number.{itoa, parse_int}

pub data RecordVerdict : Type 0 where
  correct absent short wrong : RecordVerdict

pub record RecordResult : Type 0 where
  pub index : ℤ
  pub verdict : RecordVerdict
  pub offset : ℤ

pub record RecordSweep : Type 0 where
  pub results : List RecordResult
  pub unparsed : List Text
  pub raw : Text

abbrev pub same_verdict : RecordVerdict → RecordVerdict → Bool
same_verdict correct correct = true
same_verdict absent absent = true
same_verdict short short = true
same_verdict wrong wrong = true
same_verdict _ _ = false

count_in : RecordVerdict → List RecordResult → ℕ
count_in v [] = 0
count_in v (r ∷ rs) = (if same_verdict r.verdict v then 1 else 0) + count_in v rs

-- `Count`.
pub count : RecordSweep → RecordVerdict → ℕ
unfolding count_in
count s v = count_in v s.results

indices_in : RecordVerdict → List RecordResult → List ℤ
indices_in v [] = []
indices_in v (r ∷ rs) =
    if same_verdict r.verdict v then r.index ∷ indices_in v rs else indices_in v rs

-- `Indices`.
pub indices : RecordSweep → RecordVerdict → List ℤ
unfolding indices_in sort_ints
indices s v = sort_ints (indices_in v s.results)

first_wrong_from : Option RecordResult → List RecordResult → Option RecordResult
first_wrong_from best [] = best
first_wrong_from best (r ∷ rs) =
    first_wrong_from
      (if not (same_verdict r.verdict wrong) then best else elim best [
        | none ↦ some r
        | some b ↦ if ltb_ℤ r.index b.index then some r else some b
      ])
      rs

-- `FirstWrong`.
pub first_wrong : RecordSweep → Option RecordResult
unfolding first_wrong_from
first_wrong s = first_wrong_from none s.results

pub verdict_word : RecordVerdict → Text
verdict_word correct = codes "correct"
verdict_word absent = codes "absent"
verdict_word short = codes "short"
verdict_word wrong = codes "wrong"

-- The `switch` on the verdict's word.
pub read_verdict : Text → Option RecordVerdict
unfolding eq_text verdict_word
read_verdict w =
    if eq_text w (verdict_word correct)
    then some correct
    else if eq_text w (verdict_word absent)
    then some absent
    else if eq_text w (verdict_word short)
    then some short
    else if eq_text w (verdict_word wrong)
    then some wrong
    else none

abbrev result_of : Option RecordVerdict → Option ℤ → Option ℤ → Option RecordResult
result_of (some v) (some i) (some o) = some (record { index = i; verdict = v; offset = o })
result_of _ _ _ = none

pub parse_result : List Text → Option RecordResult
unfolding read_verdict
parse_result (word ∷ index ∷ offset ∷ []) =
    result_of (read_verdict word) (parse_int index) (parse_int offset)
parse_result _ = none

add_line : Text → RecordSweep → RecordSweep
add_line line s = elim (parse_result (fields line)) [
  | some r ↦ record s { results = r ∷ s.results }
  | none ↦ record s { unparsed = line ∷ s.unparsed }
]

-- The loop of `ParseRecordSweep`; a blank line is skipped.
unfoldable pub parse_lines : Text → List Text → RecordSweep
unfolding add_line
parse_lines raw [] = record { results = []; unparsed = []; raw = raw }
parse_lines raw (l ∷ ls) =
    let line = trim_space l in
    let rest = parse_lines raw ls in if is_empty line then rest else add_line line rest

pub parse_record_sweep : Text → RecordSweep
unfolding parse_lines
parse_record_sweep out = parse_lines out (split b'\n' out)

pub data SweepError : Type 0 where
  no_script exec_failed short_sweep : SweepError

-- The arguments of scripts/verify-records.sh.
unfoldable pub sweep_args : Text → List ℤ → List Text
sweep_args dir idx = dir ∷ itoa record_bytes ∷ codes "/tmp/nfsv-sweep-expected" ∷ map itoa idx

-- `VerifyRecords`, from the exec's result on.
judge_sweep : List ℤ → ExecResult → RecordSweep × Option SweepError
judge_sweep idx res =
    let sweep = parse_record_sweep res.stdout in
    if res.failed
    then (sweep, some exec_failed)
    else if not ((length sweep.results + length sweep.unparsed) == length idx)
    then (sweep, some short_sweep)
    else (sweep, none)

abbrev empty_sweep : RecordSweep
empty_sweep = record { results = []; unparsed = []; raw = [] }

pub sweep_with : (Text → ExecResult) → List ℤ → ScriptResult → RecordSweep × Option SweepError
sweep_with sh idx (script text) = judge_sweep idx (sh text)
sweep_with sh idx _ = (empty_sweep, some no_script)

-- `VerifyRecords`, over the embedded scripts and the pod's shell.
pub verify_records :
    (Text → Text) → (Text → ExecResult) → Text → List ℤ → RecordSweep × Option SweepError
verify_records script_body sh dir [] = (empty_sweep, none)
verify_records script_body sh dir (i ∷ idx) =
    sweep_with sh (i ∷ idx) (
      run_script script_body (codes "verify-records.sh") (codes "sweep") (sweep_args dir (i ∷ idx)))
