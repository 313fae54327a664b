-- ===== src/LockTool.antt =====
-- pkg/framework/locktool.go and cmd/locktool/main.go: byte-range locks taken inside a pod. This file is the
-- harness's side: the command line and the line of output that comes back.
pub mod Kernel
pub mod Worker
use nfs_verification.Prelude.{
  Bool, true, false, List, [], ◌∷◌, ◌++◌, map, Option, none, some, ◌==◌, length, if◌then◌else◌, ℕ,
  suc, ℤ, pos, eq_ℤ, ◌&&◌, ◌||◌, not,
}
use nfs_verification.Text.{Text, codes, eq_text, trim_space, fields, cut, join}
use nfs_verification.Text.Number.{itoa, parse_int}
use nfs_verification.Shell.{shell_quote, ExecResult}

-- `LockRange`, with the mode as the word it is.
pub record LockRange : Type 0 where
  pub start : ℤ
  pub len : ℤ
  pub mode : Text

unfoldable pub write_range : ℤ → ℤ → LockRange
write_range start length = record { start = start; len = length; mode = codes "write" }

unfoldable pub read_range : ℤ → ℤ → LockRange
read_range start length = record { start = start; len = length; mode = codes "read" }

-- `LockRange.args`.
unfoldable pub range_args : LockRange → List Text
range_args r = itoa r.start ∷ itoa r.len ∷ r.mode ∷ []

-- `LockConflict`.
pub record LockConflict : Type 0 where
  pub known : Bool
  pub mode : Text
  pub start : ℤ
  pub len : ℤ

-- `LockAnswer`.
pub record LockAnswer : Type 0 where
  pub free : Bool
  pub conflict : LockConflict
  pub raw : Text

-- `LockConflict{}`, the conflict of an answer that names none.
abbrev pub no_conflict : LockConflict
no_conflict = record { known = false; mode = []; start = pos 0; len = pos 0 }

set_mode : Text → LockConflict → Option LockConflict
set_mode val c =
    if eq_text val (codes "r")
    then some (record c { mode = codes "read" })
    else if eq_text val (codes "w")
    then some (record c { mode = codes "write" })
    else none

set_start : Option ℤ → LockConflict → Option LockConflict
set_start none c = none
set_start (some n) c = some (record c { start = n })

set_len : Option ℤ → LockConflict → Option LockConflict
set_len none c = none
set_len (some n) c = some (record c { len = n })

-- One `key=value` field of a refusal.
set_field : Text → Text → LockConflict → Option LockConflict
unfolding set_mode set_start set_len
set_field key val c =
    if eq_text key (codes "type")
    then set_mode val c
    else if eq_text key (codes "start")
    then set_start (parse_int val) c
    else if eq_text key (codes "len")
    then set_len (parse_int val) c
    else none

-- The loop of `parseConflict`, with the number of fields seen; `none` is an error.
conflict_from : List Text → LockConflict → ℕ → Option LockConflict
unfolding set_field
conflict_from [] c seen = if seen == 3 then some c else none
conflict_from (f ∷ fs) c seen = elim (cut b'=' f) [
  | none ↦ none
  | some (key, val) ↦ elim (set_field key val c) [
    | none ↦ none
    | some d ↦ conflict_from fs d (suc seen)
  ]
]

-- `parseConflict`.
pub parse_conflict : List Text → Option LockConflict
unfolding conflict_from
parse_conflict fs = conflict_from fs (record no_conflict { known = true }) 0

with_conflict : Text → Option LockConflict → Option LockAnswer
with_conflict line none = none
with_conflict line (some c) = some (record { free = false; conflict = c; raw = line })

-- `GRANTED` and `FREE`, which take no fields.
answer_free : Text → List Text → Option LockAnswer
answer_free line [] = some (record { free = true; conflict = no_conflict; raw = line })
answer_free line (_ ∷ _) = none

-- A bare `REFUSED` names no conflict.
answer_refused : Text → List Text → Option LockAnswer
unfolding with_conflict parse_conflict
answer_refused line [] = some (record { free = false; conflict = no_conflict; raw = line })
answer_refused line (f ∷ fs) = with_conflict line (parse_conflict (f ∷ fs))

-- The cases of `ParseLockAnswer`, by the first field and those behind it.
answer_of : Text → Text → List Text → Option LockAnswer
unfolding answer_free answer_refused with_conflict parse_conflict
answer_of line verb rest =
    if eq_text verb (codes "GRANTED") || eq_text verb (codes "FREE")
    then answer_free line rest
    else if eq_text verb (codes "REFUSED")
    then answer_refused line rest
    else if eq_text verb (codes "HELD")
    then with_conflict line (parse_conflict rest)
    else none

answer_in : Text → List Text → Option LockAnswer
unfolding answer_of
answer_in line [] = none
answer_in line (verb ∷ rest) = answer_of line verb rest

-- `ParseLockAnswer`; `none` is an error.
pub parse_lock_answer : Text → Option LockAnswer
unfolding answer_in
parse_lock_answer out = let line = trim_space out in answer_in line (fields line)

abbrev pub lock_tool_path : Text
lock_tool_path = codes "/tmp/locktool"

-- `lockToolCmd`.
pub lock_tool_cmd : Text → Text → LockRange → List Text → Text
unfolding range_args
lock_tool_cmd sub path r extra =
    shell_quote lock_tool_path
    ++ b' ' ∷ join (b' ' ∷ []) (map shell_quote (sub ∷ (path ∷ (range_args r ++ extra))))

pub data LockToolError : Type 0 where
  not_installed tool_failed unreadable : LockToolError

pub data LockToolAnswer : Type 0 where
  answered : LockAnswer → LockToolAnswer
  tool_error : LockToolError → LockToolAnswer

read_answer : Option LockAnswer → LockToolAnswer
read_answer none = tool_error unreadable
read_answer (some a) = answered a

pub judge_tool : ExecResult → LockToolAnswer
unfolding read_answer
judge_tool res =
    if res.failed && not (eq_ℤ res.exit_code (pos 1))
    then tool_error tool_failed
    else read_answer (parse_lock_answer res.stdout)

-- `runLockTool`, from what `EnsureLockTool` returned and over the pod's shell.
pub run_lock_tool : Bool → (Text → ExecResult) → Text → Text → LockRange → LockToolAnswer
unfolding judge_tool lock_tool_cmd
run_lock_tool installed sh sub path r =
    if installed then judge_tool (sh (lock_tool_cmd sub path r [])) else tool_error not_installed
