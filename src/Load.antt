-- ===== src/Load.antt =====
-- pkg/framework/load.go: the log of the write workload, and what the cases read off it.
pub mod Parse
pub mod Records
pub mod Stalls
use nfs_verification.Clock.{Time, Duration, unix, before, after, sub_time}
use nfs_verification.Prelude.{
  ◌+◌, ◌==◌, Bool, true, false, not, ◌&&◌, ◌||◌, List, [], ◌∷◌, ◌++◌, map, Option, none, some, ltb,
  leb, if◌then◌else◌, keep_if, ℤ, pos, negsuc, pos_part, neg_part, ltb_ℤ, leb_ℤ, sort_ints,
}
use nfs_verification.Text.{Text, codes, eq_text, is_empty, trim_space, split, split_by, fields}
use nfs_verification.Text.Number.{parse_int}

-- One attempt of the workload, stamped by the pod's clock.
pub record LoadRecord : Type 0 where
  pub index : ℤ
  pub is_ok : Bool
  pub at : Time

pub record LoadReport : Type 0 where
  pub records : List LoadRecord
  pub unparsed : List Text

abbrev pub record_bytes : ℤ
record_bytes = pos 4096

abbrev pub ok_word : Text
ok_word = codes "OK"

abbrev pub err_word : Text
err_word = codes "ERR"

abbrev record_of : Bool → Option ℤ → Option ℤ → Option LoadRecord
record_of good (some idx) (some secs) = some (record { index = idx; is_ok = good; at = unix secs })
record_of good _ _ = none

-- The three fields of a line, as a record.
pub parse_fields : List Text → Option LoadRecord
unfolding eq_text
parse_fields (word ∷ idx ∷ secs ∷ []) =
    if eq_text word ok_word || eq_text word err_word
    then record_of (eq_text word ok_word) (parse_int idx) (parse_int secs)
    else none
parse_fields _ = none

add_line : Text → LoadReport → LoadReport
add_line line rep = elim (parse_fields (fields line)) [
  | some r ↦ record rep { records = r ∷ rep.records }
  | none ↦ record rep { unparsed = line ∷ rep.unparsed }
]

-- The loop of `parseLoadLog` over the lines; a blank line is skipped.
unfoldable pub parse_lines : List Text → LoadReport
unfolding add_line
parse_lines [] = record { records = []; unparsed = [] }
parse_lines (raw ∷ ls) =
    let line = trim_space raw in
    let rest = parse_lines ls in if is_empty line then rest else add_line line rest

pub parse_load_log : Text → LoadReport
unfolding parse_lines
parse_load_log out = parse_lines (split b'\n' out)

-- `Errors`.
abbrev pub errors : LoadReport → List LoadRecord
errors r = keep_if (λ rec. not rec.is_ok) r.records

-- The records of acknowledged writes, in the order of the log.
abbrev pub acknowledged : LoadReport → List LoadRecord
acknowledged r = keep_if (λ rec. rec.is_ok) r.records

abbrev pub indices : List LoadRecord → List ℤ
indices = map (λ rec. rec.index)

pub committed : LoadReport → List ℤ
unfolding sort_ints
committed r = sort_ints (indices (keep_if (λ rec. rec.is_ok) r.records))

pub attempted : LoadReport → List ℤ
unfolding sort_ints
attempted r = sort_ints (indices r.records)

unfoldable pub committed_before : LoadReport → Time → List ℤ
unfolding sort_ints
committed_before r t =
    sort_ints (indices (keep_if (λ rec. rec.is_ok && not (after rec.at t)) r.records))

-- The loop of `FirstSuccessAfter`; `best` is `none` until something is found.
first_success_from : Time → Option LoadRecord → List LoadRecord → Option LoadRecord
first_success_from t best [] = best
first_success_from t best (rec ∷ rs) =
    first_success_from t
      (if not rec.is_ok || before rec.at t then best else elim best [
        | none ↦ some rec
        | some b ↦ if before rec.at b.at then some rec else some b
      ])
      rs

pub first_success_after : LoadReport → Time → Option LoadRecord
unfolding first_success_from
first_success_after r t = first_success_from t none r.records

-- The loop of `LastCommitted`.
last_committed_from : Option LoadRecord → List LoadRecord → Option LoadRecord
last_committed_from best [] = best
last_committed_from best (rec ∷ rs) =
    last_committed_from
      (if not rec.is_ok then best else elim best [
        | none ↦ some rec
        | some b ↦ if after rec.at b.at then some rec else some b
      ])
      rs

pub last_committed : LoadReport → Option LoadRecord
unfolding last_committed_from
last_committed r = last_committed_from none r.records

last_record_from : LoadRecord → List LoadRecord → LoadRecord
last_record_from last [] = last
last_record_from last (rec ∷ rs) = last_record_from (if after rec.at last.at then rec else last) rs

last_of : List LoadRecord → Option LoadRecord
unfolding last_record_from
last_of [] = none
last_of (rec ∷ rs) = some (last_record_from rec rs)

pub last_record : LoadReport → Option LoadRecord
unfolding last_of
last_record r = last_of r.records

-- The loop of `LongestGap` over each attempt and the one before it.
longest_gap_from : Duration → LoadRecord → List LoadRecord → Duration
longest_gap_from longest prev [] = longest
longest_gap_from longest prev (rec ∷ rs) =
    let d = sub_time rec.at prev.at in
    longest_gap_from (if ltb_ℤ longest d then d else longest) rec rs

longest_gap_of : List LoadRecord → Duration
unfolding longest_gap_from
longest_gap_of [] = pos 0
longest_gap_of (rec ∷ rs) = longest_gap_from (pos 0) rec rs

pub longest_gap : LoadReport → Duration
unfolding longest_gap_of
longest_gap r = longest_gap_of r.records

-- An interruption: the last committed write before it, and the first one after.
pub record Stall : Type 0 where
  pub last : LoadRecord
  pub resumed : LoadRecord

unfoldable pub stall_duration : Stall → Duration
stall_duration s = sub_time s.resumed.at s.last.at

-- `from` in `StallAfter`: the part of a silence before `t` does not count.
abbrev pub clamp : Time → Time → Time
clamp t at = if before at t then t else at

-- The loop of `StallAfter`; `prev` is `none` until a committed write is met.
pub stall_from : Time → Duration → Option LoadRecord → List LoadRecord → Option Stall
stall_from t floor prev [] = none
stall_from t floor prev (cur ∷ rs) =
    let skip = stall_from t floor prev rs in
    let next = stall_from t floor (some cur) rs in
    if not cur.is_ok then skip else elim prev [
      | none ↦ next
      | some p ↦
          if ltb_ℤ floor (sub_time cur.at (clamp t p.at))
          then some (record { last = p; resumed = cur })
          else next
    ]

unfoldable pub stall_after : LoadReport → Time → Duration → Option Stall
unfolding stall_from
stall_after r t floor = stall_from t floor none r.records
