-- ===== src/Holders/Facts.antt =====
-- pkg/framework/serverprocess.go: reading the output of a scan.
use nfs_verification.Prelude.{
  ℕ, Bool, true, false, not, List, [], ◌∷◌, ◌++◌, Option, none, some, ◌==◌, if◌then◌else◌, ℤ,
}
use nfs_verification.Text.{
  Text, codes, eq_text, is_empty, split, trim_space, trim_right, trim_prefix, cut, has_prefix, join,
}
use nfs_verification.Text.Number.{parse_int}

-- The maps of the source are lists of entries; the entry that was made last is the first.
pub record ListenerFacts : Type 0 where
  pub tables : List (Text × Text)
  pub table_errors : List Text
  pub comm : List (ℤ × Text)
  pub argv0 : List (ℤ × Text)
  pub holders : List (Text × ℤ)
  pub no_readlink : Bool
  pub complete : Bool

abbrev pub no_facts : ListenerFacts
no_facts = record {
  tables = [];
  table_errors = [];
  comm = [];
  argv0 = [];
  holders = [];
  no_readlink = false;
  complete = false;
}

-- A pid and the rest of a line, if there is a rest.
pid_line : Option ℤ → Text → Option (ℤ × Text)
pid_line none tail = none
pid_line (some pid) tail = if is_empty tail then none else some (pid, tail)

-- `splitPIDLine`.
pub split_pid_line : Text → Text → Option (ℤ × Text)
unfolding trim_prefix trim_space cut parse_int pid_line
split_pid_line line marker = elim (cut b' ' (trim_space (trim_prefix line marker))) [
  | none ↦ none
  | some (num, tail) ↦ pid_line (parse_int num) (trim_space tail)
]

-- The text without its last character, if that is `c`.
cut_last : ℕ → Text → Option Text
cut_last c [] = none
cut_last c (a ∷ []) = if a == c then some [] else none
cut_last c (a ∷ (b ∷ s)) = elim (cut_last c (b ∷ s)) [ none ↦ none | some t ↦ some (a ∷ t) ]

-- `socketInode`.
pub socket_inode : Text → Option Text
unfolding has_prefix trim_prefix cut_last
socket_inode link =
    if not (has_prefix link (codes "socket:["))
    then none
    else elim (cut_last b']' (trim_prefix link (codes "socket:["))) [
      | none ↦ none
      | some inode ↦ if is_empty inode then none else some inode
    ]

unfoldable pub add_holder : Option (ℤ × Text) → ListenerFacts → ListenerFacts
unfolding socket_inode
add_holder none f = f
add_holder (some (pid, link)) f = elim (socket_inode link) [
  | none ↦ f
  | some inode ↦ record f { holders = (inode, pid) ∷ f.holders }
]

unfoldable pub add_comm : Option (ℤ × Text) → ListenerFacts → ListenerFacts
add_comm none f = f
add_comm (some e) f = record f { comm = e ∷ f.comm }

unfoldable pub add_argv0 : Option (ℤ × Text) → ListenerFacts → ListenerFacts
add_argv0 none f = f
add_argv0 (some e) f = record f { argv0 = e ∷ f.argv0 }

-- A line outside a table, apart from the marker that opens one.
unfoldable pub marker_line : Text → ListenerFacts → ListenerFacts
unfolding has_prefix eq_text trim_prefix trim_space split_pid_line add_holder add_comm add_argv0
marker_line trimmed f =
    if has_prefix trimmed (codes "==TABLEERROR ")
    then record f {
      table_errors =
          f.table_errors ++ trim_space (trim_prefix trimmed (codes "==TABLEERROR ")) ∷ [];
    }
    else if eq_text trimmed (codes "==NOREADLINK")
    then record f { no_readlink = true }
    else if eq_text trimmed (codes "==END")
    then record f { complete = true }
    else if has_prefix trimmed (codes "==PROC ")
    then add_comm (split_pid_line trimmed (codes "==PROC ")) f
    else if has_prefix trimmed (codes "==ARGV0 ")
    then add_argv0 (split_pid_line trimmed (codes "==ARGV0 ")) f
    else if has_prefix trimmed (codes "==FD ")
    then add_holder (split_pid_line trimmed (codes "==FD ")) f
    else f

-- The variables `table` and `body` of `parseListenerFacts`, and the facts.
pub record Scan : Type 0 where
  pub table : Text
  pub body : List Text
  pub facts : ListenerFacts

-- One turn of its loop.
unfoldable pub scan_line : Text → Scan → Scan
unfolding trim_right trim_space eq_text has_prefix trim_prefix join marker_line
scan_line raw s =
    let line = trim_right (λ c. c == b'\r') raw in
    let trimmed = trim_space line in
    if not (is_empty s.table)
    then (if eq_text trimmed (codes "==ENDTABLE")
        then record {
          table = [];
          body = [];
          facts = record (s.facts) {
            tables = (s.table, join (codes "\n") s.body) ∷ s.facts.tables;
          };
        }
        else record s { body = s.body ++ line ∷ [] })
    else if has_prefix trimmed (codes "==TABLE ")
    then record s { table = trim_space (trim_prefix trimmed (codes "==TABLE ")); body = [] }
    else record s { facts = marker_line trimmed s.facts }

unfoldable pub scan_lines : List Text → Scan → Scan
unfolding scan_line
scan_lines [] s = s
scan_lines (l ∷ ls) s = scan_lines ls (scan_line l s)

-- `parseListenerFacts`.
unfoldable pub parse_listener_facts : Text → ListenerFacts
unfolding scan_lines
parse_listener_facts out =
    (scan_lines (split b'\n' out) (record { table = []; body = []; facts = no_facts })).facts
