-- ===== src/Peers/Tables.antt =====
-- pkg/framework/peers.go: what scripts/socket-table.sh prints.
use nfs_verification.Peers.{Conn, parse_proc_net_tcp}
use nfs_verification.Prelude.{ℕ, zero, suc, List, [], ◌∷◌, ◌++◌, Option, none, some, if◌then◌else◌}
use nfs_verification.Text.{
  Text, codes, eq_text, is_empty, split, cut, has_prefix, trim_prefix, trim_space,
}

-- What is read so far: `conns`, `family`, `body` and `seen`.
pub record TableRead : Type 0 where
  pub conns : List Conn
  pub family : Text
  pub body : Text
  pub seen : ℕ

pub data TableError : Type 0 where
  unreadable : Text → Text → TableError
  no_status : Text → TableError
  bad_rows : TableError
  nothing_read : TableError

pub data Reading : Type 0 where
  going : TableRead → Reading
  stopped : TableError → Reading

add_conns : Option (List Conn) → TableRead → Reading
add_conns none t = stopped bad_rows
add_conns (some cs) t = going (record t { conns = t.conns ++ cs; seen = suc t.seen })

-- `flush` at a status and the table behind it.
flush_table : Text → Text → TableRead → Reading
unfolding add_conns
flush_table status table t =
    if eq_text status (codes "absent")
    then going t
    else if has_prefix status (codes "error")
    then stopped (unreadable t.family (trim_space (trim_prefix status (codes "error"))))
    else if eq_text status (codes "ok")
    then add_conns (parse_proc_net_tcp table) t
    else stopped (no_status t.family)

-- `flush`.
pub flush : TableRead → Reading
unfolding flush_table
flush t = if is_empty t.family then going t else elim (cut b'\n' t.body) [
  | none ↦ flush_table (trim_space t.body) [] t
  | some (status, table) ↦ flush_table (trim_space status) table t
]

next_family : Text → Reading → Reading
next_family name (stopped e) = stopped e
next_family name (going t) = going (record t { family = name; body = [] })

-- One line of the output.
table_line : Text → TableRead → Reading
unfolding next_family flush
table_line line t =
    let trimmed = trim_space line in
    if has_prefix trimmed (codes "==FAMILY ")
    then next_family (trim_space (trim_prefix trimmed (codes "==FAMILY "))) (flush t)
    else if has_prefix trimmed (codes "==STATUS ")
    then going
        (record t { body = trim_space (trim_prefix trimmed (codes "==STATUS ")) ++ codes "\n" })
    else if is_empty t.family
    then going t
    else going (record t { body = t.body ++ (line ++ codes "\n") })

pub table_lines : List Text → Reading → Reading
unfolding table_line
table_lines [] r = r
table_lines (l ∷ ls) (stopped e) = stopped e
table_lines (l ∷ ls) (going t) = table_lines ls (table_line l t)

flushed : Reading → Reading
unfolding flush
flushed (stopped e) = stopped e
flushed (going t) = flush t

conns_of : Reading → Option TableError × List Conn
conns_of (stopped e) = (some e, [])
conns_of (going t) = elim t.seen [ zero ↦ (some nothing_read, []) | suc _ ↦ (none, t.conns) ]

abbrev pub no_table : TableRead
no_table = record { conns = []; family = []; body = []; seen = 0 }

-- `parseSocketTables`.
unfoldable pub parse_socket_tables : Text → Option TableError × List Conn
unfolding conns_of flushed table_lines
parse_socket_tables out = conns_of (flushed (table_lines (split b'\n' out) (going no_table)))
