-- ===== src/Tests/Servers.antt =====
-- pkg/framework/peers.go and serverprocess.go on small socket tables.
use nfs_verification.Holders.Facts.{parse_listener_facts}
use nfs_verification.Holders.Picks.{pick_holder, pick_among, holding, process_name}
use nfs_verification.Peers.Ports.Serving.{
  table_has, listening_inodes-Listens, Found, discover_server_process-Found,
}
use nfs_verification.Peers.Ports.{
  current, listening_inodes, DiscoveredProcess, discover_server_process,
}
use nfs_verification.Peers.Rows.{
  kernel_column, parse_proc_addr-kernel_column, is_client, count_if-peers_on,
  count_if-listening_ports,
}
use nfs_verification.Peers.Tables.{parse_socket_tables, unreadable}
use nfs_verification.Peers.{
  AddrPort, Conn, bytes, parse_proc_addr, parse_proc_net_tcp, peers_on, listening_ports,
  is_listener,
}
use nfs_verification.PodCaps.Reading.{hex_value, parse_hex}
use nfs_verification.Prelude.{
  ◌≡◌, ◌≢◌, refl, inl, true, false, ◌&&◌, ◌==◌, List, [], ◌∷◌, ◌++◌, Option, none, some, pos, has,
  count_if, if◌then◌else◌, arith, sort_ints,
}
use nfs_verification.Shell.{ExecResult, run_script, check_script_id}
use nfs_verification.Text.{
  Text, codes, eq_text, is_empty, split_by, fields, cut, trim_space, has_prefix, trim_prefix,
  to_upper,
}

-- 10.0.0.5, port 2049.
abbrev server_addr : AddrPort
server_addr = record { addr = 10 ∷ 0 ∷ 0 ∷ 5 ∷ []; port = 2049 }

parse_proc_addr-kernel_column_example :
    parse_proc_addr (kernel_column server_addr) ≡ some server_addr
unfolding bytes
parse_proc_addr-kernel_column_example =
    parse_proc_addr-kernel_column server_addr
      (inl refl, (omega arith, (omega arith, (omega arith, (omega arith, tt)))), omega arith)

abbrev listener : Conn
listener = record {
  local = server_addr;
  peer = record { addr = 0 ∷ 0 ∷ 0 ∷ 0 ∷ []; port = 0 };
  state = codes "LISTEN";
  mapped = false;
  inode = codes "42";
}

abbrev client : Conn
client = record {
  local = server_addr;
  peer = record { addr = 10 ∷ 0 ∷ 0 ∷ 9 ∷ []; port = 900 };
  state = codes "ESTABLISHED";
  mapped = false;
  inode = codes "43";
}

count_if-peers_on_example :
    count_if (eq_text (10 ∷ 0 ∷ 0 ∷ 9 ∷ [])) (peers_on (listener ∷ client ∷ client ∷ []) 2049) ≡ (
      if has (is_client 2049 (10 ∷ 0 ∷ 0 ∷ 9 ∷ [])) (listener ∷ client ∷ client ∷ []) then 1 else 0)
count_if-peers_on_example =
    count_if-peers_on (listener ∷ client ∷ client ∷ []) 2049 (10 ∷ 0 ∷ 0 ∷ 9 ∷ [])

count_if-listening_ports_example :
    count_if (λ q. 2049 == q) (listening_ports (listener ∷ client ∷ listener ∷ [])) ≡ (
      if has (λ c. is_listener c && 2049 == c.local.port) (listener ∷ client ∷ listener ∷ [])
      then 1
      else 0)
count_if-listening_ports_example = count_if-listening_ports (listener ∷ client ∷ listener ∷ []) 2049

abbrev listen_row : Text
listen_row =
    codes "0: 0500000A:0801 00000000:0000 0A 00000000:00000000 00:00000000 00000000 0 0 42 1"

table_run : parse_proc_net_tcp (codes "sl local\n" ++ listen_row) ≡ some (listener ∷ [])
unfolding parse_proc_net_tcp split_by fields cut eq_text to_upper hex_value parse_hex
table_run = refl

tables_run :
    parse_socket_tables (
      codes "==FAMILY tcp\n==STATUS ok\n"
      ++ listen_row
      ++ codes "\n==FAMILY tcp6\n==STATUS absent\n")
    ≡ (none, listener ∷ [])
unfolding parse_socket_tables parse_proc_net_tcp split_by fields cut eq_text to_upper hex_value
    parse_hex has_prefix trim_prefix trim_space
tables_run = refl

unread_run :
    parse_socket_tables (codes "==FAMILY tcp\n==STATUS error denied\n")
    ≡ (some (unreadable (codes "tcp") (codes "denied")), [])
unfolding parse_socket_tables parse_proc_net_tcp split_by fields cut eq_text to_upper hex_value
    parse_hex has_prefix trim_prefix trim_space
unread_run = refl

abbrev listener_output : Text
listener_output = codes "==TABLE /proc/net/tcp\n" ++ listen_row ++ codes "\n==ENDTABLE\n==END\n"

facts_run : listening_inodes (parse_listener_facts listener_output) 2049 ≡ some (codes "42" ∷ [])
unfolding listening_inodes parse_listener_facts parse_proc_net_tcp split_by fields cut eq_text
    to_upper hex_value parse_hex has_prefix trim_prefix trim_space
facts_run = refl

listening_inodes-Listens_example :
    ((parse_listener_facts listener_output).complete ≡ true)
    × (is_empty (parse_listener_facts listener_output).table_errors ≡ true)
    × (codes "42" ∷ [] ≢ [])
    × ((i : Text)
        → has (eq_text i) (codes "42" ∷ [])
          ≡ has (table_has 2049 i) (current [] (parse_listener_facts listener_output).tables))
listening_inodes-Listens_example =
    listening_inodes-Listens (parse_listener_facts listener_output) 2049 {is = codes "42" ∷ []}
      facts_run

abbrev pod_shell : Text → Text → ExecResult
pod_shell container line = record {
  stdout = listener_output;
  stderr = [];
  exit_code = pos 0;
  failed = false;
}

abbrev scan_output : Text
scan_output =
    codes "==PROC 9 ganesha.nfsd\n==ARGV0 9 /usr/bin/ganesha.nfsd\n==FD 9 socket:[42]\n==END\n"

abbrev node_scan : List Text → Option Text
node_scan is = some scan_output

abbrev script_body : Text → Text
script_body name = codes "echo"

abbrev discovered : DiscoveredProcess
discovered = record {
  process = record {
    name = codes "ganesha.nfsd";
    pid = pos 9;
    pids = pos 9 ∷ [];
    inode = codes "42";
  };
  node = codes "n1";
  container = codes "nfs";
}

discovered_run :
    discover_server_process script_body pod_shell node_scan
      (codes "a")
      (codes "n1")
      (codes "nfs" ∷ [])
      2049
    ≡ some discovered
unfolding discover_server_process listening_inodes run_script check_script_id pick_holder pick_among
    holding process_name sort_ints parse_listener_facts parse_proc_net_tcp split_by fields cut
    eq_text to_upper hex_value parse_hex has_prefix trim_prefix trim_space
discovered_run = refl

discover_server_process-Found_example :
    Found pod_shell node_scan
      (codes "n1")
      (codes "nfs" ∷ [])
      2049
      (run_script script_body (codes "nfs-listener.sh") (codes "a") [])
      discovered
discover_server_process-Found_example =
    discover_server_process-Found script_body pod_shell node_scan (codes "a") (codes "n1")
      (codes "nfs" ∷ []) 2049 {d = discovered} discovered_run
