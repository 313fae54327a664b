-- ===== src/Tests/Scans.antt =====
-- pkg/framework/serverprocess.go on the output of a scan.
use nfs_verification.Holders.Names.{holds, StartsWith, GoesBy, pick_holder-IsHolder}
use nfs_verification.Holders.Facts.{parse_listener_facts}
use nfs_verification.Holders.Picks.{
  process_name, ServerProcess, held_by, scan_incomplete, pick_holder, pick_among, holding,
}
use nfs_verification.Prelude.{
  ◌≡◌, refl, true, false, [], ◌∷◌, ℤ, pos, eq_ℤ, has, IsSorted, All, sort_ints,
}
use nfs_verification.Text.{Text, codes, is_empty, split_by}

-- Two processes of one name hold the socket.
abbrev output : Text
output =
    codes
      "==PROC 9 ganesha.nfsd\n==ARGV0 9 /usr/bin/ganesha.nfsd\n==FD 9 socket:[42]\n==PROC 7 ganesha.nfsd\n==FD 7 socket:[42]\n==END\n"

abbrev server : ServerProcess
server = record {
  name = codes "ganesha.nfsd";
  pid = pos 7;
  pids = pos 7 ∷ pos 9 ∷ [];
  inode = codes "42";
}

server_run : pick_holder (parse_listener_facts output) (codes "42" ∷ []) ≡ held_by server
unfolding pick_holder pick_among holding parse_listener_facts split_by sort_ints process_name
server_run = refl

-- The same scan, cut off before its last line.
cut_off_run :
    pick_holder
      (parse_listener_facts (codes "==PROC 9 ganesha.nfsd\n==FD 9 socket:[42]\n"))
      (codes "42" ∷ [])
    ≡ scan_incomplete
unfolding pick_holder parse_listener_facts split_by
cut_off_run = refl

pick_holder-IsHolder_example :
    ((parse_listener_facts output).complete ≡ true)
    × (is_empty server.name ≡ false)
    × ((n : ℤ)
        → has (λ m. eq_ℤ m n) server.pids ≡ holds (parse_listener_facts output) (codes "42" ∷ []) n)
    × IsSorted server.pids
    × StartsWith server.pid server.pids
    × All (GoesBy (parse_listener_facts output) server.name) server.pids
pick_holder-IsHolder_example =
    pick_holder-IsHolder (parse_listener_facts output) (codes "42" ∷ []) {sp = server} server_run
