-- ===== src/Peers/Ports.antt =====
-- pkg/framework/serverprocess.go: from the port that a server listens on to the process that holds its socket.
pub mod Serving
use nfs_verification.Holders.Facts.{ListenerFacts, parse_listener_facts}
use nfs_verification.Holders.Picks.{ServerProcess, Holder, pick_holder, held_by}
use nfs_verification.Peers.{Conn, is_listener, parse_proc_net_tcp}
use nfs_verification.Prelude.{
  ◌≡◌, refl, sym, ap, ◌∙◌, ℕ, Bool, true, false, not, ◌&&◌, ◌||◌, List, [], ◌∷◌, ◌++◌, map, Option,
  none, some, if◌then◌else◌, ◌==◌, arith, has, keep_if, Bool-cases, inl, inr,
}
use nfs_verification.Shell.{ExecResult, ScriptResult, script, run_script}
use nfs_verification.Text.{Text, codes, eq_text, is_empty}

-- The entries of a map that is a list of entries, of which the first for a key counts.
pub current : List Text → List (Text × Text) → List (Text × Text)
current seen [] = []
current seen ((k, v) ∷ es) =
    let rest = current (k ∷ seen) es in if has (eq_text k) seen then rest else (k, v) ∷ rest

-- Whether a row listens on a port.
pub serves : ℕ → Conn → Bool
unfolding is_listener
serves port c = is_listener c && c.local.port == port

-- A listener without an inode leaves no answer.
add_inode : Bool → Text → Option (List Text) → Option (List Text)
add_inode true inode (some is) = if is_empty inode then none else some (inode ∷ is)
add_inode true inode none = none
add_inode false inode rest = rest

-- The inodes of the sockets of one table that listen on a port.
pub inodes_in : ℕ → List Conn → Option (List Text)
unfolding add_inode serves
inodes_in port [] = some []
inodes_in port (c ∷ cs) = add_inode (serves port c) c.inode (inodes_in port cs)

both : Option (List Text) → Option (List Text) → Option (List Text)
both (some a) (some b) = some (a ++ b)
both _ _ = none

inodes_of_table : ℕ → Option (List Conn) → Option (List Text)
unfolding inodes_in
inodes_of_table port none = none
inodes_of_table port (some cs) = inodes_in port cs

pub inodes_of : ℕ → List (Text × Text) → Option (List Text)
unfolding both inodes_of_table
inodes_of port [] = some []
inodes_of port ((path, body) ∷ ts) =
    both (inodes_of_table port (parse_proc_net_tcp body)) (inodes_of port ts)

some_inodes : Option (List Text) → Option (List Text)
some_inodes (some (i ∷ is)) = some (i ∷ is)
some_inodes _ = none

-- `listeningInodes`; `none` is an error.
unfoldable pub listening_inodes : ListenerFacts → ℕ → Option (List Text)
unfolding current inodes_of some_inodes
listening_inodes f port =
    if not f.complete
    then none
    else if not (is_empty f.table_errors)
    then none
    else some_inodes (inodes_of port (current [] f.tables))

with_container : Text → Option (List Text) → Option (List Text × Text)
with_container container none = none
with_container container (some is) = some (is, container)

answered : Text → ExecResult → ℕ → Option (List Text × Text)
unfolding listening_inodes with_container
answered container r port =
    if r.failed
    then none
    else with_container container (listening_inodes (parse_listener_facts r.stdout) port)

first_found : Option (List Text × Text) → Option (List Text × Text) → Option (List Text × Text)
first_found none rest = rest
first_found (some found) rest = some found

-- The loop of `listeningSocket` over the containers; `sh` is the shell of a container.
pub listening_in : (Text → ExecResult) → ℕ → List Text → Option (List Text × Text)
unfolding answered first_found
listening_in sh port [] = none
listening_in sh port (c ∷ cs) = first_found (answered c (sh c) port) (listening_in sh port cs)

listening_with :
    (Text → Text → ExecResult) → List Text → ℕ → ScriptResult → Option (List Text × Text)
unfolding listening_in
listening_with sh containers port (script text) = listening_in (λ c. sh c text) port containers
listening_with sh containers port _ = none

-- `listeningSocket`, over the embedded scripts and the shells of the pod's containers.
pub listening_socket :
    (Text → Text) → (Text → Text → ExecResult) → Text → List Text → ℕ → Option (List Text × Text)
unfolding listening_with
listening_socket body sh id containers port =
    listening_with sh containers port (run_script body (codes "nfs-listener.sh") id [])

-- A process that was found, with the node and the container.
pub record DiscoveredProcess : Type 0 where
  pub process : ServerProcess
  pub node : Text
  pub container : Text

found_by : Text → Text → Holder → Option DiscoveredProcess
found_by node container (held_by p) =
    some (record { process = p; node = node; container = container })
found_by node container _ = none

picked : Text → Text → List Text → Option Text → Option DiscoveredProcess
unfolding found_by
picked node container is none = none
picked node container is (some out) =
    found_by node container (pick_holder (parse_listener_facts out) is)

-- The scan of the node for the inodes; `scan` is what the node agent returned for them.
scanned : (List Text → Option Text) → Text → Option (List Text × Text) → Option DiscoveredProcess
unfolding picked
scanned scan node none = none
scanned scan node (some (is, container)) = picked node container is (scan is)

-- `DiscoverServerProcess`, from the node agent on.
unfoldable pub discover_server_process :
    (Text → Text)
    → (Text → Text → ExecResult)
    → (List Text → Option Text)
    → Text
    → Text
    → List Text
    → ℕ
    → Option DiscoveredProcess
unfolding scanned listening_socket
discover_server_process body sh scan id node containers port =
    if is_empty node then none else scanned scan node (listening_socket body sh id containers port)
