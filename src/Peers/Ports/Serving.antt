-- ===== src/Peers/Ports/Serving.antt =====
-- pkg/framework/serverprocess.go: what it takes for a process to be named as the server's.
use mathlib.Core.Path.{ap₂, subst}
use nfs_verification.Holders.Facts.{ListenerFacts, parse_listener_facts}
use nfs_verification.Holders.Names.{holds, StartsWith, GoesBy, pick_holder-IsHolder}
use nfs_verification.Holders.Picks.{Holder, ServerProcess, pick_holder, held_by}
use nfs_verification.Holders.Scans.{is_end, pick_holder-parse_listener_facts}
use nfs_verification.Peers.{Conn, parse_proc_net_tcp}
use nfs_verification.Peers.Ports.{
  current, serves, add_inode, inodes_in, both, inodes_of_table, inodes_of, some_inodes,
  listening_inodes, answered, with_container, first_found, listening_with, picked, listening_in,
  listening_socket, DiscoveredProcess, found_by, scanned, discover_server_process,
}
use nfs_verification.Prelude.{
  ◌≡◌, ◌≢◌, refl, sym, ap, some_inj, ◌∙◌, ℕ, Bool, true, false, ◌&&◌, ◌||◌, List, [], ◌∷◌, ◌++◌,
  Option, none, some, if◌then◌else◌, has, has-append, Bool-cases, ◌⊎◌, inl, inr, ℤ, eq_ℤ, IsSorted,
  All,
}
use nfs_verification.Shell.{ExecResult, ScriptResult, script, bad_id, has_terminator, run_script}
use nfs_verification.Text.{Text, codes, eq_text, is_empty, split}

-- A row that listens on the port with this inode.
pub listens : ℕ → Text → Conn → Bool
listens port i c = serves port c && eq_text i c.inode

-- Whether a table has such a row.
pub table_has : ℕ → Text → Text × Text → Bool
unfolding listens
table_has port i (path, body) = elim (parse_proc_net_tcp body) [
  | none ↦ false
  | some cs ↦ has (listens port i) cs
]

add_inode-some :
    (s : Bool) (inode : Text) (rest : Option (List Text)) {is : List Text}
    → add_inode s inode rest ≡ some is
    → (js : List Text) × (rest ≡ some js)
      × ((i : Text) → has (eq_text i) is ≡ (s && eq_text i inode || has (eq_text i) js))
unfolding add_inode
add_inode-some true inode (some js) {is} h = elim (Bool-cases (is_empty inode)) [
  | inl e ↦ cc (simp e at h)
  | inr e ↦ (js, refl, (λ i. ap (has (eq_text i)) (sym (some_inj (simp e at h)))))
]
add_inode-some true inode none h = cc
add_inode-some false inode rest {is} h = (is, h, (λ i. refl))

has-inodes_in :
    (port : ℕ) (i : Text) (cs : List Conn) {is : List Text}
    → inodes_in port cs ≡ some is
    → has (eq_text i) is ≡ has (listens port i) cs
unfolding inodes_in listens
has-inodes_in port i [] {is} h = ap (has (eq_text i)) (sym (some_inj h))
has-inodes_in port i (c ∷ cs) {is} h =
    let (js, e, m) = add_inode-some (serves port c) c.inode (inodes_in port cs) h in
    m i ∙ ap (λ b. listens port i c || b) (has-inodes_in port i cs e)

both-some :
    (a b : Option (List Text)) {is : List Text}
    → both a b ≡ some is
    → (as_ bs : List Text) × (a ≡ some as_) × (b ≡ some bs) × (is ≡ as_ ++ bs)
unfolding both
both-some (some a) (some b) h = (a, b, refl, refl, sym (some_inj h))
both-some none b h = cc
both-some (some a) none h = cc

has-inodes_of_table :
    (port : ℕ) (i : Text) (path body : Text) (o : Option (List Conn)) {is : List Text}
    → parse_proc_net_tcp body ≡ o
    → inodes_of_table port o ≡ some is
    → has (eq_text i) is ≡ table_has port i (path, body)
unfolding inodes_of_table table_has
has-inodes_of_table port i path body none e h = cc
has-inodes_of_table port i path body (some cs) e h =
    has-inodes_in port i cs h ∙ rw (e, table_has) refl

has-inodes_of :
    (port : ℕ) (i : Text) (ts : List (Text × Text)) {is : List Text}
    → inodes_of port ts ≡ some is
    → has (eq_text i) is ≡ has (table_has port i) ts
unfolding inodes_of
has-inodes_of port i [] h = ap (has (eq_text i)) (sym (some_inj h))
has-inodes_of port i ((path, body) ∷ ts) h =
    let (as_, bs, ea, eb, j) = both-some _ (inodes_of port ts) h in
    ap (has (eq_text i)) j
    ∙ has-append (eq_text i) as_ bs
    ∙ ap₂ ◌||◌ (has-inodes_of_table port i path body _ refl ea) (has-inodes_of port i ts eb)

some_inodes-some :
    (o : Option (List Text)) {is : List Text} → some_inodes o ≡ some is → (o ≡ some is) × (is ≢ [])
unfolding some_inodes
some_inodes-some none h = cc
some_inodes-some (some []) h = cc
some_inodes-some (some (j ∷ js)) h = (h, (λ e. cc (h ∙ ap some e)))

-- The read ran to its end, no table failed to be read, and the inodes, at least one, are exactly those of
-- the rows that listen on the port in any of the tables.
abbrev pub ListensOn : ℕ → ListenerFacts → List Text → Type 0
ListensOn port f is =
    (f.complete ≡ true)
    × (is_empty f.table_errors ≡ true)
    × (is ≢ [])
    × ((i : Text) → has (eq_text i) is ≡ has (table_has port i) (current [] f.tables))

-- The inodes that are returned for a port: the read ran to its end and no table failed to be read, there
-- is one, and they are exactly the inodes of the rows that listen on the port in any of the tables.
pub listening_inodes-Listens :
    (f : ListenerFacts) (port : ℕ) {is : List Text}
    → listening_inodes f port ≡ some is
    → (f.complete ≡ true)
      × (is_empty f.table_errors ≡ true)
      × (is ≢ [])
      × ((i : Text) → has (eq_text i) is ≡ has (table_has port i) (current [] f.tables))
unfolding listening_inodes
listening_inodes-Listens f port {is} h = elim (Bool-cases f.complete) [
  | inr c ↦ cc (simp c at h)
  | inl c ↦ elim (Bool-cases (is_empty f.table_errors)) [
    | inr e ↦ cc (simp (c, e) at h)
    | inl e ↦
        let (o, n) = some_inodes-some (inodes_of port (current [] f.tables)) (simp (c, e) at h) in
        (c, e, n, (λ i. has-inodes_of port i (current [] f.tables) o))
  ]
]

-- The text stands in the list.
abbrev pub IsOneOf : Text → List Text → Type 0
IsOneOf c cs = (pre : List Text) × (post : List Text) × (cs ≡ pre ++ c ∷ post)

-- What was read of one container.
abbrev ReadOf : (Text → ExecResult) → ℕ → List Text × Text → Type 0
ReadOf sh port (is, container) =
    ((sh container).failed ≡ false)
    × (listening_inodes (parse_listener_facts (sh container).stdout) port ≡ some is)

answered-ReadOf :
    (sh : Text → ExecResult) (c : Text) (port : ℕ) (o : Option (List Text))
    (found : List Text × Text)
    → listening_inodes (parse_listener_facts (sh c).stdout) port ≡ o
    → (if (sh c).failed then none else with_container c o) ≡ some found
    → ReadOf sh port found
unfolding with_container
answered-ReadOf sh c port none found e h = elim (Bool-cases (sh c).failed) [
  | inl f ↦ cc (simp f at h)
  | inr f ↦ cc (simp f at h)
]
answered-ReadOf sh c port (some is) found e h = elim (Bool-cases (sh c).failed) [
  | inl f ↦ cc (simp f at h)
  | inr f ↦ subst (ReadOf sh port) (some_inj (simp f at h)) (f, e)
]

first_found-some :
    (a b : Option (List Text × Text)) {found : List Text × Text}
    → first_found a b ≡ some found
    → (a ≡ some found) ⊎ (b ≡ some found)
unfolding first_found
first_found-some none b h = inr h
first_found-some (some f) b h = inl h

with_container-some :
    (c : Text) (o : Option (List Text)) {found : List Text × Text}
    → with_container c o ≡ some found
    → c ≡ found.1
unfolding with_container
with_container-some c none h = cc
with_container-some c (some is) h = ap (λ q. q.1) (some_inj h)

answered-some :
    (c : Text) (r : ExecResult) (port : ℕ) {found : List Text × Text}
    → answered c r port ≡ some found
    → c ≡ found.1
unfolding answered
answered-some c r port h = elim (Bool-cases r.failed) [
  | inl f ↦ cc (simp f at h)
  | inr f ↦ with_container-some c _ (simp f at h)
]

listening_in-ReadOf :
    (sh : Text → ExecResult) (port : ℕ) (cs : List Text) (found : List Text × Text)
    → listening_in sh port cs ≡ some found
    → IsOneOf found.1 cs × ReadOf sh port found
unfolding listening_in answered
listening_in-ReadOf sh port [] found h = cc
listening_in-ReadOf sh port (c ∷ cs) found h =
    elim (first_found-some (answered c (sh c) port) (listening_in sh port cs) h) [
      | inl a ↦ (
        ([], cs, ap (λ k. k ∷ cs) (answered-some c (sh c) port a)),
        answered-ReadOf sh c port _ found refl a,
      )
      | inr l ↦
          let ((pre, post, e), r) = listening_in-ReadOf sh port cs found l in
          ((c ∷ pre, post, ap (◌∷◌ c) e), r)
    ]

found_by-some :
    (node container : Text) (p : Holder) {d : DiscoveredProcess}
    → found_by node container p ≡ some d
    → (p ≡ held_by d.process) × (d.node ≡ node) × (d.container ≡ container)
unfolding found_by
found_by-some node container (held_by p) {d} h =
    let e = some_inj h in
    (ap (λ q. held_by q.process) e, sym (ap (λ q. q.node) e), sym (ap (λ q. q.container) e))
found_by-some node container _ h = cc

-- The scan's output has its end marker, the pids are in order exactly those that it shows to hold one of the
-- sockets, the lowest is named, and all go by one name, which is not empty and matches each.
abbrev pub NamedBy : Text → List Text → ServerProcess → Type 0
NamedBy out is p =
    (has is_end (split b'\n' out) ≡ true)
    × (is_empty p.name ≡ false)
    × ((n : ℤ) → has (λ m. eq_ℤ m n) p.pids ≡ holds (parse_listener_facts out) is n)
    × IsSorted p.pids
    × StartsWith p.pid p.pids
    × All (GoesBy (parse_listener_facts out) p.name) p.pids

held_by-NamedBy :
    (out : Text) (is : List Text) (p : ServerProcess)
    → pick_holder (parse_listener_facts out) is ≡ held_by p
    → NamedBy out is p
held_by-NamedBy out is p h =
    let (complete, name, pids, sorted, lowest, all) =
      pick_holder-IsHolder (parse_listener_facts out) is h in
    (pick_holder-parse_listener_facts out is h, name, pids, sorted, lowest, all)

-- One of the containers stands at `container`, its shell ran `text` without an error, the inodes are those
-- that listen on the port by what it wrote, the scan for them wrote `out`, and the process is named by it.
abbrev pub Found :
    (Text → Text → ExecResult)
    → (List Text → Option Text)
    → Text
    → List Text
    → ℕ
    → ScriptResult
    → DiscoveredProcess
    → Type 0
Found sh scan node containers port r d =
    (text : Text) × (is : List Text) × (out : Text) × (r ≡ script text)
    × IsOneOf d.container containers
    × ((sh d.container text).failed ≡ false)
    × ListensOn port (parse_listener_facts (sh d.container text).stdout) is
    × (scan is ≡ some out)
    × NamedBy out is d.process
    × (d.node ≡ node)

picked-some :
    (node container : Text) (is : List Text) (o : Option Text) {d : DiscoveredProcess}
    → picked node container is o ≡ some d
    → (out : Text) × (o ≡ some out)
      × (pick_holder (parse_listener_facts out) is ≡ held_by d.process)
      × (d.node ≡ node)
      × (d.container ≡ container)
unfolding picked
picked-some node container is none h = cc
picked-some node container is (some out) h =
    let (p, n, c) = found_by-some node container (pick_holder (parse_listener_facts out) is) h in
    (out, refl, p, n, c)

scanned-Found :
    (sh : Text → Text → ExecResult) (scan : List Text → Option Text) (node : Text)
    (containers : List Text) (text : Text) (port : ℕ) (o : Option (List Text × Text))
    {d : DiscoveredProcess}
    → ((found : List Text × Text)
        → o ≡ some found
        → IsOneOf found.1 containers × ReadOf (λ c. sh c text) port found)
    → scanned scan node o ≡ some d
    → Found sh scan node containers port (script text) d
unfolding scanned
scanned-Found sh scan node containers text port none reads h = cc
scanned-Found sh scan node containers text port (some (is, container)) {d} reads h =
    let (out, s, p, n, c) = picked-some node container is (scan is) h in
    let (i, (f, l)) =
      subst (λ k. IsOneOf k containers × ReadOf (λ j. sh j text) port (is, k)) (sym c)
        (reads (is, container) refl) in
    (
      text,
      is,
      out,
      refl,
      i,
      f,
      listening_inodes-Listens (parse_listener_facts (sh d.container text).stdout) port l,
      s,
      held_by-NamedBy out is d.process p,
      n,
    )

serving_of :
    (sh : Text → Text → ExecResult) (scan : List Text → Option Text) (node : Text)
    (containers : List Text) (port : ℕ) (r : ScriptResult) {d : DiscoveredProcess}
    → scanned scan node (listening_with sh containers port r) ≡ some d
    → Found sh scan node containers port r d
unfolding listening_with
serving_of sh scan node containers port (script text) h =
    scanned-Found sh scan node containers text port _
      (λ found e. listening_in-ReadOf (λ c. sh c text) port containers found e) h
serving_of sh scan node containers port bad_id h = unfold scanned in cc
serving_of sh scan node containers port has_terminator h = unfold scanned in cc

-- Where a server's process is named, one of the pod's containers ran the script without an error and read
-- its socket tables to the end; the node was scanned for exactly the inodes that they show to listen on the
-- port, of which there is one at least; the scan's output has its end marker; and the process is what the
-- scan shows to hold these sockets: its pids are exactly the holders, in order, the lowest is named, and all
-- go by one name, which is not empty and matches each.
pub discover_server_process-Found :
    (body : Text → Text) (sh : Text → Text → ExecResult) (scan : List Text → Option Text)
    (id node : Text) (containers : List Text) (port : ℕ) {d : DiscoveredProcess}
    → discover_server_process body sh scan id node containers port ≡ some d
    → Found sh scan node containers port (run_script body (codes "nfs-listener.sh") id []) d
unfolding discover_server_process listening_socket
discover_server_process-Found body sh scan id node containers port {d} h =
    elim (Bool-cases (is_empty node)) [
      | inl e ↦ cc (simp e at h)
      | inr e ↦ serving_of sh scan node containers port _ (simp e at h)
    ]
