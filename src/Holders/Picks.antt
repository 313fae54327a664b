-- ===== src/Holders/Picks.antt =====
-- pkg/framework/serverprocess.go: the process that holds a socket, from the facts.
use nfs_verification.Holders.Facts.{ListenerFacts}
use nfs_verification.Prelude.{
  Bool, true, not, ◌&&◌, ◌||◌, List, [], ◌∷◌, leb, ◌==◌, if◌then◌else◌, has, ℤ, eq_ℤ, sort_ints,
}
use nfs_verification.Text.{
  Text, codes, eq_text, is_empty, split, split_by, trim_space, trim_right, has_prefix, contains,
  byte_len, join,
}

-- A map's value at a pid, with the empty text for a missing key.
value_at : ℤ → List (ℤ × Text) → Text
value_at pid [] = []
value_at pid ((k, v) ∷ es) = if eq_ℤ k pid then v else value_at pid es

last_part : List Text → Text
last_part [] = []
last_part (w ∷ []) = w
last_part (w ∷ (v ∷ vs)) = last_part (v ∷ vs)

-- `path.Base`.
unfoldable pub path_base : Text → Text
unfolding trim_right split_by last_part
path_base p =
    if is_empty p
    then codes "."
    else if is_empty (trim_right (λ c. c == b'/') p)
    then codes "/"
    else last_part (split b'/' (trim_right (λ c. c == b'/') p))

-- `processName`.
unfoldable pub process_name : ListenerFacts → ℤ → Text
unfolding value_at trim_space path_base eq_text byte_len has_prefix
process_name f pid =
    let comm = trim_space (value_at pid f.comm) in
    let base = path_base (trim_space (value_at pid f.argv0)) in
    if is_empty comm
    then (if eq_text base (codes ".") || eq_text base (codes "/") then [] else base)
    else if leb 15 (byte_len comm) && has_prefix base comm
    then base
    else comm

-- `matchableByName`.
pub matchable_by_name : ListenerFacts → ℤ → Text → Bool
unfolding value_at trim_space contains
matchable_by_name f pid name =
    let argv0 = trim_space (value_at pid f.argv0) in is_empty argv0 || contains argv0 name

-- The pids that hold one of the sockets, each once: the keys of `pids`.
unfoldable pub insert_pid : ℤ → List ℤ → List ℤ
insert_pid n ns = if has (λ m. eq_ℤ m n) ns then ns else n ∷ ns

unfoldable pub holding : List (Text × ℤ) → List Text → List ℤ
unfolding insert_pid eq_text
holding [] inodes = []
holding ((inode, pid) ∷ es) inodes =
    let rest = holding es inodes in
    if has (λ i. eq_text i inode) inodes then insert_pid pid rest else rest

-- The fields that `pickHolder` fills.
pub record ServerProcess : Type 0 where
  pub name : Text
  pub pid : ℤ
  pub pids : List ℤ
  pub inode : Text

pub data Holder : Type 0 where
  held_by : ServerProcess → Holder
  scan_incomplete no_readlink_there nobody_there several_names no_name : Holder
  not_in_command_line : Text → Holder

abbrev pub all_named : ListenerFacts → Text → List ℤ → Bool
all_named f name [] = true
all_named f name (n ∷ ns) = eq_text (process_name f n) name && all_named f name ns

abbrev pub all_matchable : ListenerFacts → Text → List ℤ → Bool
all_matchable f name [] = true
all_matchable f name (n ∷ ns) = matchable_by_name f n name && all_matchable f name ns

-- The end of `pickHolder`, over the sorted pids.
unfoldable pub found_holder : Text → List Text → List ℤ → Holder
unfolding join
found_holder name inodes [] = nobody_there
found_holder name inodes (n ∷ ns) =
    held_by (record { name = name; pid = n; pids = n ∷ ns; inode = join (codes ",") inodes })

-- `pickHolder` from the pids on.
unfoldable pub pick_among : ListenerFacts → List Text → List ℤ → Holder
unfolding process_name matchable_by_name sort_ints found_holder eq_text
pick_among f inodes [] = if f.no_readlink then no_readlink_there else nobody_there
pick_among f inodes (n ∷ ns) =
    let name = process_name f n in
    if not (all_named f name ns)
    then several_names
    else if is_empty name
    then no_name
    else if not (all_matchable f name (n ∷ ns))
    then not_in_command_line name
    else found_holder name inodes (sort_ints (n ∷ ns))

-- `pickHolder`.
unfoldable pub pick_holder : ListenerFacts → List Text → Holder
unfolding pick_among holding
pick_holder f inodes =
    if not f.complete then scan_incomplete else pick_among f inodes (holding f.holders inodes)
