-- ===== src/LockTool/Kernel/Calls.antt =====
-- A call of the program by the harness: the command line that a shell in the pod reads, the arguments
-- that the program reads, and the answer that comes back.
use nfs_verification.Prelude.{
  ℕ, ◌≡◌, refl, ap, ◌∙◌, Bool, true, List, [], ◌∷◌, some, arith, ℤ, pos, negsuc, ◌≤ℤ◌, int64_max,
  ◌⊎◌, inl, inr, map, if◌then◌else◌,
}
use nfs_verification.Text.{Text, codes, join, eq_text}
use nfs_verification.Text.Number.{itoa, parse_int, parse_int-itoa}
use nfs_verification.Shell.{ExecResult, shell_quote}
use nfs_verification.Shell.Quoting.{read_words, read_words-join}
use nfs_verification.LockTool.{
  LockRange, lock_tool_cmd, judge_tool, run_lock_tool, range_args, lock_tool_path,
}
use nfs_verification.LockTool.Kernel.{
  Flock, FcntlType, rdlck, wrlck, Cmd, Reply, LockArgs, lock_type, parse_lock_args, natural,
  args_of, main, subcommand, try, with_args, try_opened, set_lock, try_result,
}
use nfs_verification.LockTool.Kernel.Answers.{told, NamesFit, judge_tool-try_result}

-- A range that a lock can be asked for on.
pub record IsLockRange (r : LockRange) : Type 0 where
  pub starts : pos 0 ≤ℤ r.start
  pub start_fits : r.start ≤ℤ int64_max
  pub lasts : pos 0 ≤ℤ r.len
  pub len_fits : r.len ≤ℤ int64_max
  pub mode : (r.mode ≡ codes "read") ⊎ (r.mode ≡ codes "write")

-- The arguments that a range and a path come to.
pub args_for : Text → LockRange → LockArgs
args_for path r = record { path = path; start = r.start; length = r.len; mode = r.mode }

pub type_for : LockRange → FcntlType
unfolding eq_text
type_for r = if eq_text r.mode (codes "read") then rdlck else wrlck

natural_pos : (n : ℕ) → natural (some (pos n)) ≡ some (pos n)
unfolding natural
natural_pos n = ground arith

parse_natural : (n : ℤ) → pos 0 ≤ℤ n → n ≤ℤ int64_max → natural (parse_int (itoa n)) ≡ some n
unfolding natural
parse_natural (pos n) lo hi = rw (parse_int-itoa (pos n) (omega arith) hi) (natural_pos n)
parse_natural (negsuc n) lo hi = absurd (omega arith)

lock_type_for : (r : LockRange) → IsLockRange r → lock_type r.mode ≡ some (type_for r)
unfolding lock_type type_for eq_text
lock_type_for r h = elim h.mode [ inl e ↦ rw e refl | inr e ↦ rw e refl ]

-- The program reads the arguments that the harness renders.
parse_lock_args-range_args :
    (path : Text) (r : LockRange)
    → IsLockRange r
    → parse_lock_args (path ∷ range_args r) ≡ some (args_for path r)
unfolding parse_lock_args range_args args_of args_for
parse_lock_args-range_args path r h = rw (
  parse_natural r.start h.starts h.start_fits,
  parse_natural r.len h.lasts h.len_fits,
  lock_type_for r h,
)

lock_tool_line :
    (sub path : Text) (r : LockRange)
    → lock_tool_cmd sub path r []
      ≡ join (b' ' ∷ []) (map shell_quote (lock_tool_path ∷ sub ∷ path ∷ range_args r))
unfolding lock_tool_cmd range_args join
lock_tool_line sub path r = refl

read_words-lock_tool_cmd :
    (sub path : Text) (r : LockRange)
    → read_words (lock_tool_cmd sub path r []) ≡ some (lock_tool_path ∷ sub ∷ path ∷ range_args r)
unfolding lock_tool_cmd range_args
read_words-lock_tool_cmd sub path r =
    ap read_words (lock_tool_line sub path r)
    ∙ read_words-join lock_tool_path (sub ∷ path ∷ range_args r)

module _ {ℓ} {K : Type ℓ} (open_target : Text → K → K × Bool)
    (fcntl : Text → Cmd → Flock → K → K × Reply) (exits : K → K)
    (hold : List Text → K → K × ExecResult) where
  with_args-some :
      (body : LockArgs → FcntlType → K → K × ExecResult) (a : LockArgs) (t : FcntlType) (k : K)
      → lock_type a.mode ≡ some t
      → with_args open_target fcntl body (some a) k ≡ body a t k
  unfolding with_args
  with_args-some body a t k e = rw (e, with_args) refl

  try-args :
      (path : Text) (r : LockRange) (k k1 : K)
      → IsLockRange r
      → open_target path k ≡ (k1, true)
      → try open_target fcntl (path ∷ range_args r) k ≡ (
        (set_lock fcntl (args_for path r) (type_for r) k1).0,
        try_result (set_lock fcntl (args_for path r) (type_for r) k1).1,
      )
  unfolding try with_args try_opened args_for
  try-args path r k k1 h e =
      ap (λ o. with_args open_target fcntl body o k) (parse_lock_args-range_args path r h)
      ∙ with_args-some body (args_for path r) (type_for r) k (lock_type_for r h)
      ∙ ap (try_opened open_target fcntl (args_for path r) (type_for r)) e
    where
      body : LockArgs → FcntlType → K → K × ExecResult
      body a typ j = try_opened open_target fcntl a typ (open_target a.path j)

  -- Where the pod's shell runs the program on the words of a line whose first word is the program's path,
  -- and the file can be opened, the harness learns from `try` what the lock
  -- request it asked for came to.
  pub run_lock_tool-try :
      (sh : Text → ExecResult) (k k1 : K) (path : Text) (r : LockRange)
      → ((line : Text) (argv : List Text)
          → read_words line ≡ some (lock_tool_path ∷ argv)
          → sh line ≡ (main open_target fcntl exits hold (lock_tool_path ∷ argv) k).1)
      → IsLockRange r
      → open_target path k ≡ (k1, true)
      → NamesFit (set_lock fcntl (args_for path r) (type_for r) k1).1
      → run_lock_tool true sh (codes "try") path r
        ≡ told (set_lock fcntl (args_for path r) (type_for r) k1).1
  unfolding run_lock_tool main subcommand eq_text
  run_lock_tool-try sh k k1 path r runs h e fit =
      ap judge_tool (
        runs (lock_tool_cmd (codes "try") path r []) _
          (read_words-lock_tool_cmd (codes "try") path r)
        ∙ ap (λ p. p.1) (try-args path r k k1 h e))
      ∙ judge_tool-try_result _ fit
