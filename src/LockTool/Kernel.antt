-- ===== src/LockTool/Kernel.antt =====
-- cmd/locktool/main.go: the program that runs in the pod. `fcntl` and opening the file are the
-- pod's, with a state that they change.
pub mod Answers
pub mod Calls
use nfs_verification.Prelude.{
  ℕ, Bool, true, false, List, [], ◌∷◌, ◌++◌, Option, none, some, if◌then◌else◌, ℤ, pos, ltb_ℤ, ◌==◌,
  not,
}
use nfs_verification.Text.{Text, codes, eq_text, is_empty, join}
use nfs_verification.Text.Number.{itoa, parse_int}
use nfs_verification.Shell.{ExecResult}

-- `lockArgs`.
pub record LockArgs : Type 0 where
  pub path : Text
  pub start : ℤ
  pub length : ℤ
  pub mode : Text

-- `F_RDLCK`, `F_WRLCK`, `F_UNLCK`.
pub data FcntlType : Type 0 where
  rdlck wrlck unlck : FcntlType

-- `syscall.Flock_t` with `SEEK_SET`, without the process id, which nothing reads.
pub record Flock : Type 0 where
  pub typ : FcntlType
  pub start : ℤ
  pub len : ℤ

-- `lockType`.
pub lock_type : Text → Option FcntlType
lock_type mode =
    if eq_text mode (codes "read")
    then some rdlck
    else if eq_text mode (codes "write")
    then some wrlck
    else none

-- An integer that is not negative.
natural : Option ℤ → Option ℤ
natural none = none
natural (some n) = if ltb_ℤ n (pos 0) then none else some n

args_of : Text → Option ℤ → Option ℤ → Text → Option FcntlType → Option LockArgs
args_of path (some start) (some len) mode (some _) =
    some (record { path = path; start = start; length = len; mode = mode })
args_of path _ _ mode _ = none

-- `parseLockArgs`; `none` is an error.
pub parse_lock_args : List Text → Option LockArgs
unfolding natural args_of
parse_lock_args (path ∷ (start ∷ (len ∷ (mode ∷ _)))) =
    args_of path (natural (parse_int start)) (natural (parse_int len)) mode (lock_type mode)
parse_lock_args _ = none

-- `flockFor`.
pub flock_for : LockArgs → FcntlType → Flock
flock_for a typ = record { typ = typ; start = a.start; len = a.length }

pub data Cmd : Type 0 where
  setlk getlk : Cmd

-- What a system call returns: the description it filled in, or an error.
pub data Reply : Type 0 where
  done : Flock → Reply
  would_block : Reply
  failed : Reply

-- What `setLock` returns.
pub data Acquired : Type 0 where
  granted : Acquired
  refused : Option Flock → Acquired
  error : Acquired

-- The lock that the query found; a query that fails, and one that finds none, name none.
attributed : Reply → Option Flock
attributed (done c) = elim c.typ [ rdlck ↦ some c | wrlck ↦ some c | unlck ↦ none ]
attributed _ = none

-- `getLock` and `setLock` over the pod's `fcntl`, with its state `K`.
module _ {ℓ} {K : Type ℓ} (fcntl : Text → Cmd → Flock → K → K × Reply) where
  pub get_lock : LockArgs → FcntlType → K → K × Reply
  unfolding flock_for
  get_lock a typ = fcntl a.path getlk (flock_for a typ)

  unfoldable pub set_lock : LockArgs → FcntlType → K → K × Acquired
  unfolding get_lock attributed
  set_lock a typ k =
      let (k1, first) = fcntl a.path setlk (flock_for a typ) k in
      elim first [
        | done _ ↦ (k1, granted)
        | failed ↦ (k1, error)
        | would_block ↦ let (k2, second) = get_lock a typ k1 in (k2, refused (attributed second))
      ]

type_letter : FcntlType → Text
type_letter rdlck = codes "r"
type_letter _ = codes "w"

-- The words of `describe`, which it prints with spaces between them.
pub describe_words : Flock → List Text
unfolding type_letter
describe_words lk =
    (codes "type=" ++ type_letter lk.typ)
    ∷ ((codes "start=" ++ itoa lk.start) ∷ ((codes "len=" ++ itoa lk.len) ∷ []))

-- One line of output and the exit status.
prints : List Text → ℕ → ExecResult
prints ws code = record {
  stdout = join (codes " ") ws ++ codes "\n";
  stderr = [];
  exit_code = pos code;
  failed = not (code == 0);
}

-- `usage` and `fail`: nothing on standard output, and the problem on standard error.
fails : Text → ExecResult
fails problem = record { stdout = []; stderr = problem; exit_code = pos 2; failed = true }

-- What `try` prints for what `setLock` returned.
pub try_result : Acquired → ExecResult
unfolding prints fails describe_words
try_result granted = prints (codes "GRANTED" ∷ []) 0
try_result (refused (some c)) = prints (codes "REFUSED" ∷ describe_words c) 1
try_result (refused none) = prints (codes "REFUSED" ∷ []) 1
try_result error = fails (codes "locking")

held_result : Flock → ExecResult
unfolding prints describe_words
held_result lk = elim lk.typ [
  | unlck ↦ prints (codes "FREE" ∷ []) 0
  | _ ↦ prints (codes "HELD" ∷ describe_words lk) 1
]

-- What `getlk` prints for what `getLock` returned.
pub getlk_result : Reply → ExecResult
unfolding held_result fails
getlk_result (done lk) = held_result lk
getlk_result _ = fails (codes "querying")

module _ {ℓ} {K : Type ℓ} (open_target : Text → K → K × Bool)
    (fcntl : Text → Cmd → Flock → K → K × Reply) where
  try_opened : LockArgs → FcntlType → K × Bool → K × ExecResult
  unfolding set_lock try_result fails
  try_opened a typ (k, false) = (k, fails (codes "opening"))
  try_opened a typ (k, true) = let (k1, r) = set_lock fcntl a typ k in (k1, try_result r)

  getlk_opened : LockArgs → FcntlType → K × Bool → K × ExecResult
  unfolding get_lock getlk_result fails
  getlk_opened a typ (k, false) = (k, fails (codes "opening"))
  getlk_opened a typ (k, true) = let (k1, r) = get_lock fcntl a typ k in (k1, getlk_result r)

  -- A body over the arguments that were read.
  with_args : (LockArgs → FcntlType → K → K × ExecResult) → Option LockArgs → K → K × ExecResult
  unfolding lock_type fails
  with_args body none k = (k, fails (codes "usage"))
  with_args body (some a) k = elim (lock_type a.mode) [
    | none ↦ (k, fails (codes "usage"))
    | some typ ↦ body a typ k
  ]

  -- The functions `try` and `getlk`.
  unfoldable pub try : List Text → K → K × ExecResult
  unfolding with_args try_opened parse_lock_args
  try argv = with_args (λ a typ k. try_opened a typ (open_target a.path k)) (parse_lock_args argv)

  unfoldable pub getlk_cmd : List Text → K → K × ExecResult
  unfolding with_args getlk_opened parse_lock_args
  getlk_cmd argv =
      with_args (λ a typ k. getlk_opened a typ (open_target a.path k)) (parse_lock_args argv)

  subcommand : (List Text → K → K × ExecResult) → List Text → K → K × ExecResult
  unfolding try getlk_cmd fails
  subcommand hold (_ ∷ (sub ∷ argv)) k =
      if eq_text sub (codes "hold")
      then hold argv k
      else if eq_text sub (codes "try")
      then try argv k
      else if eq_text sub (codes "getlk")
      then getlk_cmd argv k
      else (k, fails (codes "unknown subcommand"))
  subcommand hold _ k = (k, fails (codes "no subcommand"))

  -- `main` on `os.Args`, with `hold` as it is given; `exits` is what the end of the process does to
  -- the pod's locks.
  unfoldable pub main : (K → K) → (List Text → K → K × ExecResult) → List Text → K → K × ExecResult
  unfolding subcommand
  main exits hold argv k = let (k1, r) = subcommand hold argv k in (exits k1, r)
