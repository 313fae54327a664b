-- ===== src/Shell.antt =====
-- pkg/framework/scripts.go, exec.go, framework.go and nodeagent.go: names and arguments on their way into a
-- shell inside a pod.
pub mod Quoting
pub mod Names
use nfs_verification.Prelude.{
  ℕ, ◌+◌, Bool, true, false, not, ◌&&◌, ◌||◌, List, [], ◌∷◌, ◌++◌, map, Option, none, some, leb,
  ltb, ◌==◌, if◌then◌else◌, length, ℤ,
}
use nfs_verification.Text.{
  Text, codes, is_empty, to_lower, has_prefix, contains, join, trim_right, byte_len, split,
  split_by,
}

-- What an exec in a pod brings back; `failed` is `Err != nil`.
pub record ExecResult : Type 0 where
  pub stdout : Text
  pub stderr : Text
  pub exit_code : ℤ
  pub failed : Bool

-- What `shellQuote` puts for one character.
quote_char : ℕ → Text
quote_char c = if c == b'\'' then codes "'\\''" else c ∷ []

quote_body : Text → Text
unfolding quote_char
quote_body [] = []
quote_body (c ∷ s) = quote_char c ++ quote_body s

-- `shellQuote`.
pub shell_quote : Text → Text
unfolding quote_body
shell_quote s = b'\'' ∷ (quote_body s ++ b'\'' ∷ [])

within : ℕ → ℕ → ℕ → Bool
within lo hi c = leb lo c && leb c hi

-- `[A-Za-z0-9]`.
pub is_alnum : ℕ → Bool
unfolding within
is_alnum c = within b'A' b'Z' c || within b'a' b'z' c || within b'0' b'9' c

-- `[A-Za-z0-9._-]`.
pub is_id_char : ℕ → Bool
unfolding is_alnum
is_id_char c = is_alnum c || c == b'.' || c == b'_' || c == b'-'

pub all_chars : (ℕ → Bool) → Text → Bool
all_chars p [] = true
all_chars p (c ∷ s) = p c && all_chars p s

-- `CheckScriptID`: the pattern `^[A-Za-z0-9][A-Za-z0-9._-]{0,63}$`.
unfoldable pub check_script_id : Text → Bool
unfolding is_id_char all_chars
check_script_id [] = false
check_script_id (c ∷ s) = is_alnum c && all_chars is_id_char s && leb (length s) 63

-- `[a-z0-9]`.
is_lower_alnum : ℕ → Bool
unfolding within
is_lower_alnum c = within b'a' b'z' c || within b'0' b'9' c

last_is : (ℕ → Bool) → Text → Bool
last_is p [] = false
last_is p (c ∷ []) = p c
last_is p (c ∷ (d ∷ s)) = last_is p (d ∷ s)

-- `[a-z0-9]([-a-z0-9]*[a-z0-9])?`.
is_label : Text → Bool
unfolding is_lower_alnum all_chars last_is
is_label [] = false
is_label (c ∷ s) =
    is_lower_alnum c
    && all_chars (λ d. is_lower_alnum d || d == b'-') s
    && last_is is_lower_alnum (c ∷ s)

all_labels : List Text → Bool
unfolding is_label
all_labels [] = true
all_labels (l ∷ ls) = is_label l && all_labels ls

-- The pattern `rfc1123Subdomain`: labels with single dots between them.
is_subdomain : Text → Bool
unfolding all_labels split_by
is_subdomain s = all_labels (split b'.' s)

abbrev pub max_object_name_length : ℕ
max_object_name_length = 253

pub data NameError : Type 0 where
  empty_name too_long not_subdomain : NameError

-- `CheckObjectName`.
unfoldable pub check_object_name : Text → Option NameError
unfolding is_subdomain byte_len
check_object_name name =
    if is_empty name
    then some empty_name
    else if ltb max_object_name_length (byte_len name)
    then some too_long
    else if not (is_subdomain name)
    then some not_subdomain
    else none

abbrev pub script_eof : Text
script_eof = codes "NFSV_SCRIPT_EOF"

pub data ScriptResult : Type 0 where
  script : Text → ScriptResult
  bad_id has_terminator : ScriptResult

-- `path` in `RunScript`.
abbrev pub script_path : Text → Text → Text
script_path name id = codes "/tmp/nfsv-" ++ (id ++ (b'-' ∷ name))

-- The last line of the script that `RunScript` builds.
pub command_line : Text → Text → List Text → Text
unfolding shell_quote join
command_line name id args =
    codes "sh "
    ++ (shell_quote (script_path name id) ++ (b' ' ∷ join (b' ' ∷ []) (map shell_quote args)))

-- `RunScript`, over what `scriptBody` returns for the name: the scripts are embedded files, and a name
-- that is not one of them stops the program.
unfoldable pub run_script : (Text → Text) → Text → Text → List Text → ScriptResult
unfolding check_script_id contains trim_right command_line
run_script script_body name id args =
    if not (check_script_id id)
    then bad_id
    else if contains (script_body name) script_eof
    then has_terminator
    else script (
        codes "set -e\ncat > "
        ++ (shell_quote (script_path name id)
            ++ (codes " <<'"
                ++ (script_eof
                    ++ (codes "'\n"
                        ++ (trim_right (λ c. c == b'\n') (script_body name)
                            ++ (b'\n'
                                ∷ (script_eof
                                    ++ (b'\n' ∷ (command_line name id args ++ b'\n' ∷ []))))))))))

-- `Framework.prefix` and `Name`, for the case's id and the run's id.
replace_char : ℕ → ℕ → Text → Text
replace_char a b [] = []
replace_char a b (c ∷ s) = (if c == a then b else c) ∷ replace_char a b s

unfoldable pub case_prefix : Text → Text → Text
unfolding to_lower replace_char
case_prefix case_id run_id =
    codes "nfsv-"
    ++ (to_lower (replace_char b'_' b'-' case_id) ++ (b'-' ∷ (to_lower run_id ++ b'-' ∷ [])))

unfoldable pub object_name : Text → Text → Text → Text
unfolding case_prefix has_prefix
object_name case_id run_id logical =
    let lowered = to_lower logical in
    let prefix = case_prefix case_id run_id in
    if has_prefix lowered prefix then lowered else prefix ++ lowered
