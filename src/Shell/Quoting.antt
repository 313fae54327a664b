-- ===== src/Shell/Quoting.antt =====
-- pkg/framework/nodeagent.go's `shellQuote`: what a shell reads back from quoted arguments.
use mathlib.Core.List.{append-nil, append_assoc}
use nfs_verification.Prelude.{
  ℕ, ◌≡◌, refl, sym, ap, ◌∙◌, Bool, ◌||◌, List, [], ◌∷◌, ◌++◌, map, Option, none, some, ◌==◌,
  if◌then◌else◌, arith,
}
use nfs_verification.Shell.{
  quote_char, quote_body, shell_quote, is_alnum, command_line, script_path,
}
use nfs_verification.Text.{Text, codes, join}

-- Where a shell stands in its input (POSIX, 2.2 and 2.3): between words, in a word, between single
-- quotes, or behind a backslash.
pub data Mode : Type 0 where
  gap bare quoted escaped : Mode

pub record Reader : Type 0 where
  pub mode : Mode
  pub word : Text
  pub words : List Text

-- Characters that mean themselves outside quotes; any other than these, a space, a quote or a
-- backslash is refused here.
is_plain : ℕ → Bool
is_plain c = is_alnum c || c == b'/' || c == b'.' || c == b'_' || c == b'-'

abbrev read_bare : Reader → ℕ → Option Reader
read_bare r c =
    if c == b'\''
    then some (record r { mode = quoted })
    else if c == b'\\'
    then some (record r { mode = escaped })
    else if is_plain c
    then some (record r { mode = bare; word = r.word ++ c ∷ [] })
    else none

step_in : Mode → Reader → ℕ → Option Reader
unfolding is_plain
step_in gap r c = if c == b' ' then some r else read_bare (record r { word = [] }) c
step_in bare r c =
    if c == b' '
    then some (record { mode = gap; word = []; words = r.words ++ r.word ∷ [] })
    else read_bare r c
step_in quoted r c =
    if c == b'\''
    then some (record r { mode = bare })
    else some (record r { word = r.word ++ c ∷ [] })
step_in escaped r c = some (record r { mode = bare; word = r.word ++ c ∷ [] })

finish : Mode → Reader → Option (List Text)
finish gap r = some r.words
finish bare r = some (r.words ++ r.word ∷ [])
finish _ r = none

read_from : Reader → Text → Option (List Text)
unfolding finish
read_from r [] = finish r.mode r
read_from r (c ∷ s) = elim (step_in r.mode r c) [ none ↦ none | some q ↦ read_from q s ]

-- The words of a command line as a shell reads them.
pub read_words : Text → Option (List Text)
unfolding read_from step_in
read_words = read_from (record { mode = gap; word = []; words = [] })

abbrev at_ : Mode → Text → List Text → Reader
at_ m w ws = record { mode = m; word = w; words = ws }

read-quote_char :
    (c : ℕ) (w : Text) (ws : List Text) (s : Text)
    → read_from (at_ quoted w ws) (quote_char c ++ s) ≡ read_from (at_ quoted (w ++ c ∷ []) ws) s
unfolding read_from step_in quote_char
read-quote_char c w ws s = ground arith

read-quote_body :
    (v : Text) (w : Text) (ws : List Text) (s : Text)
    → read_from (at_ quoted w ws) (quote_body v ++ b'\'' ∷ s) ≡ read_from (at_ bare (w ++ v) ws) s
unfolding quote_body
read-quote_body [] w ws s = rw append-nil (unfold read_from step_in in refl)
read-quote_body (c ∷ v) w ws s =
    ap (read_from (at_ quoted w ws)) (append_assoc (quote_char c) (quote_body v) (b'\'' ∷ s))
    ∙ read-quote_char c w ws (quote_body v ++ b'\'' ∷ s)
    ∙ read-quote_body v (w ++ c ∷ []) ws s
    ∙ ap (λ u. read_from (at_ bare u ws) s) (append_assoc w (c ∷ []) v)

read-shell_quote :
    (v : Text) (ws : List Text) (s : Text)
    → read_from (at_ gap [] ws) (shell_quote v ++ s) ≡ read_from (at_ bare v ws) s
unfolding shell_quote
read-shell_quote v ws s =
    ap (λ u. read_from (at_ gap [] ws) (b'\'' ∷ u)) (append_assoc (quote_body v) (b'\'' ∷ []) s)
    ∙ unfold read_from step_in in read-quote_body v [] ws s

read_space :
    (w : Text) (ws : List Text) (s : Text)
    → read_from (at_ bare w ws) (b' ' ∷ s) ≡ read_from (at_ gap [] (ws ++ w ∷ [])) s
unfolding read_from step_in
read_space w ws s = refl

read-args :
    (arg : Text) (args ws : List Text)
    → read_from (at_ gap [] ws) (join (b' ' ∷ []) (map shell_quote (arg ∷ args)))
      ≡ some (ws ++ arg ∷ args)
unfolding join
read-args arg [] ws =
    ap (read_from (at_ gap [] ws)) (sym (append-nil (shell_quote arg)))
    ∙ read-shell_quote arg ws []
    ∙ unfold read_from in refl
read-args arg (next ∷ args) ws =
    read-shell_quote arg ws _
    ∙ read_space arg ws _
    ∙ read-args next args (ws ++ arg ∷ [])
    ∙ ap some (append_assoc ws (arg ∷ []) (next ∷ args))

read_sh :
    (s : Text)
    → read_from (at_ gap [] []) (codes "sh " ++ s) ≡ read_from (at_ gap [] (codes "sh" ∷ [])) s
unfolding read_from step_in is_alnum
read_sh s = refl

read_last :
    (args ws : List Text)
    → read_from (at_ gap [] ws) (join (b' ' ∷ []) (map shell_quote args)) ≡ some (ws ++ args)
read_last [] ws = unfold read_from join in ap some (sym (append-nil ws))
read_last (arg ∷ args) ws = read-args arg args ws

-- Quoted words with single spaces between them.
pub read_words-join :
    (arg : Text) (args : List Text)
    → read_words (join (b' ' ∷ []) (map shell_quote (arg ∷ args))) ≡ some (arg ∷ args)
unfolding read_words
read_words-join arg args = read-args arg args []

-- A shell that reads the line which runs a script sees the words `sh`, the script's path, and each
-- argument as it was given, whatever characters it holds.
pub read_words-command_line :
    (name id : Text) (args : List Text)
    → read_words (command_line name id args) ≡ some (codes "sh" ∷ script_path name id ∷ args)
unfolding read_words command_line
read_words-command_line name id args =
    let path = script_path name id in
    let tail = join (b' ' ∷ []) (map shell_quote args) in
    read_sh (shell_quote path ++ b' ' ∷ tail)
    ∙ read-shell_quote path (codes "sh" ∷ []) (b' ' ∷ tail)
    ∙ read_space path (codes "sh" ∷ []) tail
    ∙ read_last args (codes "sh" ∷ path ∷ [])
