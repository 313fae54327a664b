-- ===== src/LostLocks.antt =====
-- pkg/framework/lostlocks.go: the lost-locks reports that are new between two reads of a ring buffer.
pub mod Window
use Prim.Native.Nat.{pred}
use nfs_verification.Prelude.{
  ℕ, zero, suc, ◌+◌, Bool, true, false, not, ◌&&◌, ◌||◌, List, [], ◌∷◌, ◌++◌, Option, none, some,
  ◌==◌, if◌then◌else◌, ℤ,
}
use nfs_verification.Text.{
  Text, codes, eq_text, is_empty, is_space, trim_space, split, split_by, has_prefix, has_suffix,
  cut,
}
use nfs_verification.Text.Number.{parse_int, is_digit}

pub record LostLocks : Type 0 where
  pub server : Text
  pub count : ℤ
  pub line : Text

-- `\S`: anything but the five spaces of the pattern language.
not_re_space : ℕ → Bool
not_re_space c = not (c == b' ' || c == b'\t' || c == b'\n' || c == 12 || c == b'\r')

-- The longest front whose characters pass, and what is behind it.
span : (ℕ → Bool) → Text → Text × Text
span p [] = ([], [])
span p (c ∷ s) = let (front, rest) = span p s in if p c then (c ∷ front, rest) else ([], c ∷ s)

-- `s` behind the prefix `t`.
strip : Text → Text → Option Text
strip s [] = some s
strip [] (_ ∷ _) = none
strip (a ∷ s) (b ∷ t) = if a == b then strip s t else none

-- The text without its last character, if that is a colon and not all there is.
server_name : Text → Option Text
server_name [] = none
server_name (c ∷ []) = none
server_name (c ∷ (d ∷ [])) = if d == b':' then some (c ∷ []) else none
server_name (c ∷ (d ∷ (e ∷ s))) = elim (server_name (d ∷ (e ∷ s))) [
  | none ↦ none
  | some n ↦ some (c ∷ n)
]

-- The digits behind " lost ", if " locks" and nothing else is behind them.
lost_count : Text → Option Text
unfolding span strip eq_text is_digit
lost_count s = elim (strip s (codes " lost ")) [
  | none ↦ none
  | some t ↦
      let (digits, rest) = span is_digit t in
      if not (is_empty digits) && eq_text rest (codes " locks") then some digits else none
]

pair : Option Text → Option Text → Option (Text × Text)
pair (some a) (some b) = some (a, b)
pair _ _ = none

-- `lostLocksPattern` at one position: no space can stand in the server's name, so that the name and
-- its colon are all the characters up to the next space.
match_here : Text → Option (Text × Text)
unfolding span strip server_name lost_count pair not_re_space
match_here s = elim (strip s (codes "NFS: ")) [
  | none ↦ none
  | some t ↦ let (name, rest) = span not_re_space t in pair (server_name name) (lost_count rest)
]

-- `FindStringSubmatch`: the first position at which the pattern matches.
find_match : Text → Option (Text × Text)
unfolding match_here
find_match [] = none
find_match (c ∷ s) =
    let later = find_match s in elim (match_here (c ∷ s)) [ none ↦ later | some m ↦ some m ]

-- What is behind a stamp in brackets, if there is one.
strip_stamp : Text → Text
unfolding cut trim_space
strip_stamp [] = []
strip_stamp (c ∷ s) =
    if c == b'['
    then elim (cut b']' (c ∷ s)) [ none ↦ c ∷ s | some (_, rest) ↦ trim_space rest ]
    else c ∷ s

-- `withoutStamp`.
unfoldable pub without_stamp : Text → Text
unfolding strip_stamp
without_stamp line = strip_stamp (trim_space line)

abbrev report : Text → Text → Option ℤ → Option LostLocks
report line name (some n) = some (record { server = name; count = n; line = line })
report line name none = none

report_of : Text → Option (Text × Text) → Option LostLocks
unfolding parse_int
report_of line none = none
report_of line (some (name, digits)) = report line name (parse_int digits)

-- `parseLostLocks`.
pub parse_lost_locks : Text → Option LostLocks
unfolding find_match report_of without_stamp
parse_lost_locks line =
    let line = trim_space line in report_of line (find_match (without_stamp line))

-- `seen`, a map from lines to counts in which a missing key counts 0.
abbrev pub Counts : Type 0
Counts = Text → ℕ

increment : Text → Counts → Counts
increment k seen j = if eq_text k j then suc (seen j) else seen j

decrement : Text → Counts → Counts
decrement k seen j = if eq_text k j then pred (seen j) else seen j

-- The loop over the lines of `before`.
tally : List Text → Counts → Counts
unfolding increment
tally [] seen = seen
tally (line ∷ ls) seen =
    tally ls
      (elim (parse_lost_locks line) [ none ↦ seen | some _ ↦ increment (without_stamp line) seen ])

-- The loop over the lines of `after`.
fresh : Counts → List Text → List LostLocks
unfolding decrement
fresh seen [] = []
fresh seen (line ∷ ls) = elim (parse_lost_locks line) [
  | none ↦ fresh seen ls
  | some ll ↦ elim (seen (without_stamp line)) [
    | zero ↦ ll ∷ fresh seen ls
    | suc _ ↦ fresh (decrement (without_stamp line) seen) ls
  ]
]

-- `NewLostLocks`.
unfoldable pub new_lost_locks : Text → Text → List LostLocks
unfolding tally fresh parse_lost_locks
new_lost_locks before after =
    if is_empty (trim_space before)
    then []
    else fresh (tally (split b'\n' before) (λ _. 0)) (split b'\n' after)
