-- ===== src/Grace/Files/Stamps/Origins.antt =====
-- pkg/framework/serverlogfile.go, lines: where the lines that are used of a file come from.
use mathlib.Core.List.{append-nil, append_assoc}
use mathlib.Core.Path.{subst}
use nfs_verification.Clock.{Time, sub_time}
use nfs_verification.Grace.Files.{ServerLogFile}
use nfs_verification.Grace.Files.Stamps.{
  FileLines, in_window, unstamped, stamped, line_with, file_line, file_lines, no_lines,
  behind_first, is_off, judge_lines, lines_of, server_log_tail_bytes,
}
use nfs_verification.Grace.Observations.{LogLine, is_zero, zero_time}
use nfs_verification.Grace.Phrases.{Patterns}
use nfs_verification.Prelude.{
  ◌≡◌, refl, sym, ap, ◌∙◌, Bool, true, false, List, [], ◌∷◌, ◌++◌, Option, none, some,
  if◌then◌else◌, ◌==◌, ◌≤ℤ◌, ◌<ℤ◌, ltb_ℤ, eq_ℤ_iff, All, All-map, Bool-cases, ◌⊎◌, inl, inr, arith,
}
use nfs_verification.Text.{Text, is_empty, split, cut, trim_right}

All-snoc {ℓ κ} :
    {A : Type ℓ} (P : A → Type κ) (xs : List A) (x : A) → All P xs → P x → All P (xs ++ x ∷ [])
All-snoc P [] x h p = (p, tt)
All-snoc P (y ∷ ys) x h p = (h.0, All-snoc P ys x h.1 p)

-- A line without the carriage return behind it.
abbrev pub text_of : Text → Text
text_of raw = trim_right (λ c. c == b'\r') raw

-- Whether a time is in what is asked for: everything is, or what is not before it.
abbrev pub InWindow : Time → Time → Type 0
InWindow from at = (from ≡ zero_time) ⊎ (from ≤ℤ at)

in_window-InWindow : (from at : Time) → in_window from at ≡ true → InWindow from at
unfolding in_window
in_window-InWindow from at h = elim (Bool-cases (is_zero from)) [
  | inl z ↦ inl ((eq_ℤ_iff from zero_time).0 z)
  | inr z ↦ inr (ground arith)
]

module _ (stamp_of : Text → Option (Time × Text)) (cfg : Patterns) (source : Text)
    (from : Time) where
  -- A line that is not blank, and starts with a stamp.
  abbrev pub Stamped : Text → Time → Text → Type 0
  Stamped raw at rest =
      (is_empty (text_of raw) ≡ false) × (stamp_of (text_of raw) ≡ some (at, rest))

  abbrev pub NoStamp : Text → Type 0
  NoStamp raw = (is_empty (text_of raw) ≡ true) ⊎ (stamp_of (text_of raw) ≡ none)

  -- The last stamp among the lines is in the window.
  abbrev pub LastStampIn : List Text → Type 0
  LastStampIn pre =
      (a : List Text) × (raw : Text) × (b : List Text) × (at : Time) × (rest : Text) × (pre
        ≡ a ++ raw ∷ b)
      × Stamped raw at rest
      × All NoStamp b
      × InWindow from at

  -- What is used of a line behind others: with a stamp in the window, what is behind the stamp, at its
  -- time; or without a stamp, the line, at no time, where the last stamp before it is in the window.
  abbrev pub ComesFrom : List Text → Text → LogLine → Type 0
  ComesFrom pre raw l =
      (Stamped raw l.at l.text × InWindow from l.at)
      ⊎ ((is_empty (text_of raw) ≡ false)
          × (stamp_of (text_of raw) ≡ none)
          × (l.at ≡ zero_time)
          × (l.text ≡ text_of raw)
          × LastStampIn pre)

  abbrev pub Used : List Text → LogLine → Type 0
  Used ls l =
      (l.source ≡ source)
      × ((pre : List Text) × (raw : Text) × (post : List Text) × (ls ≡ pre ++ raw ∷ post)
          × ComesFrom pre raw l)

  -- What holds of the loop's variables behind some lines.
  abbrev Reached : List Text → FileLines → Type 0
  Reached pre s = All (Used pre) s.out × (s.keep ≡ true → LastStampIn pre)

  Used-snoc : (pre : List Text) (raw : Text) (l : LogLine) → Used pre l → Used (pre ++ raw ∷ []) l
  Used-snoc pre raw l (s, (a, r, b, e, c)) =
      (s, (a, r, b ++ raw ∷ [], ap (λ xs. xs ++ raw ∷ []) e ∙ append_assoc a (r ∷ b) (raw ∷ []), c))

  kept-Used :
      (pre : List Text) (raw : Text) (out : List LogLine)
      → All (Used pre) out
      → All (Used (pre ++ raw ∷ [])) out
  kept-Used pre raw out h = All-map _ _ out (λ l u. Used-snoc pre raw l u) h

  LastStampIn-snoc :
      (pre : List Text) (raw : Text) → NoStamp raw → LastStampIn pre → LastStampIn (pre ++ raw ∷ [])
  LastStampIn-snoc pre raw n (a, r, b, at, rest, e, s, h, w) = (
    a,
    r,
    b ++ raw ∷ [],
    at,
    rest,
    ap (λ xs. xs ++ raw ∷ []) e ∙ append_assoc a (r ∷ b) (raw ∷ []),
    s,
    All-snoc NoStamp b raw h n,
    w,
  )

  if-All :
      (ls : List Text) (b : Bool) (xs : List LogLine) (x : LogLine)
      → All (Used ls) xs
      → (b ≡ true → Used ls x)
      → All (Used ls) (if b then xs ++ x ∷ [] else xs)
  if-All ls true xs x h u = All-snoc (Used ls) xs x h (u refl)
  if-All ls false xs x h u = h

  line_with-Reached :
      (pre : List Text) (raw : Text) (o : Option (Time × Text)) (s : FileLines)
      → is_empty (text_of raw) ≡ false
      → stamp_of (text_of raw) ≡ o
      → Reached pre s
      → Reached (pre ++ raw ∷ []) (line_with stamp_of cfg source from (text_of raw) o s)
  unfolding line_with stamped unstamped
  line_with-Reached pre raw none s e o (h, k) = (
    if-All (pre ++ raw ∷ []) s.keep s.out _ (kept-Used pre raw s.out h)
        (λ t. (refl, (pre, raw, [], refl, inr (e, o, refl, refl, k t)))),
    λ t. LastStampIn-snoc pre raw (inr o) (k t),
  )
  line_with-Reached pre raw (some (at, rest)) s e o (h, k) = (
    if-All (pre ++ raw ∷ []) (in_window from at) s.out _ (kept-Used pre raw s.out h)
        (λ t. (refl, (pre, raw, [], refl, inl ((e, o), in_window-InWindow from at t)))),
    λ t. (pre, raw, [], at, rest, refl, (e, o), tt, in_window-InWindow from at t),
  )

  one_of-Reached :
      (ls : List Text) (b : Bool) (s t : FileLines)
      → (b ≡ true → Reached ls s)
      → (b ≡ false → Reached ls t)
      → Reached ls (if b then s else t)
  one_of-Reached ls true s t h k = h refl
  one_of-Reached ls false s t h k = k refl

  file_line-Reached :
      (pre : List Text) (raw : Text) (s : FileLines)
      → Reached pre s
      → Reached (pre ++ raw ∷ []) (file_line stamp_of cfg source from (text_of raw) s)
  unfolding file_line
  file_line-Reached pre raw s (h, k) =
      one_of-Reached (pre ++ raw ∷ []) (is_empty (text_of raw)) s _
        (λ e. (kept-Used pre raw s.out h, (λ t. LastStampIn-snoc pre raw (inl e) (k t))))
        (λ e. line_with-Reached pre raw (stamp_of (text_of raw)) s e refl (h, k))

  file_lines-Reached :
      (ls pre : List Text) (s : FileLines)
      → Reached pre s
      → Reached (pre ++ ls) (file_lines stamp_of cfg source from ls s)
  unfolding file_lines
  file_lines-Reached [] pre s h = subst (λ xs. Reached xs s) (sym (append-nil pre)) h
  file_lines-Reached (raw ∷ ls) pre s h =
      subst (λ xs. Reached xs (file_lines stamp_of cfg source from (raw ∷ ls) s))
        (append_assoc pre (raw ∷ []) ls)
        (file_lines-Reached ls (pre ++ raw ∷ []) _ (file_line-Reached pre raw s h))

  judge_lines-Used :
      (ls : List Text) (mtime : Time) (truncated : Bool) (s : FileLines)
      → All (Used ls) s.out
      → All (Used ls) (judge_lines mtime from truncated s).0
  unfolding judge_lines
  judge_lines-Used ls mtime truncated s h = elim (Bool-cases (is_zero s.newest)) [
    | inl e ↦ rw (e, All) tt
    | inr e ↦ elim (Bool-cases (is_off (sub_time s.newest mtime))) [
      | inl f ↦ rw (e, f, All) tt
      | inr f ↦ rw (e, f) h
    ]
  ]

  wanted-Used :
      (ls : List Text) (mtime : Time) (truncated : Bool)
      → All
          (Used ls)
          (judge_lines mtime from truncated (file_lines stamp_of cfg source from ls no_lines)).0
  wanted-Used ls mtime truncated =
      judge_lines-Used ls mtime truncated _ (file_lines-Reached ls [] no_lines (tt, (λ t. cc))).0

  -- The text that is read of a file: all of it or, of a file that is longer than what is read of its end,
  -- what is behind the first newline, if there is one.
  abbrev pub ReadOf : ServerLogFile → Text → Type 0
  ReadOf f body =
      ((f.size ≤ℤ server_log_tail_bytes) × (body ≡ f.body))
      ⊎ ((server_log_tail_bytes <ℤ f.size)
          × (((first : Text) × (cut b'\n' f.body ≡ some (first, body)))
              ⊎ ((cut b'\n' f.body ≡ none) × (body ≡ f.body))))

  cut_cases :
      (body : Text) (o : Option (Text × Text))
      → ((first : Text) × (o ≡ some (first, elim o [ none ↦ body | some (_, rest) ↦ rest ])))
        ⊎ ((o ≡ none) × ((elim o [ none ↦ body | some (_, rest) ↦ rest ]) ≡ body))
  cut_cases body none = inr (refl, refl)
  cut_cases body (some (first, rest)) = inl (first, refl)

  behind_first-cut :
      (body : Text)
      → ((first : Text) × (cut b'\n' body ≡ some (first, behind_first body)))
        ⊎ ((cut b'\n' body ≡ none) × (behind_first body ≡ body))
  unfolding behind_first
  behind_first-cut body = cut_cases body (cut b'\n' body)

  -- Each line that is used of a file has the file as its source and comes from one of the file's lines:
  -- from a line with a stamp in the window, or from a line without a stamp, where the last line with a
  -- stamp before it is one in the window.
  pub lines_of-Used :
      (f : ServerLogFile)
      → (body : Text) × ReadOf f body
        × All (Used (split b'\n' body)) (lines_of stamp_of cfg source from f).0
  unfolding lines_of
  lines_of-Used f = elim (Bool-cases (ltb_ℤ server_log_tail_bytes f.size)) [
    | inl t ↦ (
      behind_first f.body,
      inr (ground arith, behind_first-cut f.body),
      rw t (wanted-Used (split b'\n' (behind_first f.body)) f.mtime true),
    )
    | inr t ↦
        (f.body, inl (ground arith, refl), rw t (wanted-Used (split b'\n' f.body) f.mtime false))
  ]
