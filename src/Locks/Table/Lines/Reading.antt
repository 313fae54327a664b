-- ===== src/Locks/Table/Lines/Reading.antt =====
-- pkg/framework/lockmount.go: the lines of a lock table, with their index and arrow, read one after the other.
use mathlib.Core.List.{append-nil}
use nfs_verification.Text.Found.{found_in, found_in-map}
use nfs_verification.Locks.Table.{
  ProcLock, lock_fields, behind_index, lock_of, lock_line, parse_proc_locks,
}
use nfs_verification.Prelude.{
  ℕ, zero, suc, ◌≡◌, refl, sym, ap, ◌∙◌, Bool, true, false, ◌||◌, ◌==◌, List, [], ◌∷◌, ◌++◌, map,
  some, All, All-map,
}
use nfs_verification.Text.{Text, codes, eq_text, is_space, fields, has_suffix, split_by}
use nfs_verification.Text.Joins.{spaced-Without}
use nfs_verification.Text.Number.{show_ℕ, show_ℕ-AllDigits, show_ℕ-ne-nil}
use nfs_verification.Text.Words.{
  IsWord, Without, Without-append, AllDigits-Without, itoa-IsWord, unlines, split-unlines, one_line,
}
use nfs_verification.Locks.Table.Lines.{
  lock_words, gap, column, behind, arrow, kernel_line, IsPrinted, lock_fields-words, fields_word,
  IsWord-append, show_file-IsWord, show_end-IsWord, fields-behind,
}

index-IsWord : (n : ℕ) → IsWord (show_ℕ n ++ codes ":")
unfolding is_space
index-IsWord n =
    IsWord-append (show_ℕ n) (codes ":")
      (show_ℕ-ne-nil n, AllDigits-Without (show_ℕ n) (show_ℕ-AllDigits n)) (refl, tt)

or_true : (b : Bool) → (b || true) ≡ true
or_true true = refl
or_true false = refl

has_suffix-append : (s : Text) → has_suffix (s ++ codes ":") (codes ":") ≡ true
unfolding has_suffix
has_suffix-append [] = unfold eq_text in refl
has_suffix-append (c ∷ s) = rw (has_suffix-append s) (or_true _)

arrow-IsWord : IsWord (codes "->")
unfolding is_space
arrow-IsWord = ((λ e. cc), (refl, (refl, tt)))

behind_arrow : (fs : List Text) → behind_index (codes "->" ∷ fs) ≡ lock_fields true fs
unfolding behind_index eq_text
behind_arrow fs = refl

behind_kind :
    (l : ProcLock) → IsPrinted l → behind_index (lock_words l) ≡ lock_fields false (lock_words l)
unfolding behind_index lock_words
behind_kind l h = rw h.not_arrow

behind_index-waiting :
    (waiting : Bool) (l : ProcLock)
    → IsPrinted l
    → l.waiting ≡ waiting
    → behind_index (fields (arrow waiting ++ behind l)) ≡ some l
unfolding behind_index arrow
behind_index-waiting true l h e =
    ap behind_index
      (fields_word (codes "->") (behind l) arrow-IsWord ∙ ap (◌∷◌ (codes "->")) (fields-behind l h))
    ∙ behind_arrow (lock_words l)
    ∙ ap (λ w. lock_fields w (lock_words l)) (sym e)
    ∙ lock_fields-words l h
behind_index-waiting false l h e =
    ap behind_index (fields-behind l h)
    ∙ behind_kind l h
    ∙ (ap (λ w. lock_fields w (lock_words l)) (sym e) ∙ lock_fields-words l h)

lock_line-kernel_line : (p : ℕ × ProcLock) → IsPrinted p.1 → lock_line (kernel_line p) ≡ some p.1
unfolding lock_line kernel_line lock_of
lock_line-kernel_line (index, l) h =
    ap lock_of (fields_word (show_ℕ index ++ codes ":") _ (index-IsWord index))
    ∙ rw (has_suffix-append (show_ℕ index)) (behind_index-waiting l.waiting l h refl)

gap-Without : (n : ℕ) (w : Text) → Without (λ d. d == b'\n') (gap n w)
unfolding gap
gap-Without zero w = tt
gap-Without (suc n) [] = (refl, gap-Without n [])
gap-Without (suc n) (c ∷ w) = gap-Without n w

column-Without :
    (n : ℕ) (w s : Text)
    → IsWord w
    → Without (λ d. d == b'\n') s
    → Without (λ d. d == b'\n') (column n w s)
unfolding column
column-Without n w s h k =
    Without-append _ w _ (one_line w h.1) (refl, Without-append _ (gap n w) s (gap-Without n w) k)

behind-Without : (l : ProcLock) → IsPrinted l → Without (λ d. d == b'\n') (behind l)
unfolding behind
behind-Without l h = column-Without 6 l.kind _ h.kind (
    column-Without 9 l.enforcement _ h.enforcement (
      column-Without 5 l.mode _ h.mode (
        spaced-Without _ (
          itoa-IsWord l.pid,
          (show_file-IsWord l h, (itoa-IsWord l.start, (show_end-IsWord l.ends_at_eof l.end, tt))),
        ))))

arrow-Without : (w : Bool) → Without (λ d. d == b'\n') (arrow w)
unfolding arrow
arrow-Without true = (refl, (refl, (refl, tt)))
arrow-Without false = tt

one_lines :
    (ps : List (ℕ × ProcLock))
    → All (λ p. IsPrinted p.1) ps
    → All (Without (λ d. d == b'\n')) (map kernel_line ps)
unfolding kernel_line
one_lines [] h = tt
one_lines ((index, l) ∷ ps) h = (
  Without-append _ (show_ℕ index ++ codes ":") _ (one_line _ (index-IsWord index).1)
      (refl, Without-append _ (arrow l.waiting) _ (arrow-Without l.waiting) (behind-Without l h.0)),
  one_lines ps h.1,
)

All-read :
    (ps : List (ℕ × ProcLock))
    → All (λ p. IsPrinted p.1) ps
    → All (λ p. lock_line (kernel_line p) ≡ some p.1) ps
All-read ps h = All-map _ _ ps (λ p i. lock_line-kernel_line p i) h

-- Lines as /proc/locks has them, with an index, an arrow before a waiter and the kind, the enforcement and
-- the mode in columns of 6, 9 and 5 characters, are read back lock for lock, in order. The kind, the
-- enforcement, the mode and the device are words, the kind is not the arrow, the pid, the inode and the
-- bytes are within int64, and the last byte is 0 where `EOF` is printed.
pub parse_proc_locks-unlines :
    (ps : List (ℕ × ProcLock))
    → All (λ p. IsPrinted p.1) ps
    → parse_proc_locks (unlines (map kernel_line ps)) ≡ map (λ p. p.1) ps
unfolding parse_proc_locks
parse_proc_locks-unlines ps h =
    ap (found_in lock_line) (split-unlines (map kernel_line ps) (one_lines ps h))
    ∙ found_in-map lock_line kernel_line (λ p. p.1) ps ([] ∷ []) (All-read ps h)
    ∙ unfold found_in lock_line fields split_by lock_of in append-nil _
