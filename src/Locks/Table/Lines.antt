-- ===== src/Locks/Table/Lines.antt =====
-- pkg/framework/lockmount.go: the lines of /proc/locks, printed and read.
pub mod Reading
use mathlib.Core.List.{append-nil}
use nfs_verification.Text.Found.{found_in, found_in-map}
use nfs_verification.Locks.Table.{
  ProcLock, cut_around_last, end_of, file_of, lock_with, lock_fields, behind_index, lock_of,
  lock_line, parse_proc_locks,
}
use nfs_verification.Prelude.{
  ℕ, zero, suc, ◌≡◌, ◌⊎◌, inl, inr, refl, sym, ap, ◌∙◌, Bool, true, false, ◌||◌, ◌==◌, List, [],
  ◌∷◌, ◌++◌, map, none, some, arith, ℤ, pos, negsuc, ◌≤ℤ◌, int64_max, int64_min, All, All-map,
}
use nfs_verification.Text.{Text, codes, eq_text, is_space, fields, has_suffix, split_by}
use nfs_verification.Text.Joins.{spaced, fields-spaced, spaced-Without}
use nfs_verification.Text.Number.{
  itoa, parse_int-itoa, show_ℕ, AllDigits, show_ℕ-AllDigits, show_ℕ-ne-nil, is_digit,
}
use nfs_verification.Text.Words.{
  IsWord, Without, Without-append, AllDigits-Without, itoa-IsWord, fields_first, unlines,
  split-unlines, one_line,
}

-- The end of a lock as the kernel prints it.
unfoldable pub show_end : Bool → ℤ → Text
show_end true end = codes "EOF"
show_end false end = itoa end

unfoldable pub show_file : ProcLock → Text
show_file l = l.device ++ b':' ∷ itoa l.inode

-- The words of a line behind the index and the arrow.
lock_words : ProcLock → List Text
unfolding show_end show_file
lock_words l =
    l.kind
    ∷ (l.enforcement
        ∷ (l.mode
            ∷ (itoa l.pid ∷ (show_file l ∷ (itoa l.start ∷ (show_end l.ends_at_eof l.end ∷ []))))))

-- The spaces that fill a column of this width behind a word.
unfoldable pub gap : ℕ → Text → Text
gap zero w = []
gap (suc n) [] = b' ' ∷ gap n []
gap (suc n) (c ∷ w) = gap n w

-- A word in a column of this width, a space, and what is behind it.
unfoldable pub column : ℕ → Text → Text → Text
unfolding gap
column n w s = w ++ b' ' ∷ (gap n w ++ s)

-- The kind, the enforcement and the mode stand in columns of 6, 9 and 5 characters, as in
-- `OFDLCK ADVISORY  READ  `, and one space parts the rest.
unfoldable pub behind : ProcLock → Text
unfolding show_end show_file column
behind l = column 6 l.kind (
    column 9 l.enforcement (
      column 5 l.mode (
        spaced
          (itoa l.pid ∷ (show_file l ∷ (itoa l.start ∷ (show_end l.ends_at_eof l.end ∷ [])))))))

-- The arrow before a waiter.
unfoldable pub arrow : Bool → Text
arrow true = codes "-> "
arrow false = []

-- A line of /proc/locks, with its index.
unfoldable pub kernel_line : ℕ × ProcLock → Text
unfolding behind arrow
kernel_line (index, l) = (show_ℕ index ++ codes ":") ++ b' ' ∷ (arrow l.waiting ++ behind l)

abbrev Fits : ℤ → Type 0
Fits n = (int64_min ≤ℤ n) × (n ≤ℤ int64_max)

-- What is asked of a lock that is printed: words, a kind that is not the arrow, numbers within int64, the
-- inode's too, and the last byte 0 where `EOF` is printed.
pub record IsPrinted (l : ProcLock) : Type 0 where
  pub kind : IsWord l.kind
  pub not_arrow : eq_text l.kind (codes "->") ≡ false
  pub enforcement : IsWord l.enforcement
  pub mode : IsWord l.mode
  pub device : IsWord l.device
  pub pid_fits : Fits l.pid
  pub inode_fits : Fits l.inode
  pub start_fits : Fits l.start
  pub end_fits : Fits l.end
  pub end_of_file : (l.ends_at_eof ≡ false) ⊎ (l.end ≡ pos 0)

cut_around_last-Without : (c : ℕ) (w : Text) → Without (λ d. d == c) w → cut_around_last c w ≡ none
unfolding cut_around_last
cut_around_last-Without c [] h = refl
cut_around_last-Without c (d ∷ w) h = rw (cut_around_last-Without c w h.1, h.0) refl

cut_around_last-append :
    (c : ℕ) (s w : Text)
    → (c == c) ≡ true
    → Without (λ d. d == c) w
    → cut_around_last c (s ++ c ∷ w) ≡ some (s, w)
unfolding cut_around_last
cut_around_last-append c [] w e h = rw (cut_around_last-Without c w h, e) refl
cut_around_last-append c (d ∷ s) w e h = rw (cut_around_last-append c s w e h) refl

digits_no_colon : (s : Text) → AllDigits s → Without (λ d. d == b':') s
unfolding is_digit
digits_no_colon [] h = tt
digits_no_colon (c ∷ s) h = (ground (arith, h.0), digits_no_colon s h.1)

itoa_no_colon : (n : ℤ) → Without (λ d. d == b':') (itoa n)
unfolding itoa
itoa_no_colon (pos n) = digits_no_colon (show_ℕ n) (show_ℕ-AllDigits n)
itoa_no_colon (negsuc n) = (refl, digits_no_colon (show_ℕ (suc n)) (show_ℕ-AllDigits (suc n)))

digits_not_eof : (s : Text) → AllDigits s → eq_text s (codes "EOF") ≡ false
unfolding eq_text is_digit
digits_not_eof [] h = refl
digits_not_eof (c ∷ s) h = ground (arith, h.0)

itoa_not_eof : (n : ℤ) → eq_text (itoa n) (codes "EOF") ≡ false
unfolding itoa
itoa_not_eof (pos n) = digits_not_eof (show_ℕ n) (show_ℕ-AllDigits n)
itoa_not_eof (negsuc n) = unfold eq_text in refl

end_of-show_end :
    (eof : Bool) (end : ℤ)
    → (eof ≡ false) ⊎ (end ≡ pos 0)
    → Fits end
    → end_of (show_end eof end) ≡ some (end, eof)
unfolding end_of show_end
end_of-show_end true end z h = elim z [ inl e ↦ cc | inr e ↦ unfold eq_text in rw e refl ]
end_of-show_end false end z h = rw (itoa_not_eof end, parse_int-itoa end h.0 h.1) refl

file_of-show_file :
    (l : ProcLock)
    → IsPrinted l
    → file_of (cut_around_last b':' (show_file l))
      ≡ some (record { device = l.device; inode = l.inode })
unfolding show_file file_of
file_of-show_file l h =
    rw
      (
        cut_around_last-append b':' l.device (itoa l.inode) refl (itoa_no_colon l.inode),
        file_of,
        parse_int-itoa l.inode h.inode_fits.0 h.inode_fits.1,
      )
      refl

lock_fields-words : (l : ProcLock) → IsPrinted l → lock_fields l.waiting (lock_words l) ≡ some l
unfolding lock_fields lock_words lock_with
lock_fields-words l h =
    rw
      (
        parse_int-itoa l.pid h.pid_fits.0 h.pid_fits.1,
        file_of-show_file l h,
        parse_int-itoa l.start h.start_fits.0 h.start_fits.1,
        end_of-show_end l.ends_at_eof l.end h.end_of_file h.end_fits,
        lock_with,
      )
      refl

-- A second space changes no field.
fields_space : (s : Text) → fields (b' ' ∷ s) ≡ fields s
unfolding fields split_by is_space
fields_space s = refl

fields_word : (w s : Text) → IsWord w → fields (w ++ b' ' ∷ s) ≡ w ∷ fields s
unfolding fields is_space
fields_word w s h = fields_first is_space w b' ' s h.0 h.1 refl

IsWord-append : (s w : Text) → IsWord s → Without is_space w → IsWord (s ++ w)
IsWord-append [] w h k = absurd (h.0 refl)
IsWord-append (c ∷ s) w h k = ((λ e. cc), Without-append is_space (c ∷ s) w h.1 k)

show_file-IsWord : (l : ProcLock) → IsPrinted l → IsWord (show_file l)
unfolding show_file is_space
show_file-IsWord l h = IsWord-append l.device _ h.device (refl, (itoa-IsWord l.inode).1)

show_end-IsWord : (eof : Bool) (end : ℤ) → IsWord (show_end eof end)
unfolding show_end is_space
show_end-IsWord true end = ((λ e. cc), (refl, (refl, (refl, tt))))
show_end-IsWord false end = itoa-IsWord end

fields-gap : (n : ℕ) (w s : Text) → fields (gap n w ++ s) ≡ fields s
unfolding gap
fields-gap zero w s = refl
fields-gap (suc n) [] s = fields_space (gap n [] ++ s) ∙ fields-gap n [] s
fields-gap (suc n) (c ∷ w) s = fields-gap n w s

fields-column : (n : ℕ) (w s : Text) → IsWord w → fields (column n w s) ≡ w ∷ fields s
unfolding column
fields-column n w s h = fields_word w (gap n w ++ s) h ∙ ap (◌∷◌ w) (fields-gap n w s)

fields-behind : (l : ProcLock) → IsPrinted l → fields (behind l) ≡ lock_words l
unfolding behind lock_words
fields-behind l h =
    fields-column 6 l.kind _ h.kind
    ∙ ap (◌∷◌ l.kind) (
        fields-column 9 l.enforcement _ h.enforcement
        ∙ ap (◌∷◌ l.enforcement) (
            fields-column 5 l.mode _ h.mode
            ∙ ap (◌∷◌ l.mode) (
                fields-spaced (itoa l.pid) _ (
                  itoa-IsWord l.pid,
                  (
                    show_file-IsWord l h,
                    (itoa-IsWord l.start, (show_end-IsWord l.ends_at_eof l.end, tt)),
                  ),
                ))))
