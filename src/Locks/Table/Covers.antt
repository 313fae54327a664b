-- ===== src/Locks/Table/Covers.antt =====
-- pkg/framework/lockmount.go: which lines of the lock table cover a range, and how the table is read.
use nfs_verification.Locks.Table.{ProcLock, FileId, covers, mode_matches, wrap_int64}
use nfs_verification.LockTool.{LockRange}
use nfs_verification.Prelude.{
  ◌≡◌, ◌≢◌, ◌↔◌, ◌⊎◌, inl, inr, refl, sym, ◌∙◌, Bool, true, false, not, ◌&&◌, ◌||◌, [], ◌∷◌,
  if◌then◌else◌, arith, ℤ, pos, ◌+ℤ◌, ◌-ℤ◌, eq_ℤ, eq_ℤ_iff, ◌≤ℤ◌, int64_max, int64_min, +ℤ_parts,
  -ℤ_parts,
}
use nfs_verification.Text.{Text, codes, eq_text, is_empty}
use nfs_verification.Text.Equality.{eq_text_iff}

-- The bytes of a range that does not run past the last offset, as the kernel prints them.
abbrev pub SameBytes : ProcLock → LockRange → Type 0
SameBytes l r =
    (l.start ≡ r.start)
    × (((r.len ≡ pos 0) × (l.ends_at_eof ≡ true))
        ⊎ ((r.len ≢ pos 0) × (l.ends_at_eof ≡ false) × (l.end +ℤ pos 1 ≡ r.start +ℤ r.len)))

wrap_int64-id : (a : ℤ) → int64_min ≤ℤ a → a ≤ℤ int64_max → wrap_int64 a ≡ a
unfolding wrap_int64
wrap_int64-id a lo hi = ground arith

one_less : (a b : ℤ) → (eq_ℤ a (b -ℤ pos 1) ≡ true) ↔ (a +ℤ pos 1 ≡ b)
unfolding ◌+ℤ◌ ◌-ℤ◌
one_less a b = ground arith

-- `r.Start+r.Len-1` does not wrap around where the range ends at an offset.
last_byte :
    (start len end : ℤ)
    → pos 0 ≤ℤ start
    → pos 0 ≤ℤ len
    → (start +ℤ len) ≤ℤ int64_max
    → (eq_ℤ end (wrap_int64 (wrap_int64 (start +ℤ len) -ℤ pos 1)) ≡ true)
      ↔ (end +ℤ pos 1 ≡ start +ℤ len)
last_byte start len end s l h =
    let sum : wrap_int64 (start +ℤ len) ≡ start +ℤ len =
      wrap_int64-id (start +ℤ len) (omega (arith, +ℤ_parts start len)) h in
    let last : wrap_int64 ((start +ℤ len) -ℤ pos 1) ≡ (start +ℤ len) -ℤ pos 1 =
      wrap_int64-id ((start +ℤ len) -ℤ pos 1)
        (omega (arith, +ℤ_parts start len, -ℤ_parts (start +ℤ len) (pos 1)))
        (omega (arith, +ℤ_parts start len, -ℤ_parts (start +ℤ len) (pos 1))) in
    rw (sum, last) (one_less end (start +ℤ len))

abbrev pub HasMode : Text → Text → Type 0
HasMode held mode = mode_matches held mode ≡ true

empty_iff : (t : Text) → (is_empty t ≡ true) ↔ (t ≡ [])
empty_iff [] = ((λ e. refl), (λ e. refl))
empty_iff (c ∷ t) = ((λ e. cc), (λ e. cc))

false_true : ◌≢◌ {A = Bool} false true
false_true e = cc

not_true : (b : Bool) → b ≢ true → b ≡ false
not_true true n = absurd (n refl)
not_true false n = refl

-- The tests of `Covers`, by what each of them returned.
tests_iff :
    (kind waiting inode unknown device mode start whole eof end : Bool)
    → ((if not kind || waiting || not inode
          then false
          else if not unknown && not device
          then false
          else if not mode
          then false
          else if not start
          then false
          else if whole
          then eof
          else not eof && end)
        ≡ true)
      ↔ ((kind ≡ true)
          × (waiting ≡ false)
          × (inode ≡ true)
          × ((unknown ≡ true) ⊎ (device ≡ true))
          × (mode ≡ true)
          × (start ≡ true)
          × (((whole ≡ true) × (eof ≡ true)) ⊎ ((whole ≡ false) × (eof ≡ false) × (end ≡ true))))
tests_iff kind waiting inode unknown device mode start whole eof end = ground arith

-- A line covers a range of a file exactly where it is a lock that a process holds, taken with `fcntl`,
-- of that file (where its device is known, on that device), of that mode and over those bytes.
pub covers_iff :
    (l : ProcLock) (id : FileId) (r : LockRange)
    → pos 0 ≤ℤ r.start
    → pos 0 ≤ℤ r.len
    → (r.start +ℤ r.len) ≤ℤ int64_max
    → (covers l id r ≡ true) ↔ (
        (l.kind ≡ codes "POSIX")
        × (l.waiting ≡ false)
        × (l.inode ≡ id.inode)
        × ((id.device ≡ []) ⊎ (l.device ≡ id.device))
        × HasMode l.mode r.mode
        × SameBytes l r)
unfolding covers
covers_iff l id r s n h =
    let kind = eq_text_iff l.kind (codes "POSIX") in
    let inode = eq_ℤ_iff l.inode id.inode in
    let device = eq_text_iff l.device id.device in
    let unknown = empty_iff id.device in
    let start = eq_ℤ_iff l.start r.start in
    let end = last_byte r.start r.len l.end s n h in
    let whole = eq_ℤ_iff r.len (pos 0) in
    let tests =
      tests_iff (eq_text l.kind (codes "POSIX")) l.waiting (eq_ℤ l.inode id.inode)
        (is_empty id.device) (eq_text l.device id.device) (mode_matches l.mode r.mode)
        (eq_ℤ l.start r.start) (eq_ℤ r.len (pos 0)) l.ends_at_eof
        (eq_ℤ l.end (wrap_int64 (wrap_int64 (r.start +ℤ r.len) -ℤ pos 1))) in
    (
      (λ e.
          let (k, w, i, d, m, b, t) = tests.0 e in
          (
            kind.0 k,
            w,
            inode.0 i,
            elim d [ inl u ↦ inl (unknown.0 u) | inr v ↦ inr (device.0 v) ],
            m,
            (
              start.0 b,
              elim t [
                | inl (z, f) ↦ inl (whole.0 z, f)
                | inr (z, f, g) ↦ inr ((λ y. false_true (sym z ∙ whole.1 y)), f, end.0 g)
              ],
            ),
          )),
      (λ (k, w, i, d, m, (b, t)). tests.1 (
        kind.1 k,
        w,
        inode.1 i,
        elim d [ inl u ↦ inl (unknown.1 u) | inr v ↦ inr (device.1 v) ],
        m,
        start.1 b,
        elim t [
          | inl (z, f) ↦ inl (whole.1 z, f)
          | inr (z, f, g) ↦ inr (not_true _ (λ y. z (whole.0 y)), f, end.1 g)
        ],
      )),
    )
