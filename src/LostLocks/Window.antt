-- ===== src/LostLocks/Window.antt =====
-- pkg/framework/lostlocks.go: the window between two reads, by counts.
use nfs_verification.LostLocks.{
  LostLocks, without_stamp, parse_lost_locks, report_of, report, find_match, strip_stamp, Counts,
  increment, decrement, tally, fresh, new_lost_locks,
}
use nfs_verification.Prelude.{
  ℕ, zero, suc, ◌+◌, ◌-◌, ◌≡◌, refl, sym, ap, ◌∙◌, Bool, true, false, ◌&&◌, List, [], ◌∷◌, Option,
  none, some, if◌then◌else◌, Bool-cases, Option-cases, inl, inr, arith, count_if, ◌⊎◌, ℤ, ◌≤◌,
}
use nfs_verification.Text.Equality.{eq_text_iff, eq_text_refl}
use nfs_verification.Text.Number.{parse_int}
use nfs_verification.Text.Trim.{trim_space_idem}
use nfs_verification.Text.{Text, eq_text, is_empty, trim_space, split}

-- A line that is a lost-locks report.
abbrev pub is_report : Text → Bool
is_report line = elim (parse_lost_locks line) [ none ↦ false | some _ ↦ true ]

-- How many reports among the lines say `k`, stamps aside.
abbrev pub reports_saying : Text → List Text → ℕ
reports_saying k = count_if (λ line. is_report line && eq_text (without_stamp line) k)

-- How many of the reports returned say `k`.
abbrev pub returned_saying : Text → List LostLocks → ℕ
returned_saying k = count_if (λ ll. eq_text (without_stamp ll.line) k)

module _ (k line : Text) (ls : List Text) where
  reports_saying-none :
      parse_lost_locks line ≡ none → reports_saying k (line ∷ ls) ≡ reports_saying k ls
  reports_saying-none n = ground arith

  reports_saying-some :
      {ll : LostLocks}
      → parse_lost_locks line ≡ some ll
      → reports_saying k (line ∷ ls)
        ≡ (if eq_text (without_stamp line) k then 1 else 0) + reports_saying k ls
  reports_saying-some e = ground arith

module _ (line : Text) (ls : List Text) (seen : Counts) where
  tally-none : parse_lost_locks line ≡ none → tally (line ∷ ls) seen ≡ tally ls seen
  unfolding tally
  tally-none n = rw (n, tally)

  tally-some :
      {ll : LostLocks}
      → parse_lost_locks line ≡ some ll
      → tally (line ∷ ls) seen ≡ tally ls (increment (without_stamp line) seen)
  unfolding tally
  tally-some e = rw (e, tally)

  fresh-none : parse_lost_locks line ≡ none → fresh seen (line ∷ ls) ≡ fresh seen ls
  unfolding fresh
  fresh-none n = rw (n, fresh)

  fresh-new :
      {ll : LostLocks}
      → parse_lost_locks line ≡ some ll
      → seen (without_stamp line) ≡ 0
      → fresh seen (line ∷ ls) ≡ ll ∷ fresh seen ls
  unfolding fresh
  fresh-new e z = rw (e, fresh) (rw z)

  fresh-old :
      {ll : LostLocks} (m : ℕ)
      → parse_lost_locks line ≡ some ll
      → seen (without_stamp line) ≡ suc m
      → fresh seen (line ∷ ls) ≡ fresh (decrement (without_stamp line) seen) ls
  unfolding fresh
  fresh-old m e z = rw (e, fresh) (rw z)

increment_lem :
    (a k : Text) (seen : Counts) → increment a seen k ≡ (if eq_text a k then 1 else 0) + seen k
unfolding increment
increment_lem a k seen = ground arith

decrement_lem :
    (a k : Text) (seen : Counts) → decrement a seen k ≡ seen k - (if eq_text a k then 1 else 0)
unfolding decrement
decrement_lem a k seen = ground arith

tally-reports_saying :
    (k : Text) (ls : List Text) (seen : Counts) → tally ls seen k ≡ reports_saying k ls + seen k
tally-reports_saying k [] seen = unfold tally in omega arith
tally-reports_saying k (line ∷ ls) seen = elim (Option-cases (parse_lost_locks line)) [
  | inl n ↦ omega (
    arith,
    tally-reports_saying k ls seen,
    reports_saying-none k line ls n,
    ap (λ f. f k) (tally-none line ls seen n),
  )
  | inr (ll, e) ↦
      let step = increment (without_stamp line) seen in
      ap (λ f. f k) (tally-some line ls seen e)
      ∙ tally-reports_saying k ls step
      ∙ omega (arith, reports_saying-some k line ls e, increment_lem (without_stamp line) k seen)
]

report_of-line :
    (line : Text) (m : Option (Text × Text)) {ll : LostLocks}
    → report_of line m ≡ some ll
    → ll.line ≡ line
unfolding report_of
report_of-line line none h = cc
report_of-line line (some (name, digits)) {ll} h = read (parse_int digits) h
  where
    read : (n : Option ℤ) → report line name n ≡ some ll → ll.line ≡ line
    read none e = cc
    read (some n) e = cc

-- The line of a report says what the line that was read says, stamps aside.
without_stamp-parse :
    (line : Text) {ll : LostLocks}
    → parse_lost_locks line ≡ some ll
    → without_stamp ll.line ≡ without_stamp line
unfolding parse_lost_locks without_stamp
without_stamp-parse line h =
    ap without_stamp
      (report_of-line (trim_space line) (find_match (without_stamp (trim_space line))) h)
    ∙ ap strip_stamp (trim_space_idem line)

ℕ-cases : (n : ℕ) → (n ≡ zero) ⊎ ((m : ℕ) × (n ≡ suc m))
ℕ-cases zero = inl refl
ℕ-cases (suc m) = inr (m, refl)

one_if : {b : Bool} → b ≡ true → ◌≡◌ {A = ℕ} (if b then 1 else 0) 1
one_if t = rw t

zero_if : {b : Bool} → b ≡ false → ◌≡◌ {A = ℕ} (if b then 1 else 0) 0
zero_if t = rw t

returned_new :
    (k line : Text) (ls : List Text) (seen : Counts) {ll : LostLocks}
    → parse_lost_locks line ≡ some ll
    → seen (without_stamp line) ≡ 0
    → returned_saying k (fresh seen ls) ≡ reports_saying k ls - seen k
    → returned_saying k (ll ∷ fresh seen ls) ≡ reports_saying k (line ∷ ls) - seen k
returned_new k line ls seen e z ih =
    rw (without_stamp-parse line e) (elim (Bool-cases (eq_text (without_stamp line) k)) [
      | inl t ↦ rw t (
          omega (
            arith,
            ih,
            rw t at (reports_saying-some k line ls e),
            sym (ap seen ((eq_text_iff (without_stamp line) k).0 t)) ∙ z,
          ))
      | inr t ↦ rw t (omega (arith, ih, rw t at (reports_saying-some k line ls e)))
    ])

returned_old :
    (k line : Text) (ls : List Text) (seen : Counts) (m : ℕ) {ll : LostLocks} {r : ℕ}
    → parse_lost_locks line ≡ some ll
    → seen (without_stamp line) ≡ suc m
    → r ≡ reports_saying k ls - decrement (without_stamp line) seen k
    → r ≡ reports_saying k (line ∷ ls) - seen k
returned_old k line ls seen m e z ih =
    let key = without_stamp line in
    elim (Bool-cases (eq_text key k)) [
      | inl t ↦ omega (
        arith,
        ih,
        decrement_lem key k seen,
        reports_saying-some k line ls e,
        one_if t,
        sym (ap seen ((eq_text_iff key k).0 t)) ∙ z,
      )
      | inr t ↦
          omega (arith, ih, decrement_lem key k seen, reports_saying-some k line ls e, zero_if t)
    ]

fresh-returned_saying :
    (k : Text) (ls : List Text) (seen : Counts)
    → returned_saying k (fresh seen ls) ≡ reports_saying k ls - seen k
fresh-returned_saying k [] seen = unfold fresh in omega arith
fresh-returned_saying k (line ∷ ls) seen = elim (Option-cases (parse_lost_locks line)) [
  | inl n ↦
      ap (returned_saying k) (fresh-none line ls seen n)
      ∙ fresh-returned_saying k ls seen
      ∙ ap (λ r. r - seen k) (sym (reports_saying-none k line ls n))
  | inr (ll, e) ↦ elim (ℕ-cases (seen (without_stamp line))) [
    | inl z ↦
        ap (returned_saying k) (fresh-new line ls seen e z)
        ∙ returned_new k line ls seen e z (fresh-returned_saying k ls seen)
    | inr (m, z) ↦
        ap (returned_saying k) (fresh-old line ls seen m e z)
        ∙ returned_old k line ls seen m e z
            (fresh-returned_saying k ls (decrement (without_stamp line) seen))
  ]
]

-- Of a baseline that is not blank: for every wording, stamps aside, as many reports are returned as
-- `after` has more of them than `before`.
pub new_lost_locks-counts :
    (before after k : Text)
    → is_empty (trim_space before) ≡ false
    → returned_saying k (new_lost_locks before after)
      ≡ reports_saying k (split b'\n' after) - reports_saying k (split b'\n' before)
unfolding new_lost_locks
new_lost_locks-counts before after k h = rw h (
    omega (
      arith,
      fresh-returned_saying k (split b'\n' after) (tally (split b'\n' before) (λ _. 0)),
      tally-reports_saying k (split b'\n' before) (λ _. 0),
    ))

none_returned : (lls : List LostLocks) → ((k : Text) → returned_saying k lls ≡ 0) → lls ≡ []
none_returned [] h = refl
none_returned (ll ∷ lls) h =
    absurd (ground (arith, h (without_stamp ll.line), eq_text_refl (without_stamp ll.line)))

-- Where `after` has no wording more often than `before`, as when nothing was reported in between or old
-- reports were rendered with another stamp, and where `before` is blank, nothing is returned.
pub new_lost_locks-stale :
    (before after : Text)
    → (is_empty (trim_space before) ≡ true)
      ⊎ ((k : Text) → reports_saying k (split b'\n' after) ≤ reports_saying k (split b'\n' before))
    → new_lost_locks before after ≡ []
new_lost_locks-stale before after (inl blank) = unfold new_lost_locks in rw blank refl
new_lost_locks-stale before after (inr h) = elim (Bool-cases (is_empty (trim_space before))) [
  | inl blank ↦ unfold new_lost_locks in rw blank refl
  | inr b ↦
      none_returned (new_lost_locks before after)
        (λ k. omega (arith, new_lost_locks-counts before after k b, h k))
]
