-- ===== src/Load/Stalls.antt =====
-- pkg/framework/load.go: `StallAfter` against the silences in the list of acknowledged writes.
use mathlib.Core.Path.{subst}
use nfs_verification.Clock.{Time, Duration, sub_time, sub_time-gt}
use nfs_verification.Load.{
  LoadRecord, LoadReport, acknowledged, Stall, clamp, stall_from, stall_after,
}
use nfs_verification.Prelude.{
  ◌≡◌, refl, ap, true, false, List, [], ◌∷◌, ◌++◌, Option, none, some, Bool-cases, inl, inr, arith,
  pos, ◌≤ℤ◌, ◌<ℤ◌, ◌+ℤ◌, +ℤ_parts, keep_if, ltb_ℤ, int64_min, int64_max,
}

-- The part after `t` of the silence between two writes is at most `floor`.
abbrev pub IsShort : Time → Duration → LoadRecord → LoadRecord → Type 0
IsShort t floor a b = b.at ≤ℤ floor +ℤ clamp t a.at

-- ... is longer.
abbrev pub IsLong : Time → Duration → LoadRecord → LoadRecord → Type 0
IsLong t floor a b = floor +ℤ clamp t a.at <ℤ b.at

abbrev pub ShortFrom : Time → Duration → LoadRecord → List LoadRecord → Type 0
ShortFrom t floor a [] = Unit
ShortFrom t floor a (b ∷ rs) = IsShort t floor a b × ShortFrom t floor b rs

-- Every silence between two writes that follow one another is short.
abbrev pub AllShort : Time → Duration → List LoadRecord → Type 0
AllShort t floor [] = Unit
AllShort t floor (a ∷ rs) = ShortFrom t floor a rs

-- `none`: every silence is short. `some s`: the writes split at `s`, whose silence is long, and every
-- silence up to it is short.
abbrev pub IsFirstStall : Time → Duration → List LoadRecord → Option Stall → Type 0
IsFirstStall t floor ws none = AllShort t floor ws
IsFirstStall t floor ws (some s) =
    (pre : List LoadRecord) × (post : List LoadRecord) × (ws ≡ pre ++ s.last ∷ s.resumed ∷ post)
    × AllShort t floor (pre ++ s.last ∷ [])
    × IsLong t floor s.last s.resumed

abbrev head_or : LoadRecord → List LoadRecord → LoadRecord
head_or d [] = d
head_or d (r ∷ rs) = r

abbrev pub IsFloor : Duration → Type 0
IsFloor floor = (int64_min ≤ℤ floor) × (floor <ℤ int64_max)

module _ (t : Time) (floor : Duration) (bounds : IsFloor floor) where
  long : (a b : LoadRecord) → ltb_ℤ floor (sub_time b.at (clamp t a.at)) ≡ true → IsLong t floor a b
  long a b h = ground (arith, sub_time-gt floor b.at (clamp t a.at))

  short :
      (a b : LoadRecord) → ltb_ℤ floor (sub_time b.at (clamp t a.at)) ≡ false → IsShort t floor a b
  short a b h = ground (arith, sub_time-gt floor b.at (clamp t a.at))

  join_short :
      (a b : LoadRecord) (ws : List LoadRecord) (l r : LoadRecord) (pre post : List LoadRecord)
      → b ∷ ws ≡ pre ++ l ∷ r ∷ post
      → IsShort t floor a b
      → AllShort t floor (pre ++ l ∷ [])
      → ShortFrom t floor a (pre ++ l ∷ [])
  join_short a b ws l r [] post e h k = (subst (IsShort t floor a) (ap (head_or b) e) h, tt)
  join_short a b ws l r (p ∷ pre) post e h k = (subst (IsShort t floor a) (ap (head_or b) e) h, k)

  extend :
      (a b : LoadRecord) (ws : List LoadRecord) (s : Option Stall)
      → IsShort t floor a b
      → IsFirstStall t floor (b ∷ ws) s
      → IsFirstStall t floor (a ∷ b ∷ ws) s
  extend a b ws none h k = (h, k)
  extend a b ws (some s) h (pre, post, e, shorts, l) =
      (a ∷ pre, post, ap (◌∷◌ a) e, join_short a b ws s.last s.resumed pre post e h shorts, l)

  -- The loop at a previous write `a`.
  from_write :
      (rs : List LoadRecord) (a : LoadRecord)
      → IsFirstStall t floor (a ∷ keep_if (λ r. r.is_ok) rs) (stall_from t floor (some a) rs)
  unfolding stall_from
  from_write [] a = tt
  from_write (r ∷ rs) a = elim (Bool-cases r.is_ok) [
    | inr e ↦ simp e (from_write rs a)
    | inl e ↦ simp e (elim (Bool-cases (ltb_ℤ floor (sub_time r.at (clamp t a.at)))) [
      | inl w ↦ rw w ([], keep_if (λ q. q.is_ok) rs, refl, tt, long a r w)
      | inr l ↦ rw l (extend a r _ _ (short a r l) (from_write rs r))
    ])
  ]

  from_start :
      (rs : List LoadRecord)
      → IsFirstStall t floor (keep_if (λ r. r.is_ok) rs) (stall_from t floor none rs)
  unfolding stall_from
  from_start [] = tt
  from_start (r ∷ rs) = elim (Bool-cases r.is_ok) [
    | inr e ↦ simp e (from_start rs)
    | inl e ↦ simp e (from_write rs r)
  ]

-- For a floor short of the longest duration, `StallAfter` returns the first silence between two
-- acknowledged writes, one after the other with only failed attempts between them, whose part after
-- `t` is longer than the floor, and nothing exactly where no silence is.
pub stall_after-IsFirstStall :
    (r : LoadReport) (t : Time) (floor : Duration)
    → IsFloor floor
    → IsFirstStall t floor (acknowledged r) (stall_after r t floor)
unfolding stall_after
stall_after-IsFirstStall r t floor bounds = from_start t floor bounds r.records

IsLong-ends_late :
    (t : Time) (floor : Duration) (a b : LoadRecord)
    → pos 0 ≤ℤ floor
    → floor <ℤ int64_max
    → IsLong t floor a b
    → (floor +ℤ t <ℤ b.at) × (floor <ℤ sub_time b.at a.at)
IsLong-ends_late t floor a b lo hi l =
    ground (arith, +ℤ_parts floor t, +ℤ_parts floor a.at, sub_time-gt floor b.at a.at)

-- A stall that `StallAfter` returns for a floor that is not negative ends after `t`, by more than the
-- floor, and lasts longer than the floor.
pub stall_after-ends_late :
    (r : LoadReport) (t : Time) (floor : Duration) {s : Stall}
    → pos 0 ≤ℤ floor
    → floor <ℤ int64_max
    → stall_after r t floor ≡ some s
    → (floor +ℤ t <ℤ s.resumed.at) × (floor <ℤ sub_time s.resumed.at s.last.at)
stall_after-ends_late r t floor {s = s} lo hi e =
    let first =
      subst (IsFirstStall t floor (acknowledged r)) e
        (stall_after-IsFirstStall r t floor (omega arith, hi)) in
    IsLong-ends_late t floor s.last s.resumed lo hi first.4
