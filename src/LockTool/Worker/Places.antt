-- ===== src/LockTool/Worker/Places.antt =====
-- cmd/locktool/main.go, `worker`: what holds of the lock and the files at each place of the process.
use nfs_verification.Prelude.{ℕ, take, ◌≡◌, ◌≢◌, refl, Bool, true, false, ◌⊎◌, inl, inr, Bool-cases}
use nfs_verification.Text.{Text, codes}
use nfs_verification.LockTool.Kernel.{Acquired, granted, refused, error}
use nfs_verification.LockTool.Worker.{
  WorkerAt, opening, checking, acquiring, reporting, holding, unlocking, releasing, failing, exited,
  LockWorker, Answers, Written, complete, untouched, torn, write_file, write_state, write_ok,
  exit_with, acquire, work_at, work, LockEvent, step, release, happen,
}

abbrev pub waiting_state : Text
waiting_state = codes "waiting\n"

abbrev pub held_state : Text
held_state = codes "held\n"

abbrev pub released_state : Text
released_state = codes "released\n"

abbrev pub failed_state : Text
failed_state = codes "failed\n"

-- What a file may hold behind a write: what was written, what it held before, or the first characters of
-- what was written.
abbrev pub AsWritten : Text → Text → Text → Type 0
AsWritten old new state = (state ≡ new) ⊎ ((state ≡ old) ⊎ ((n : ℕ) × (state ≡ take n new)))

-- What holds of the lock and the files at each place of the process; `Unreported` is what stands behind a
-- worker that ended because it could not write `held`.
abbrev pub TrueAt : Type 0 → WorkerAt → Bool → Text → Bool → Type 0
TrueAt Unreported opening run state locked = (state ≡ waiting_state) × (locked ≡ false)
TrueAt Unreported checking run state locked = (state ≡ waiting_state) × (locked ≡ false)
TrueAt Unreported acquiring run state locked = (state ≡ waiting_state) × (locked ≡ false)
TrueAt Unreported reporting run state locked = (state ≡ waiting_state) × (locked ≡ true)
TrueAt Unreported holding run state locked = (state ≡ held_state) × (locked ≡ true)
TrueAt Unreported unlocking run state locked =
    (state ≡ held_state) × (locked ≡ true) × (run ≡ false)
TrueAt Unreported releasing run state locked =
    ((state ≡ waiting_state) ⊎ (state ≡ held_state)) × (locked ≡ false) × (run ≡ false)
TrueAt Unreported failing run state locked =
    (((state ≡ waiting_state) × (locked ≡ false)) ⊎ ((state ≡ held_state) × (run ≡ false)))
TrueAt Unreported (exited code) run state locked =
    (locked ≡ false)
    × (((code ≡ 0)
          × (run ≡ false)
          × (AsWritten waiting_state released_state state
              ⊎ AsWritten held_state released_state state))
        ⊎ ((code ≡ 2)
            × ((Unreported × AsWritten waiting_state held_state state)
                ⊎ (AsWritten waiting_state failed_state state
                    ⊎ ((run ≡ false) × AsWritten held_state failed_state state)))))

after_acquire :
    (P : Type 0) (a : Acquired) (h : LockWorker)
    → (h.state_file ≡ waiting_state) × (h.locked ≡ false)
    → let g = acquire a h in TrueAt P g.at g.run_file g.state_file g.locked
unfolding acquire
after_acquire P granted h i = (i.0, refl)
after_acquire P (refused c) h i = i
after_acquire P error h i = inl i

write_file-ok : (w : Written) (old new : Text) → write_ok w ≡ true → write_file w old new ≡ new
unfolding write_file write_ok
write_file-ok complete old new h = refl
write_file-ok untouched old new h = cc
write_file-ok (torn n) old new h = cc

write_file-AsWritten : (w : Written) (old new : Text) → AsWritten old new (write_file w old new)
unfolding write_file
write_file-AsWritten complete old new = inl refl
write_file-AsWritten untouched old new = inr (inl refl)
write_file-AsWritten (torn n) old new = inr (inr (n, refl))

write_file-from :
    (w : Written) (old new state : Text) → state ≡ old → AsWritten old new (write_file w state new)
write_file-from w old new state e = rw e (write_file-AsWritten w old new)

not_complete : (w : Written) → write_ok w ≡ false → w ≢ complete
unfolding write_ok
not_complete complete h e = cc
not_complete untouched h e = cc
not_complete (torn n) h e = cc

-- Another reason may stand for the first.
TrueAt-map :
    (P Q : Type 0) (at : WorkerAt) (run : Bool) (state : Text) (locked : Bool)
    → (P → Q)
    → TrueAt P at run state locked
    → TrueAt Q at run state locked
TrueAt-map P Q (exited code) run state locked up i = (
  i.0,
  elim i.1 [
    | inl z ↦ inl z
    | inr (c, s) ↦ inr (c, elim s [ inl (p, w) ↦ inl (up p, w) | inr o ↦ inr o ])
  ],
)
TrueAt-map P Q opening run state locked up i = i
TrueAt-map P Q checking run state locked up i = i
TrueAt-map P Q acquiring run state locked up i = i
TrueAt-map P Q reporting run state locked up i = i
TrueAt-map P Q holding run state locked up i = i
TrueAt-map P Q unlocking run state locked up i = i
TrueAt-map P Q releasing run state locked up i = i
TrueAt-map P Q failing run state locked up i = i

work_at-TrueAt :
    (P Q : Type 0) (at : WorkerAt) (a : Answers) (h : LockWorker)
    → (P → Q)
    → (at ≡ reporting → a.written ≢ complete → Q)
    → h.at ≡ at
    → TrueAt P at h.run_file h.state_file h.locked
    → let g = work_at at a h in TrueAt Q g.at g.run_file g.state_file g.locked
unfolding work_at write_state exit_with
work_at-TrueAt P Q opening a h up new e i = elim (Bool-cases a.opens) [
  | inl o ↦ rw o i
  | inr o ↦ rw o (inl i)
]
work_at-TrueAt P Q checking a h up new e i = elim (Bool-cases h.run_file) [
  | inl r ↦ rw r i
  | inr r ↦ rw r (inl i.0, i.1, refl)
]
work_at-TrueAt P Q acquiring a h up new e i = after_acquire Q a.acquired h i
work_at-TrueAt P Q reporting a h up new e i = elim (Bool-cases (write_ok a.written)) [
  | inl w ↦ rw w (write_file-ok a.written _ _ w, i.1)
  | inr w ↦ rw w (
    refl,
    inr (
      refl,
      inl (new refl (not_complete a.written w), write_file-from a.written _ held_state _ i.0),
    ),
  )
]
work_at-TrueAt P Q holding a h up new e i = elim (Bool-cases h.run_file) [
  | inl r ↦ rw (r, e) i
  | inr r ↦ rw r (i.0, i.1, refl)
]
work_at-TrueAt P Q unlocking a h up new e i = elim (Bool-cases a.unlocks) [
  | inl u ↦ rw u (inr i.0, refl, i.2)
  | inr u ↦ rw u (inr (i.0, i.2))
]
work_at-TrueAt P Q releasing a h up new e i = (
  refl,
  inl (
    refl,
    i.2,
    elim i.0 [
      | inl w ↦ inl (write_file-from a.written _ released_state _ w)
      | inr w ↦ inr (write_file-from a.written _ released_state _ w)
    ],
  ),
)
work_at-TrueAt P Q failing a h up new e i = (
  refl,
  inr (
    refl,
    inr (elim i [
      | inl (w, _) ↦ inl (write_file-from a.written _ failed_state _ w)
      | inr (w, r) ↦ inr (r, write_file-from a.written _ failed_state _ w)
    ]),
  ),
)
work_at-TrueAt P Q (exited code) a h up new e i =
    rw e (TrueAt-map P Q (exited code) h.run_file h.state_file h.locked up i)

-- The run file may go at any place.
released_TrueAt :
    (P : Type 0) (at : WorkerAt) (run : Bool) (state : Text) (locked : Bool)
    → TrueAt P at run state locked
    → TrueAt P at false state locked
released_TrueAt P opening run state locked i = i
released_TrueAt P checking run state locked i = i
released_TrueAt P acquiring run state locked i = i
released_TrueAt P reporting run state locked i = i
released_TrueAt P holding run state locked i = i
released_TrueAt P unlocking run state locked i = (i.0, i.1, refl)
released_TrueAt P releasing run state locked i = (i.0, i.1, refl)
released_TrueAt P failing run state locked i = elim i [ inl w ↦ inl w | inr (w, _) ↦ inr (w, refl) ]
released_TrueAt P (exited code) run state locked i = (
  i.0,
  elim i.1 [
    | inl (z, r, w) ↦ inl (z, refl, w)
    | inr (z, s) ↦ inr (
      z,
      elim s [
        | inl p ↦ inl p
        | inr o ↦ inr (elim o [ inl w ↦ inl w | inr (r, w) ↦ inr (refl, w) ])
      ],
    )
  ],
)

-- An event leaves what holds of the process; a step that fails to report a lock gives the reason.
pub happen-TrueAt :
    (P Q : Type 0) (e : LockEvent) (h : LockWorker)
    → (P → Q)
    → ((a : Answers) → e ≡ step a → h.at ≡ reporting → a.written ≢ complete → Q)
    → TrueAt P h.at h.run_file h.state_file h.locked
    → let g = happen e h in TrueAt Q g.at g.run_file g.state_file g.locked
unfolding happen work
happen-TrueAt P Q (step a) h up new i = work_at-TrueAt P Q h.at a h up (new a refl) refl i
happen-TrueAt P Q release h up new i =
    released_TrueAt Q h.at h.run_file h.state_file h.locked
      (TrueAt-map P Q h.at h.run_file h.state_file h.locked up i)
