-- ===== src/LockTool/Worker/Holding.antt =====
-- cmd/locktool/main.go, `worker`: what a run of the worker leaves, and what a holder's state file says of its
-- lock.
use mathlib.Core.List.{append-nil, append_assoc}
use mathlib.Core.Path.{subst}
use nfs_verification.Prelude.{
  ℕ, take, ◌++◌, zero, suc, ◌≡◌, ◌≢◌, refl, Bool, true, false, List, [], ◌∷◌, ◌⊎◌, inl, inr, ◌∙◌,
  sym, ap,
}
use nfs_verification.Text.Equality.{eq_text_iff}
use nfs_verification.Text.{Text, eq_text, codes, trim_space, trim_left, trim_right, is_space}
use nfs_verification.LockTool.Worker.{
  WorkerAt, opening, checking, acquiring, reporting, holding, unlocking, releasing, failing, exited,
  LockWorker, Answers, complete, LockEvent, step, happen, happens, launched,
}
use nfs_verification.LockTool.Worker.Places.{
  waiting_state, held_state, failed_state, AsWritten, TrueAt, happen-TrueAt,
}

-- Among the events is the step of a worker that was granted its lock, and whose write of `held` failed.
abbrev pub FailedReport : List LockEvent → Type 0
FailedReport es =
    (pre : List LockEvent) × (post : List LockEvent) × (a : Answers) × (es ≡ pre ++ step a ∷ post)
    × ((happens pre launched).at ≡ reporting)
    × (a.written ≢ complete)

-- What holds of the process behind a run.
abbrev pub IsTrue : List LockEvent → LockWorker → Type 0
IsTrue es h = TrueAt (FailedReport es) h.at h.run_file h.state_file h.locked

FailedReport-snoc :
    (es : List LockEvent) (e : LockEvent) → FailedReport es → FailedReport (es ++ e ∷ [])
FailedReport-snoc es e (pre, post, a, split, at, w) = (
  pre,
  post ++ e ∷ [],
  a,
  ap (λ xs. xs ++ e ∷ []) split ∙ append_assoc pre (step a ∷ post) (e ∷ []),
  at,
  w,
)

happens-snoc :
    (es : List LockEvent) (e : LockEvent) (h : LockWorker)
    → happens (es ++ e ∷ []) h ≡ happen e (happens es h)
unfolding happens
happens-snoc [] e h = refl
happens-snoc (d ∷ es) e h = happens-snoc es e (happen d h)

-- One more event.
happen-IsTrue :
    (pre : List LockEvent) (e : LockEvent) (h : LockWorker)
    → happens pre launched ≡ h
    → IsTrue pre h
    → IsTrue (pre ++ e ∷ []) (happen e h)
happen-IsTrue pre e h same i =
    happen-TrueAt (FailedReport pre) (FailedReport (pre ++ e ∷ [])) e h (FailedReport-snoc pre e)
      (λ a is at w. (pre, [], a, ap (λ d. pre ++ d ∷ []) is, ap (λ g. g.at) same ∙ at, w)) i

happens_from :
    (es pre : List LockEvent) (h : LockWorker)
    → happens pre launched ≡ h
    → IsTrue pre h
    → IsTrue (pre ++ es) (happens es h)
unfolding happens
happens_from [] pre h same i = subst (λ xs. IsTrue xs h) (sym (append-nil pre)) i
happens_from (e ∷ es) pre h same i =
    subst (λ xs. IsTrue xs (happens es (happen e h))) (append_assoc pre (e ∷ []) es)
      (happens_from es (pre ++ e ∷ []) (happen e h)
        (happens-snoc pre e launched ∙ ap (happen e) same) (happen-IsTrue pre e h same i))

pub happens-IsTrue : (es : List LockEvent) → IsTrue es (happens es launched)
unfolding happens
happens-IsTrue es = happens_from es [] launched refl (refl, refl)

apart : (a b : Text) → eq_text a b ≡ false → a ≢ b
apart a b h e = cc ((eq_text_iff a b).1 e)

NotHeld : Text → Type 0
NotHeld state = trim_space state ≢ codes "held"

read-NotHeld : (state was : Text) → state ≡ was → NotHeld was → NotHeld state
unfolding NotHeld
read-NotHeld state was e n h = n (ap trim_space (sym e) ∙ h)

waiting-NotHeld : NotHeld waiting_state
unfolding NotHeld trim_space trim_left trim_right is_space eq_text
waiting-NotHeld = apart _ _ refl

take-NotHeld : (n : ℕ) → NotHeld (take n failed_state)
unfolding NotHeld trim_space trim_left trim_right is_space eq_text
take-NotHeld zero = apart _ _ refl
take-NotHeld (suc zero) = apart _ _ refl
take-NotHeld (suc (suc zero)) = apart _ _ refl
take-NotHeld (suc (suc (suc zero))) = apart _ _ refl
take-NotHeld (suc (suc (suc (suc zero)))) = apart _ _ refl
take-NotHeld (suc (suc (suc (suc (suc zero))))) = apart _ _ refl
take-NotHeld (suc (suc (suc (suc (suc (suc zero)))))) = apart _ _ refl
take-NotHeld (suc (suc (suc (suc (suc (suc (suc zero))))))) = apart _ _ refl
take-NotHeld (suc (suc (suc (suc (suc (suc (suc (suc n)))))))) = apart _ _ refl

failed-NotHeld : (state : Text) → AsWritten waiting_state failed_state state → NotHeld state
failed-NotHeld state (inl e) = read-NotHeld state _ e (take-NotHeld 7)
failed-NotHeld state (inr (inl e)) = read-NotHeld state _ e waiting-NotHeld
failed-NotHeld state (inr (inr (n, e))) = read-NotHeld state _ e (take-NotHeld n)

held_means :
    (P : Type 0) (at : WorkerAt) (run : Bool) (state : Text) (locked : Bool)
    → TrueAt P at run state locked
    → trim_space state ≡ codes "held"
    → run ≡ true
    → (locked ≡ true) ⊎ ((at ≡ exited 2) × P)
unfolding NotHeld
held_means P opening run state locked i e r = absurd (read-NotHeld state _ i.0 waiting-NotHeld e)
held_means P checking run state locked i e r = absurd (read-NotHeld state _ i.0 waiting-NotHeld e)
held_means P acquiring run state locked i e r = absurd (read-NotHeld state _ i.0 waiting-NotHeld e)
held_means P reporting run state locked i e r = inl i.1
held_means P holding run state locked i e r = inl i.1
held_means P unlocking run state locked i e r = inl i.1
held_means P releasing run state locked i e r = cc
held_means P failing run state locked i e r = elim i [
  | inl (w, _) ↦ absurd (read-NotHeld state _ w waiting-NotHeld e)
  | inr (_, g) ↦ cc
]
held_means P (exited code) run state locked i e r = elim i.1 [
  | inl (_, g, _) ↦ cc
  | inr (c, s) ↦ elim s [
    | inl (p, _) ↦ inr (ap exited c, p)
    | inr o ↦ elim o [ inl w ↦ absurd (failed-NotHeld state w e) | inr (g, _) ↦ cc ]
  ]
]

-- While the run file is there, a state file that the harness reads as `held` means that the lock is held,
-- unless the worker ended with status 2 in a run in which it was granted the lock and its write of `held`
-- failed.
pub happens-held :
    (es : List LockEvent)
    → trim_space (happens es launched).state_file ≡ codes "held"
    → (happens es launched).run_file ≡ true
    → ((happens es launched).locked ≡ true)
      ⊎ (((happens es launched).at ≡ exited 2) × FailedReport es)
happens-held es e r =
    let h = happens es launched in
    held_means (FailedReport es) h.at h.run_file h.state_file h.locked (happens-IsTrue es) e r

released_means :
    (P : Type 0) (at : WorkerAt) (run : Bool) (state : Text) (locked : Bool)
    → TrueAt P at run state locked
    → state ≢ waiting_state
    → state ≢ held_state
    → locked ≡ false
released_means P opening run state locked i w e = i.1
released_means P checking run state locked i w e = i.1
released_means P acquiring run state locked i w e = i.1
released_means P reporting run state locked i w e = absurd (w i.0)
released_means P holding run state locked i w e = absurd (e i.0)
released_means P unlocking run state locked i w e = absurd (e i.0)
released_means P releasing run state locked i w e = i.1
released_means P failing run state locked i w e = elim i [
  | inl (_, l) ↦ l
  | inr (s, _) ↦ absurd (e s)
]
released_means P (exited code) run state locked i w e = i.0

-- A state file that reads anything but `waiting` and `held` means that no lock is held.
pub happens-released :
    (es : List LockEvent)
    → (happens es launched).state_file ≢ waiting_state
    → (happens es launched).state_file ≢ held_state
    → (happens es launched).locked ≡ false
happens-released es w e =
    let h = happens es launched in
    released_means (FailedReport es) h.at h.run_file h.state_file h.locked (happens-IsTrue es) w e
