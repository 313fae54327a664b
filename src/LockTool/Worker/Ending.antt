-- ===== src/LockTool/Worker/Ending.antt =====
-- The worker against what a caller is promised of a lock holder, and how the worker ends.
use nfs_verification.Prelude.{
  ◌≡◌, refl, Bool, true, false, List, [], ◌∷◌, ◌⊎◌, inl, inr, arith, if◌then◌else◌, ℕ, zero, suc,
  ◌≤◌, length, map, Bool-cases, ap,
}
use nfs_verification.Text.{Text}
use nfs_verification.LockTool.Kernel.{Acquired, granted, refused, error}
use nfs_verification.LockTool.Worker.{
  WorkerAt, opening, checking, acquiring, reporting, holding, unlocking, releasing, failing, exited,
  LockWorker, Answers, write_state, write_ok, exit_with, acquire, work_at, work, LockEvent, step,
  happen, happens, launched,
}
use nfs_verification.LockTool.Worker.Places.{TrueAt, happen-TrueAt}

-- What a caller of `HoldLock` is promised: a lease is asked for only while it is wanted, and is granted
-- only where it was asked for; once it is no longer wanted, and is not being asked for, it may be given
-- back. Until it is given back it may break. Whether the lease is wanted may change while it is asked for.
pub data Lease : Type 0 where
  wanting asking owning returned broken : Lease

pub record Spec : Type 0 where
  pub wanted : Bool
  pub lease : Lease

pub data SpecStep (s : Spec) : Spec → Type 0 where
  unwant : SpecStep s (record s { wanted = false })
  ask : s.wanted ≡ true → s.lease ≡ wanting → SpecStep s (record s { lease = asking })
  decline : s.lease ≡ asking → SpecStep s (record s { lease = wanting })
  grant : s.lease ≡ asking → SpecStep s (record s { lease = owning })
  give_back :
      s.wanted ≡ false
      → (s.lease ≡ wanting) ⊎ (s.lease ≡ owning)
      → SpecStep s (record s { lease = returned })
  break : (s.lease ≡ wanting) ⊎ (s.lease ≡ owning) → SpecStep s (record s { lease = broken })

pub data SpecRun (s : Spec) : Spec → Type 0 where
  here : SpecRun s s
  next : {t u : Spec} → SpecRun s t → SpecStep t u → SpecRun s u

-- The lease that a worker stands for.
pub lease_at : WorkerAt → Bool → Lease
lease_at acquiring locked = asking
lease_at releasing locked = returned
lease_at (exited zero) locked = returned
lease_at (exited (suc _)) locked = broken
lease_at _ locked = if locked then owning else wanting

pub spec_of : LockWorker → Spec
unfolding lease_at
spec_of h = record { wanted = h.run_file; lease = lease_at h.at h.locked }

-- A step of the worker is none or one of the promise.
abbrev Matches : Spec → Spec → Type 0
Matches s t = (t ≡ s) ⊎ SpecStep s t

abbrev holder : WorkerAt → Bool → Text → Bool → LockWorker
holder at run state locked = record { at = at; run_file = run; state_file = state; locked = locked }

-- What holds of a worker at its place, whatever stands behind a failed report.
abbrev Holds : LockWorker → Type 0
Holds h = TrueAt Unit h.at h.run_file h.state_file h.locked

happen-Holds : (e : LockEvent) (h : LockWorker) → Holds h → Holds (happen e h)
happen-Holds e h i = happen-TrueAt Unit Unit e h (λ p. p) (λ a is at w. tt) i

-- The steps that are left when the run file is gone.
rank : WorkerAt → ℕ
rank opening = 3
rank checking = 2
rank acquiring = 5
rank reporting = 4
rank holding = 3
rank unlocking = 2
rank releasing = 1
rank failing = 1
rank (exited _) = 0

lower_acquire :
    (a : Acquired) (run : Bool) (state : Text) (locked : Bool) (n : ℕ)
    → run ≡ false
    → rank acquiring ≤ suc n
    → let g = acquire a (holder acquiring run state locked) in
      (g.run_file ≡ false) × (rank g.at ≤ n)
unfolding rank acquire
lower_acquire granted run state locked n r h = (r, omega arith)
lower_acquire (refused c) run state locked n r h = (r, omega arith)
lower_acquire error run state locked n r h = (r, omega arith)

lower :
    (at : WorkerAt) (a : Answers) (run : Bool) (state : Text) (locked : Bool) (n : ℕ)
    → run ≡ false
    → rank at ≤ suc n
    → ((work_at at a (holder at run state locked)).run_file ≡ false)
      × (rank (work_at at a (holder at run state locked)).at ≤ n)
unfolding rank work_at write_state exit_with
lower opening a run state locked n r h = elim (Bool-cases a.opens) [
  | inl o ↦ rw o (r, omega arith)
  | inr o ↦ rw o (r, omega arith)
]
lower checking a true state locked n r h = cc
lower checking a false state locked n r h = (refl, omega arith)
lower acquiring a run state locked n r h = lower_acquire a.acquired run state locked n r h
lower reporting a run state locked n r h = elim (Bool-cases (write_ok a.written)) [
  | inl w ↦ rw w (r, omega arith)
  | inr w ↦ rw w (r, omega arith)
]
lower holding a true state locked n r h = cc
lower holding a false state locked n r h = (refl, omega arith)
lower unlocking a run state locked n r h = elim (Bool-cases a.unlocks) [
  | inl u ↦ rw u (r, omega arith)
  | inr u ↦ rw u (r, omega arith)
]
lower releasing a run state locked n r h = (r, omega arith)
lower failing a run state locked n r h = (r, omega arith)
lower (exited code) a run state locked n r h = (r, omega arith)

rank_most : (at : WorkerAt) → rank at ≤ 5
unfolding rank
rank_most opening = omega arith
rank_most checking = omega arith
rank_most acquiring = omega arith
rank_most reporting = omega arith
rank_most holding = omega arith
rank_most unlocking = omega arith
rank_most releasing = omega arith
rank_most failing = omega arith
rank_most (exited code) = omega arith

has_ended :
    (answers : List Answers) (h : LockWorker)
    → h.run_file ≡ false
    → rank h.at ≤ length answers
    → rank (happens (map step answers) h).at ≡ 0
unfolding happens happen work
has_ended [] h r l = omega arith
has_ended (a ∷ answers) h r l =
    let (s, m) = lower h.at a h.run_file h.state_file h.locked (length answers) r (omega arith) in
    has_ended answers (work a h) s m

ended_at :
    (P : Type 0) (at : WorkerAt) (run : Bool) (state : Text) (locked : Bool)
    → rank at ≡ 0
    → TrueAt P at run state locked
    → ((at ≡ exited 0) ⊎ (at ≡ exited 2)) × (locked ≡ false)
unfolding rank
ended_at P opening run state locked z i = cc
ended_at P checking run state locked z i = cc
ended_at P acquiring run state locked z i = cc
ended_at P reporting run state locked z i = cc
ended_at P holding run state locked z i = cc
ended_at P unlocking run state locked z i = cc
ended_at P releasing run state locked z i = cc
ended_at P failing run state locked z i = cc
ended_at P (exited code) run state locked z i =
    (elim i.1 [ inl (c, _, _) ↦ inl (ap exited c) | inr (c, _) ↦ inr (ap exited c) ], i.0)

Holds-start : (es : List LockEvent) (h : LockWorker) → Holds h → Holds (happens es h)
unfolding happens
Holds-start [] h i = i
Holds-start (e ∷ es) h i = Holds-start es (happen e h) (happen-Holds e h i)

-- Once the run file is gone, five more steps of the worker end it, whatever the pod answers to its calls:
-- with status 0 or 2, and without a lock.
pub happens-ends :
    (es : List LockEvent) (answers : List Answers)
    → (happens es launched).run_file ≡ false
    → 5 ≤ length answers
    → (((happens (map step answers) (happens es launched)).at ≡ exited 0)
        ⊎ ((happens (map step answers) (happens es launched)).at ≡ exited 2))
      × ((happens (map step answers) (happens es launched)).locked ≡ false)
happens-ends es answers r n =
    let h = happens es launched in
    let g = happens (map step answers) h in
    ended_at Unit g.at g.run_file g.state_file g.locked
      (has_ended answers h r (omega (arith, rank_most h.at)))
      (Holds-start (map step answers) h (Holds-start es launched (refl, refl)))
