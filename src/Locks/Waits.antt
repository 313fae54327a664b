-- ===== src/Locks/Waits.antt =====
-- pkg/framework/locks.go: how the wait for a holder to report that it has the lock ends.
use nfs_verification.Locks.{acquisition_failed, held_round, held_of, state_of, await_held}
use nfs_verification.Poll.{Wake, tick, deadline, timed_out, poll}
use nfs_verification.Poll.Runs.{Waits, poll_ends}
use nfs_verification.Prelude.{◌≡◌, refl, ap, ◌∙◌, false, List, [], ◌∷◌, ◌++◌, map, none, some, All}
use nfs_verification.Shell.{ExecResult}
use nfs_verification.Text.{Text, codes, eq_text}

-- A read of the state file in a round that the poll's clock ends.
abbrev pub ReadsState : Text → ExecResult × Wake → Type 0
ReadsState s (r, w) = (state_of r ≡ some s) × (w ≡ tick)

failed_round :
    (r : ExecResult) (w : Wake)
    → state_of r ≡ some (codes "failed")
    → held_round (r, w) ≡ record { is_done = false; err = some acquisition_failed; wake = w }
unfolding held_round held_of eq_text
failed_round r w h = rw (h, held_of) refl

failed_rounds :
    (ps : List (ExecResult × Wake))
    → All (ReadsState (codes "failed")) ps
    → All Waits (map held_round ps)
failed_rounds [] h = tt
failed_rounds ((r, w) ∷ ps) h = (rw (failed_round r w h.0.0) (refl, h.0.1), failed_rounds ps h.1)

map-append {ℓ κ} :
    {A : Type ℓ} {B : Type κ} (f : A → B) (xs ys : List A) → map f (xs ++ ys) ≡ map f xs ++ map f ys
map-append f [] ys = refl
map-append f (x ∷ xs) ys = ap (◌∷◌ (f x)) (map-append f xs ys)

-- A holder whose state file reads `failed` in every round does not end the wait: it goes on to the
-- deadline, and then reports the failed acquisition as a timeout.
pub await_held-failed :
    (ps : List (ExecResult × Wake)) (r : ExecResult)
    → All (ReadsState (codes "failed")) ps
    → state_of r ≡ some (codes "failed")
    → (await_held ps ≡ none)
      × (await_held (ps ++ (r, deadline) ∷ []) ≡ some (timed_out (some acquisition_failed)))
unfolding await_held
await_held-failed ps r h e =
    let ends =
      poll_ends (map held_round ps) (some acquisition_failed) tick [] (failed_rounds ps h) in
    (
      ends.0,
      ap poll (map-append held_round ps ((r, deadline) ∷ []))
          ∙ ap (λ q. poll (map held_round ps ++ q ∷ [])) (failed_round r deadline e)
          ∙ ends.3,
    )
