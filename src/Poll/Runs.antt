-- ===== src/Poll/Runs.antt =====
-- pkg/framework/wait.go: how a run of `Poll` ends.
use nfs_verification.Poll.{
  Wake, cancelled, deadline, tick, Round, Ended, ok, context_error, timed_out, last_error, woken,
  poll_from, poll,
}
use nfs_verification.Prelude.{
  ◌≡◌, refl, true, false, List, [], ◌∷◌, ◌++◌, Option, none, some, All, ◌∙◌, has, Bool-cases, inl,
  inr,
}

module _ {E : Type 0} where
  -- A round that neither is done nor stops the loop. It may have failed.
  abbrev pub Waits : Round E → Type 0
  Waits r = (r.is_done ≡ false) × (r.wake ≡ tick)

  -- The last error that the rounds returned, or the one before them.
  abbrev pub last_error_of : Option E → List (Round E) → Option E
  last_error_of last [] = last
  last_error_of last (r ∷ rs) = last_error_of (last_error last r.err) rs

  -- Rounds that wait change nothing but the last error, whatever errors they returned.
  poll_from-Waits :
      (rs qs : List (Round E)) (last : Option E)
      → All Waits rs
      → poll_from last (rs ++ qs) ≡ poll_from (last_error_of last rs) qs
  unfolding poll_from woken
  poll_from-Waits [] qs last h = refl
  poll_from-Waits (r ∷ rs) qs last h =
      rw (h.0.0, h.0.1) (poll_from-Waits rs qs (last_error last r.err) h.1)

  poll_from-append_nil :
      (rs : List (Round E)) (last : Option E) → All Waits rs → poll_from last rs ≡ none
  unfolding poll_from woken
  poll_from-append_nil [] last h = refl
  poll_from-append_nil (r ∷ rs) last h =
      rw (h.0.0, h.0.1) (poll_from-append_nil rs (last_error last r.err) h.1)

  -- Rounds that are not done and end in a tick never end the loop, whatever errors the function returned
  -- in them. The first other round ends it: with no error where the function is done, with the context's
  -- error where the context was cancelled, and at the deadline with the last error that the function
  -- returned in that round or any before it, if there was one.
  pub poll_ends :
      (rs : List (Round E)) (err : Option E) (wake : Wake) (qs : List (Round E))
      → All Waits rs
      → (poll rs ≡ none)
        × (poll (rs ++ record { is_done = true; err = err; wake = wake } ∷ qs) ≡ some ok)
        × (poll (rs ++ record { is_done = false; err = err; wake = cancelled } ∷ qs)
            ≡ some context_error)
        × (poll (rs ++ record { is_done = false; err = err; wake = deadline } ∷ qs)
            ≡ some (timed_out (last_error (last_error_of none rs) err)))
  unfolding poll
  poll_ends rs err wake qs h = (
    poll_from-append_nil rs none h,
    poll_from-Waits rs _ none h ∙ unfold poll_from in refl,
    poll_from-Waits rs _ none h ∙ unfold poll_from woken in refl,
    poll_from-Waits rs _ none h ∙ unfold poll_from woken in refl,
  )

  woken-ok :
      (wake : Wake) (last : Option E) (rest : Option (Ended E))
      → woken wake last rest ≡ some ok
      → rest ≡ some ok
  unfolding woken
  woken-ok tick last rest h = h
  woken-ok cancelled last rest h = cc
  woken-ok deadline last rest h = cc

  poll_from-ok :
      (rs : List (Round E)) (last : Option E)
      → poll_from last rs ≡ some ok
      → has (λ r. r.is_done) rs ≡ true
  unfolding poll_from
  poll_from-ok [] last h = cc
  poll_from-ok (r ∷ rs) last h = elim (Bool-cases r.is_done) [
    | inl d ↦ rw d refl
    | inr d ↦ rw d (poll_from-ok rs _ (woken-ok r.wake _ _ (simp d at h)))
  ]

  -- A run without an error has a round that was done.
  pub poll-ok : (rs : List (Round E)) → poll rs ≡ some ok → has (λ r. r.is_done) rs ≡ true
  unfolding poll
  poll-ok rs h = poll_from-ok rs none h
