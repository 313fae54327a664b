-- ===== src/Poll.antt =====
-- pkg/framework/wait.go: calling a function until it is done. What the function returns in each round,
-- and what the `select` behind it wakes up for, come from outside: a run is a list of rounds.
pub mod Runs
use nfs_verification.Clock.{Time, Duration, sub_time}
use nfs_verification.Prelude.{
  Bool, true, false, List, [], ◌∷◌, map, Option, none, some, if◌then◌else◌,
}

-- `<-ctx.Done()`, `<-deadline.C`, `<-ticker.C`.
pub data Wake : Type 0 where
  cancelled deadline tick : Wake

pub record Round {ℓ} (E : Type ℓ) : Type ℓ where
  pub is_done : Bool
  pub err : Option E
  pub wake : Wake

-- `ok` is a nil error; `timed_out` carries `lastErr`.
pub data Ended {ℓ} (E : Type ℓ) : Type ℓ where
  ok : Ended E
  context_error : Ended E
  timed_out : Option E → Ended E

module _ {ℓ} {E : Type ℓ} where
  -- `lastErr` behind one call.
  abbrev pub last_error : Option E → Option E → Option E
  last_error last none = last
  last_error last (some e) = some e

  woken : Wake → Option E → Option (Ended E) → Option (Ended E)
  woken cancelled last rest = some context_error
  woken deadline last rest = some (timed_out last)
  woken tick last rest = rest

  -- The loop of `Poll`; `none` is a loop that still runs when the rounds are used up.
  unfoldable pub poll_from : Option E → List (Round E) → Option (Ended E)
  unfolding woken
  poll_from last [] = none
  poll_from last (r ∷ rs) =
      let rest = poll_from (last_error last r.err) rs in
      if r.is_done then some ok else woken r.wake (last_error last r.err) rest

  unfoldable pub poll : List (Round E) → Option (Ended E)
  unfolding poll_from
  poll = poll_from none

  -- The function that `Measure` hands to `Poll`, on what its own function returned.
  measured : Option E × Wake → Round E
  measured (none, w) = record { is_done = true; err = none; wake = w }
  measured (some e, w) = record { is_done = false; err = some e; wake = w }

  -- `Measure`: the clock is read before the first call and behind the last.
  unfoldable pub measure : Time → Time → List (Option E × Wake) → Option (Duration × Ended E)
  unfolding poll measured
  measure start end rounds = elim (poll (map measured rounds)) [
    | none ↦ none
    | some e ↦ some (sub_time end start, e)
  ]
