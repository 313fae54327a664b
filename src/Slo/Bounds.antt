-- ===== src/Slo/Bounds.antt =====
-- pkg/slo/slo.go: how the recovery targets and the bounds stand to the grace period.
use mathlib.Core.Path.{subst}
use nfs_verification.Clock.{Duration, seconds}
use nfs_verification.Prelude.{
  ◌≡◌, refl, sym, ◌⊎◌, inl, inr, none, some, arith, ◌+ℤ◌, ◌≤ℤ◌, scale, ◌<ℤ◌, eq_ℤ_iff, Bool-cases,
}
use nfs_verification.Slo.{
  Profile, Event, tuned, standard, match_profile, by_name, tuned_target, event_server_restart,
  event_graceful_drain, event_ungraceful_node_loss, recovery, target, no_target, grace_exit_bound,
  lock_release_bound, load_stall_floor, clock_skew_guard,
}
use nfs_verification.Text.{eq_text}

-- `Match` accepts nothing but the two profiles.
match_profile-cases :
    (lease grace : Duration) {p : Profile}
    → match_profile lease grace ≡ some p
    → ((p ≡ tuned) ⊎ (p ≡ standard)) × (p.lease ≡ lease) × (p.grace ≡ grace)
unfolding match_profile
match_profile-cases lease grace h = ground (
  arith,
  eq_ℤ_iff (seconds 20) lease,
  eq_ℤ_iff (seconds 30) grace,
  eq_ℤ_iff (seconds 60) lease,
  eq_ℤ_iff (seconds 90) grace,
)

-- The three events have targets between 60 and 90 seconds.
tuned_target-cases :
    (e : Event)
    → (tuned_target e ≡ none)
      ⊎ ((d : Duration) × (tuned_target e ≡ some d) × (seconds 60 ≤ℤ d) × (d ≤ℤ seconds 90))
unfolding tuned_target
tuned_target-cases e = elim (Bool-cases (eq_text e event_server_restart)) [
  | inl a ↦ rw a (inr (seconds 60, refl, omega arith, omega arith))
  | inr a ↦ rw a (elim (Bool-cases (eq_text e event_graceful_drain)) [
    | inl b ↦ rw b (inr (seconds 60, refl, omega arith, omega arith))
    | inr b ↦ rw b (elim (Bool-cases (eq_text e event_ungraceful_node_loss)) [
      | inl c ↦ rw c (inr (seconds 90, refl, omega arith, omega arith))
      | inr c ↦ rw c (inl refl)
    ])
  ])
]

-- Of a profile whose grace period is `grace`: no target, or one that leaves room for grace.
abbrev HasTarget : Event → Profile → Duration → Type 0
HasTarget e p grace =
    ((tuned_target e ≡ none) × (recovery p e ≡ no_target))
    ⊎ ((d : Duration) × (recovery p e ≡ target d)
        × (grace <ℤ d)
        × (load_stall_floor <ℤ d)
        × (d ≤ℤ seconds 120))

recovery-tuned : (e : Event) → HasTarget e tuned tuned.grace
unfolding recovery
recovery-tuned e = elim (tuned_target-cases e) [
  | inl n ↦ inl (n, rw n)
  | inr (d, k, lo, hi) ↦ inr (d, rw k, omega arith, omega arith, omega arith)
]

recovery-standard : (e : Event) → HasTarget e standard standard.grace
unfolding recovery ◌+ℤ◌
recovery-standard e = elim (tuned_target-cases e) [
  | inl n ↦ inl (n, rw n)
  | inr (d, k, lo, hi) ↦ inr (seconds 120, rw k, omega arith, omega arith, omega arith)
]

-- A statement about the two profiles holds of what `Match` accepts.
of_match_profile :
    (P : Profile → Duration → Type 0) (lease grace : Duration) {p : Profile}
    → match_profile lease grace ≡ some p
    → P tuned tuned.grace
    → P standard standard.grace
    → P p grace
of_match_profile P lease grace {p} h a b =
    let (which, _, same) = match_profile-cases lease grace h in
    subst (P p) same (elim which [
      | inl e ↦ subst (λ q. P q q.grace) (sym e) a
      | inr e ↦ subst (λ q. P q q.grace) (sym e) b
    ])

-- Under a profile that `Match` accepts, `Recovery` refuses an event exactly where the event has no
-- target; otherwise its target is longer than the grace period and than the floor of a stall, and is
-- at most two minutes.
pub recovery-match_profile :
    (lease grace : Duration) (e : Event) {p : Profile}
    → match_profile lease grace ≡ some p
    → ((tuned_target e ≡ none) × (recovery p e ≡ no_target))
      ⊎ ((d : Duration) × (recovery p e ≡ target d)
          × (grace <ℤ d)
          × (load_stall_floor <ℤ d)
          × (d ≤ℤ seconds 120))
recovery-match_profile lease grace e h =
    of_match_profile (HasTarget e) lease grace h (recovery-tuned e) (recovery-standard e)

abbrev EndsInside : Profile → Duration → Type 0
EndsInside p grace =
    (grace +ℤ clock_skew_guard ≤ℤ grace_exit_bound p)
    × (lock_release_bound p <ℤ grace)
    × (by_name p.name ≡ some p)

-- Under a profile that `Match` accepts, the bound on leaving grace is not before the configured
-- grace period ends, by at least the guard for two clocks, a lock is released before grace may end,
-- and `ByName` finds the profile by its name.
pub grace_exit_bound-match_profile :
    (lease grace : Duration) {p : Profile}
    → match_profile lease grace ≡ some p
    → (grace +ℤ clock_skew_guard ≤ℤ grace_exit_bound p)
      × (lock_release_bound p <ℤ grace)
      × (by_name p.name ≡ some p)
unfolding grace_exit_bound lock_release_bound by_name ◌+ℤ◌ scale
grace_exit_bound-match_profile lease grace h =
    of_match_profile EndsInside lease grace h (omega arith, omega arith, refl)
      (omega arith, omega arith, refl)
