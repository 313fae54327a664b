-- ===== src/Slo.antt =====
-- pkg/slo/slo.go: the two lease and grace profiles, and the bounds that the cases assert.
pub mod Bounds
use nfs_verification.Clock.{Duration, seconds}
use nfs_verification.Prelude.{
  ◌+◌, ◌*◌, Bool, true, false, ◌&&◌, List, [], ◌∷◌, Option, none, some, if◌then◌else◌, ℤ, pos, ◌+ℤ◌,
  eq_ℤ, scale,
}
use nfs_verification.Text.{Text, codes, eq_text}

pub record Profile : Type 0 where
  pub name : Text
  pub lease : Duration
  pub grace : Duration

abbrev pub tuned : Profile
tuned = record { name = codes "tuned"; lease = seconds 20; grace = seconds 30 }

-- `Default`.
abbrev pub standard : Profile
standard = record { name = codes "default"; lease = seconds 60; grace = seconds 90 }

abbrev pub profiles : List Profile
profiles = tuned ∷ standard ∷ []

match_in : Duration → Duration → List Profile → Option Profile
match_in lease grace [] = none
match_in lease grace (p ∷ ps) =
    if eq_ℤ p.lease lease && eq_ℤ p.grace grace then some p else match_in lease grace ps

-- `Match`.
unfoldable pub match_profile : Duration → Duration → Option Profile
unfolding match_in
match_profile lease grace = match_in lease grace profiles

by_name_in : Text → List Profile → Option Profile
unfolding eq_text
by_name_in name [] = none
by_name_in name (p ∷ ps) = if eq_text p.name name then some p else by_name_in name ps

pub by_name : Text → Option Profile
unfolding by_name_in
by_name name = by_name_in name profiles

-- An event is a text in the source; the three that it names are the ones with a target.
abbrev pub Event : Type 0
Event = Text

abbrev pub event_server_restart : Event
event_server_restart = codes "server-restart-in-place"

abbrev pub event_graceful_drain : Event
event_graceful_drain = codes "server-reschedule-graceful-drain"

abbrev pub event_ungraceful_node_loss : Event
event_ungraceful_node_loss = codes "server-reschedule-ungraceful-node-loss"

-- The map `tunedTargets`.
pub tuned_target : Event → Option Duration
unfolding eq_text
tuned_target e =
    if eq_text e event_server_restart
    then some (seconds 60)
    else if eq_text e event_graceful_drain
    then some (seconds 60)
    else if eq_text e event_ungraceful_node_loss
    then some (seconds 90)
    else none

pub data Outcome : Type 0 where
  target : Duration → Outcome
  no_target unknown_profile : Outcome

target_or_error : Option Duration → Outcome
target_or_error (some d) = target d
target_or_error none = no_target

default_target : Profile → Option Duration → Outcome
default_target p (some _) = target (p.grace +ℤ seconds 30)
default_target p none = no_target

pub recovery : Profile → Event → Outcome
unfolding eq_text target_or_error default_target
recovery p e =
    if eq_text p.name tuned.name
    then target_or_error (tuned_target e)
    else if eq_text p.name standard.name
    then default_target p (tuned_target e)
    else unknown_profile

pub grace_exit_bound : Profile → Duration
grace_exit_bound p = scale 2 p.lease

pub lock_release_bound : Profile → Duration
lock_release_bound p = p.lease

abbrev pub clock_skew_guard : Duration
clock_skew_guard = seconds 5

abbrev pub load_stall_floor : Duration
load_stall_floor = seconds 10

abbrev pub prompt_lock_release : Duration
prompt_lock_release = seconds 5

abbrev pub observation_margin : Duration
observation_margin = seconds 300

-- Shares and amounts of `VolumeUsageTolerance` (0.02) and `VolumeUsageMovement` (0.5).
abbrev pub volume_write_bytes : ℤ
volume_write_bytes = pos (128 * 1048576)
