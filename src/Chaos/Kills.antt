-- ===== src/Chaos/Kills.antt =====
-- pkg/chaos/chaos.go: what a kill and a deletion do and record, and what the waits behind them ask.
use nfs_verification.Chaos.Pods.{Pod, Target, pod_ready}
use nfs_verification.Chaos.Processes.{Chosen, ServerInfo, process, resolve_process}
use nfs_verification.Prelude.{
  ℕ, Bool, true, false, not, ◌&&◌, ◌||◌, List, [], ◌∷◌, ◌++◌, Option, none, some, if◌then◌else◌,
  ◌==◌,
}
use nfs_verification.Text.{Text, codes, eq_text, is_empty, to_lower}

-- What the fault record says.
pub record FaultEvent : Type 0 where
  pub action : Text
  pub fault_target : Text

-- The node agent: `none` where it is unavailable. The first function lists the processes that match a
-- pattern on a node, the second signals them and counts; `none` is an error of either.
abbrev pub Agent : Type 0
Agent = (Text → Text → Option (List Text)) × (Text → Text → Text → Option ℕ)

pub data KillOutcome : Type 0 where
  killed : ℕ → KillOutcome
  unresolved : Chosen → KillOutcome
  no_agent listing_failed nothing_matched signal_failed none_signalled : KillOutcome

-- What a call of `KillServerProcess` returned and did: the pattern that was signalled, and the fault
-- that was recorded.
pub record Kill : Type 0 where
  pub outcome : KillOutcome
  pub signalled : Option Text
  pub fault : Option FaultEvent

abbrev pub untouched : KillOutcome → Kill
untouched o = record { outcome = o; signalled = none; fault = none }

unfoldable pub kill_event : Target → Text → FaultEvent
unfolding to_lower
kill_event t signal = record {
  action = codes "kill-" ++ to_lower signal;
  fault_target = t.node ++ (b'/' ∷ t.pod);
}

unfoldable pub signal_result : Target → Text → Text → Option ℕ → Kill
signal_result t pattern signal none = record {
  outcome = signal_failed;
  signalled = some pattern;
  fault = none;
}
signal_result t pattern signal (some n) = record {
  outcome = if n == 0 then none_signalled else killed n;
  signalled = some pattern;
  fault = some (kill_event t signal);
}

unfoldable pub signal_listed : Agent → Target → Text → Text → Option (List Text) → Kill
unfolding signal_result
signal_listed agent t pattern signal none = untouched listing_failed
signal_listed agent t pattern signal (some []) = untouched nothing_matched
signal_listed agent t pattern signal (some (_ ∷ _)) =
    signal_result t pattern signal (agent.1 t.node pattern signal)

unfoldable pub kill_pattern : Option Agent → Target → Text → Text → Kill
unfolding signal_listed
kill_pattern none t pattern signal = untouched no_agent
kill_pattern (some agent) t pattern signal =
    signal_listed agent t pattern signal (agent.0 t.node pattern)

unfoldable pub kill_chosen : Option Agent → Target → Text → Chosen → Kill
unfolding kill_pattern
kill_chosen agent t signal (process pattern) = kill_pattern agent t pattern signal
kill_chosen agent t signal other = untouched (unresolved other)

-- `KillServerProcess`.
unfoldable pub kill_server_process : Option Agent → Option (List ServerInfo) → Target → Text → Kill
unfolding kill_chosen
kill_server_process agent servers t signal = kill_chosen agent t signal (resolve_process servers t)

pub data DeleteOutcome : Type 0 where
  deleted unmanaged delete_failed : DeleteOutcome

pub record Deletion : Type 0 where
  pub outcome : DeleteOutcome
  pub requested : Bool
  pub fault : Option FaultEvent

-- `DeleteServerPod`, over whether the API accepts the deletion.
unfoldable pub delete_server_pod : Bool → Target → Deletion
delete_server_pod accepted t =
    if is_empty t.controller
    then record { outcome = unmanaged; requested = false; fault = none }
    else if not accepted
    then record { outcome = delete_failed; requested = true; fault = none }
    else record {
      outcome = deleted;
      requested = true;
      fault =
          some (record { action = codes "delete-pod"; fault_target = t.node ++ (b'/' ∷ t.pod) });
    }

-- What the API answers to a read of the target's pod.
pub data Read : Type 0 where
  missing : Read
  read_failed : Read
  present : Pod → Read

pub data StillThere : Type 0 where
  still_terminating still_present : StillThere

-- The function that `WaitServerGone` polls with: whether it is done, and its error.
unfoldable pub server_gone : Target → Read → Bool × Option StillThere
unfolding eq_text
server_gone t missing = (true, none)
server_gone t read_failed = (false, none)
server_gone t (present p) =
    if not (eq_text p.uid t.uid)
    then (true, none)
    else if p.deleting
    then (false, some still_terminating)
    else (false, some still_present)

-- The function that `WaitServerReplaced` polls with, over the pods that discovery returned.
unfoldable pub server_replaced : Target → List Pod → Bool
unfolding eq_text pod_ready
server_replaced old [] = false
server_replaced old (p ∷ ps) =
    ((not (eq_text p.uid old.uid) || not (eq_text p.name old.pod)) && pod_ready p)
    || server_replaced old ps
