-- ===== src/Chaos/Processes.antt =====
-- pkg/chaos/chaos.go: the process that a fault is aimed at, by what preflight recorded.
use nfs_verification.Chaos.Pods.{Target}
use nfs_verification.Prelude.{
  Bool, false, not, ◌&&◌, ◌||◌, List, [], ◌∷◌, Option, none, some, if◌then◌else◌, leb,
}
use nfs_verification.Text.{Text, codes, eq_text, eq_texts, is_empty, has_suffix, byte_len}

-- What preflight recorded of a server pod.
pub record ServerInfo : Type 0 where
  pub namespace : Text
  pub pod : Text
  pub images : List Text
  pub process : Text
  pub process_note : Text

pub data WhyNot : Type 0 where
  no_environment images_differ not_recorded : WhyNot
  note : Text → WhyNot

-- The two results of `recordedProcess`: the name, empty for none, and why there is none.
pub record Recorded : Type 0 where
  pub process : Text
  pub why : Option WhyNot

abbrev pub unrecorded : WhyNot → Recorded
unrecorded why = record { process = []; why = some why }

-- The body of the loop of `recordedProcess`, at a record of the target's pod.
unfoldable pub recorded_in : ServerInfo → Target → Recorded
unfolding eq_texts
recorded_in s t =
    if not (eq_texts s.images t.images)
    then unrecorded images_differ
    else if not (is_empty s.process)
    then record { process = s.process; why = none }
    else unrecorded (note s.process_note)

unfoldable pub recorded_from : List ServerInfo → Target → Recorded
unfolding recorded_in eq_text
recorded_from [] t = unrecorded not_recorded
recorded_from (s ∷ ss) t =
    let rest = recorded_from ss t in
    if eq_text s.namespace t.namespace && eq_text s.pod t.pod then recorded_in s t else rest

-- `recordedProcess`; `none` where no environment is loaded.
unfoldable pub recorded_process : Option (List ServerInfo) → Target → Recorded
unfolding recorded_from
recorded_process none t = unrecorded no_environment
recorded_process (some servers) t = recorded_from servers t

too_generic : List Text
too_generic =
    codes "sh"
    ∷ codes "bash"
    ∷ codes "dash"
    ∷ codes "env"
    ∷ codes "sleep"
    ∷ codes "tini"
    ∷ codes "dumb-init"
    ∷ codes "nfs-provisioner"
    ∷ []

one_of : Text → List Text → Bool
unfolding eq_text
one_of w [] = false
one_of w (v ∷ vs) = eq_text w v || one_of w vs

-- `usableAsPattern`.
unfoldable pub usable_as_pattern : Text → Bool
unfolding too_generic one_of has_suffix byte_len
usable_as_pattern name =
    if is_empty name || one_of name too_generic
    then false
    else if has_suffix name (codes ".sh")
    then false
    else leb 4 (byte_len name)

pub data Chosen : Type 0 where
  process : Text → Chosen
  not_named : Option WhyNot → Chosen
  generic_name : Text → Chosen

-- `chooseProcess` and `ResolveProcess`.
unfoldable pub choose_process : Recorded → Chosen
choose_process r =
    if is_empty r.process
    then not_named r.why
    else if not (usable_as_pattern r.process)
    then generic_name r.process
    else process r.process

unfoldable pub resolve_process : Option (List ServerInfo) → Target → Chosen
resolve_process servers t = choose_process (recorded_process servers t)
