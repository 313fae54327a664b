-- ===== src/Chaos/Targets.antt =====
-- pkg/chaos/chaos.go: the pod that a fault is aimed at, and the process name it is aimed by.
use mathlib.Core.Path.{subst}
use nfs_verification.Chaos.Pods.{
  Pod, running, Unfit, unfit_to_injure, Injurable, found, no_pods, all_unfit, first_fit,
  first_injurable, Target, target, server_target, target_of, aim,
}
use nfs_verification.Chaos.Processes.{
  ServerInfo, Recorded, recorded_in, recorded_from, recorded_process, usable_as_pattern, process,
  choose_process, resolve_process,
}
use nfs_verification.Prelude.{
  ◌≡◌, ◌≢◌, refl, sym, ap, ◌∙◌, Bool, true, false, ◌&&◌, List, [], ◌∷◌, ◌++◌, map, Option, none,
  some, ◌⊎◌, inl, inr, Bool-cases, Option-cases, arith, All,
}
use nfs_verification.Text.Equality.{eq_text_iff, eq_texts_iff}
use nfs_verification.Text.{Text, eq_text, is_empty}

-- A pod that a fault may be aimed at.
abbrev pub IsFit : Pod → Type 0
IsFit p = (p.deleting ≡ false) × (p.phase ≡ running)

-- A pod that is being deleted or is not running.
abbrev pub IsUnfit : Pod → Type 0
IsUnfit p = (p.deleting ≡ true) ⊎ (p.phase ≢ running)

fit : (p : Pod) → unfit_to_injure p ≡ none → IsFit p
unfolding unfit_to_injure
fit p h = ground (arith, eq_text_iff p.phase running)

unfit : (p : Pod) {why : Unfit} → unfit_to_injure p ≡ some why → IsUnfit p
unfolding unfit_to_injure
unfit p h = elim (Bool-cases p.deleting) [
  | inl d ↦ inl d
  | inr d ↦ inr (λ e. ground (arith, (eq_text_iff p.phase running).1 e))
]

-- How a list of pods splits at the first one that is fit.
abbrev pub SplitsAt : List Pod → Option Pod → Type 0
SplitsAt ps none = All IsUnfit ps
SplitsAt ps (some p) =
    (pre : List Pod) × (post : List Pod) × (ps ≡ pre ++ p ∷ post) × All IsUnfit pre × IsFit p

SplitsAt-cons :
    (p : Pod) (ps : List Pod) (o : Option Pod) → IsUnfit p → SplitsAt ps o → SplitsAt (p ∷ ps) o
SplitsAt-cons p ps none u h = (u, h)
SplitsAt-cons p ps (some q) u (pre, post, e, hs, f) = (p ∷ pre, post, ap (◌∷◌ p) e, (u, hs), f)

module _ (p : Pod) (ps : List Pod) where
  first_fit-fit : unfit_to_injure p ≡ none → first_fit (p ∷ ps) ≡ some p
  unfolding first_fit
  first_fit-fit n = rw (n, first_fit)

  first_fit-unfit : {why : Unfit} → unfit_to_injure p ≡ some why → first_fit (p ∷ ps) ≡ first_fit ps
  unfolding first_fit
  first_fit-unfit e = rw (e, first_fit)

first_fit-SplitsAt : (ps : List Pod) → SplitsAt ps (first_fit ps)
first_fit-SplitsAt [] = unfold first_fit in tt
first_fit-SplitsAt (p ∷ ps) = elim (Option-cases (unfit_to_injure p)) [
  | inl n ↦ subst (SplitsAt (p ∷ ps)) (sym (first_fit-fit p ps n)) ([], ps, refl, tt, fit p n)
  | inr (why, e) ↦
      subst (SplitsAt (p ∷ ps)) (sym (first_fit-unfit p ps e))
        (SplitsAt-cons p ps (first_fit ps) (unfit p e) (first_fit-SplitsAt ps))
]

-- What `firstInjurable` says of a list of pods.
abbrev pub Picks : List Pod → Injurable → Type 0
Picks ps (found p) = SplitsAt ps (some p)
Picks ps no_pods = ps ≡ []
Picks ps (all_unfit why) =
    (ps ≢ []) × All IsUnfit ps × (why ≡ map (λ q. (q.name, unfit_to_injure q)) ps)

-- `firstInjurable` returns the first pod that is running and not being deleted, where all before it are
-- being deleted or not running; it says that there are no pods exactly of no pods, and gives the
-- reason for every pod where none is fit.
pub first_injurable-Picks : (ps : List Pod) → Picks ps (first_injurable ps)
unfolding first_injurable
first_injurable-Picks [] = refl
first_injurable-Picks (p ∷ ps) = picks (first_fit (p ∷ ps)) (first_fit-SplitsAt (p ∷ ps))
  where
    picks :
        (o : Option Pod)
        → SplitsAt (p ∷ ps) o
        → Picks (p ∷ ps) (elim o [
          | some q ↦ found q
          | none ↦ all_unfit (map (λ q. (q.name, unfit_to_injure q)) (p ∷ ps))
        ])
    picks none h = ((λ e. cc), h, refl)
    picks (some q) h = h

aim-target :
    (i : Injurable) {t : Target}
    → aim i ≡ target t
    → (p : Pod) × (i ≡ found p) × (t ≡ target_of p) × (is_empty p.node ≡ false)
unfolding aim
aim-target (found p) h = elim (Bool-cases (is_empty p.node)) [
  | inl e ↦ cc (rw e at h)
  | inr e ↦ (p, refl, cc (rw e at h), e)
]
aim-target no_pods h = cc
aim-target (all_unfit why) h = cc

-- A target is the first pod of those discovered that is running and not being deleted, and that pod is
-- on a node; the pods before it are being deleted or not running.
pub server_target-SplitsAt :
    (pods : List Pod) {t : Target}
    → server_target pods ≡ target t
    → (p : Pod) × SplitsAt pods (some p) × (t ≡ target_of p) × (is_empty t.node ≡ false)
unfolding server_target
server_target-SplitsAt pods {t} h =
    let (p, e, same, on_node) = aim-target (first_injurable pods) h in
    (
      p,
      subst (Picks pods) e (first_injurable-Picks pods),
      same,
      subst (λ q. is_empty q.node ≡ false) (sym same) (unfold target_of in on_node),
    )

-- The record is of the target's pod.
abbrev pub IsOf : Target → ServerInfo → Type 0
IsOf t s = (s.namespace ≡ t.namespace) × (s.pod ≡ t.pod)

abbrev is_of : Target → ServerInfo → Bool
is_of t s = eq_text s.namespace t.namespace && eq_text s.pod t.pod

is_of-IsOf : (t : Target) (s : ServerInfo) → is_of t s ≡ true → IsOf t s
is_of-IsOf t s h = ground (arith, eq_text_iff s.namespace t.namespace, eq_text_iff s.pod t.pod)

not_is_of-IsOf : (t : Target) (s : ServerInfo) → is_of t s ≡ false → ¬ IsOf t s
not_is_of-IsOf t s h (a, b) =
    ground (arith, (eq_text_iff s.namespace t.namespace).1 a, (eq_text_iff s.pod t.pod).1 b)

-- `s` is the first record of the target's pod.
abbrev pub FirstOf : Target → List ServerInfo → ServerInfo → Type 0
FirstOf t ss s =
    (pre : List ServerInfo) × (post : List ServerInfo) × (ss ≡ pre ++ s ∷ post)
    × All (λ r. ¬ IsOf t r) pre
    × IsOf t s

recorded_from-FirstOf :
    (t : Target) (ss : List ServerInfo)
    → (is_empty (recorded_from ss t).process ≡ true)
      ⊎ ((s : ServerInfo) × FirstOf t ss s × (recorded_from ss t ≡ recorded_in s t))
unfolding recorded_from
recorded_from-FirstOf t [] = inl refl
recorded_from-FirstOf t (s ∷ ss) = elim (Bool-cases (is_of t s)) [
  | inl e ↦ inr (s, ([], ss, refl, tt, is_of-IsOf t s e), rw e)
  | inr e ↦ elim (recorded_from-FirstOf t ss) [
    | inl n ↦ inl (rw e n)
    | inr (q, (pre, post, split, others, own), same) ↦
        inr (q, (s ∷ pre, post, ap (◌∷◌ s) split, (not_is_of-IsOf t s e, others), own), rw e same)
  ]
]

choose_process-process :
    (r : Recorded) {name : Text}
    → choose_process r ≡ process name
    → (r.process ≡ name) × (is_empty r.process ≡ false) × (usable_as_pattern name ≡ true)
unfolding choose_process
choose_process-process r h = ground arith

recorded_in-process :
    (s : ServerInfo) (t : Target)
    → is_empty (recorded_in s t).process ≡ false
    → (s.images ≡ t.images) × ((recorded_in s t).process ≡ s.process)
unfolding recorded_in
recorded_in-process s t h = ground (arith, eq_texts_iff s.images t.images)

-- A process is named only where preflight recorded the target's pod, the first record of it has the
-- images that the pod now runs and names that process, and the name is not too generic to signal on.
pub resolve_process-recorded :
    (servers : Option (List ServerInfo)) (t : Target) {name : Text}
    → resolve_process servers t ≡ process name
    → (ss : List ServerInfo) × (s : ServerInfo) × (servers ≡ some ss)
      × FirstOf t ss s
      × (s.images ≡ t.images)
      × (s.process ≡ name)
      × (usable_as_pattern name ≡ true)
unfolding resolve_process recorded_process
resolve_process-recorded none t h = unfold recorded_process choose_process in cc
resolve_process-recorded (some ss) t h =
    let (named, some_name, usable) = choose_process-process (recorded_from ss t) h in
    elim (recorded_from-FirstOf t ss) [
      | inl n ↦ cc
      | inr (s, first, same) ↦
          let (images, own) =
            recorded_in-process s t (subst (λ r. is_empty r.process ≡ false) same some_name) in
          (ss, s, refl, first, images, sym own ∙ ap (λ r. r.process) (sym same) ∙ named, usable)
    ]
