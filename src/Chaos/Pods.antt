-- ===== src/Chaos/Pods.antt =====
-- pkg/chaos/chaos.go: the server pod that a fault is aimed at; of pkg/framework/server.go, what it asks
-- of a pod.
use nfs_verification.Prelude.{
  Bool, true, false, not, ◌&&◌, ◌||◌, List, [], ◌∷◌, ◌++◌, map, Option, none, some, if◌then◌else◌,
}
use nfs_verification.Text.{Text, codes, eq_text, is_empty}

pub record OwnerRef : Type 0 where
  pub kind : Text
  pub name : Text
  -- `Controller != nil && *Controller`.
  pub controls : Bool

-- What the harness reads of a pod in the API.
pub record Pod : Type 0 where
  pub namespace : Text
  pub name : Text
  pub uid : Text
  pub node : Text
  -- `DeletionTimestamp != nil`.
  pub deleting : Bool
  pub phase : Text
  pub owners : List OwnerRef
  -- The images of the containers, in order.
  pub images : List Text
  -- `Ready` of each container status.
  pub readiness : List Bool

abbrev pub running : Text
running = codes "Running"

abbrev pub pending : Text
pending = codes "Pending"

unfoldable pub all_ready : List Bool → Bool
all_ready [] = true
all_ready (b ∷ bs) = b && all_ready bs

-- `PodReady`.
unfoldable pub pod_ready : Pod → Bool
unfolding eq_text all_ready
pod_ready p =
    if p.deleting
    then false
    else if not (eq_text p.phase running)
    then false
    else all_ready p.readiness && not (is_empty p.readiness)

-- The filter of `runningOnly`.
unfoldable pub is_discovered : Pod → Bool
unfolding eq_text
is_discovered p = eq_text p.phase running || eq_text p.phase pending

-- Why a pod must not be injured.
pub data Unfit : Type 0 where
  being_deleted : Unfit
  in_phase : Text → Unfit

-- `unfitToInjure`, with `none` for the empty text.
unfoldable pub unfit_to_injure : Pod → Option Unfit
unfolding eq_text
unfit_to_injure p =
    if p.deleting
    then some being_deleted
    else if not (eq_text p.phase running)
    then some (in_phase p.phase)
    else none

pub data Injurable : Type 0 where
  found : Pod → Injurable
  no_pods : Injurable
  all_unfit : List (Text × Option Unfit) → Injurable

-- The loop of `firstInjurable`.
unfoldable pub first_fit : List Pod → Option Pod
unfolding unfit_to_injure
first_fit [] = none
first_fit (p ∷ ps) =
    let rest = first_fit ps in elim (unfit_to_injure p) [ none ↦ some p | some _ ↦ rest ]

unfoldable pub first_injurable : List Pod → Injurable
unfolding first_fit
first_injurable [] = no_pods
first_injurable (p ∷ ps) = elim (first_fit (p ∷ ps)) [
  | some q ↦ found q
  | none ↦ all_unfit (map (λ q. (q.name, unfit_to_injure q)) (p ∷ ps))
]

pub record Target : Type 0 where
  pub namespace : Text
  pub pod : Text
  pub uid : Text
  pub node : Text
  pub controller : Text
  pub images : List Text

-- The last owner that is a controller.
controller_of : Text → List OwnerRef → Text
controller_of so_far [] = so_far
controller_of so_far (r ∷ rs) =
    controller_of (if r.controls then r.kind ++ (b'/' ∷ r.name) else so_far) rs

unfoldable pub target_of : Pod → Target
unfolding controller_of
target_of p = record {
  namespace = p.namespace;
  pod = p.name;
  uid = p.uid;
  node = p.node;
  controller = controller_of [] p.owners;
  images = p.images;
}

pub data Targeted : Type 0 where
  target : Target → Targeted
  not_found : Injurable → Targeted
  not_scheduled : Target → Targeted

unfoldable pub aim : Injurable → Targeted
unfolding target_of
aim (found p) = if is_empty p.node then not_scheduled (target_of p) else target (target_of p)
aim other = not_found other

-- `ServerTarget`, over the pods that discovery returned.
unfoldable pub server_target : List Pod → Targeted
unfolding first_injurable aim
server_target pods = aim (first_injurable pods)
