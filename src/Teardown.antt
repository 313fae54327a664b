-- ===== src/Teardown.antt =====
-- pkg/framework/framework.go and unmount.go: what is left of a case's claims behind it. What the cluster
-- answers comes from outside, one answer for each call.
pub mod Unmounts
pub mod Claims
use nfs_verification.Poll.{Wake, cancelled, deadline, tick}
use nfs_verification.Prelude.{
  Bool, true, false, not, ◌&&◌, ◌||◌, List, [], ◌∷◌, ◌++◌, Option, none, some, if◌then◌else◌, has,
  keep_if,
}
use nfs_verification.Text.{Text, eq_text, is_empty}

-- The claims that are marked, by name.
abbrev pub Unproven : Type 0
Unproven = List Text

pub is_unproven : Text → Unproven → Bool
is_unproven n u = has (eq_text n) u

-- `MarkClaimUnproven` and `ClearClaimUnproven`.
unfoldable pub mark_claim_unproven : Text → Unproven → Unproven
mark_claim_unproven n u = n ∷ u

unfoldable pub clear_claim_unproven : Text → Unproven → Unproven
clear_claim_unproven n u = keep_if (λ m. not (eq_text n m)) u

-- A pod of the case, with the claims that its volumes name.
pub record CasePod : Type 0 where
  pub name : Text
  pub node : Text
  pub claims : List Text

-- How the wait for the pods ends: with none left, or with what the last listing in time showed, if
-- there was one.
pub data Waited : Type 0 where
  all_gone : Waited
  unlisted : Waited
  still_there : List CasePod → Waited

gave_up : Wake → Waited → Option Waited → Option Waited
gave_up tick w rest = rest
gave_up _ w rest = some w

-- The rounds of `Poll` in `DeleteCaseObjects`; `none` among them is a listing that failed, and `none` as
-- the result a wait that goes on.
pub await_pods : List (Option (List CasePod) × Wake) → Option Waited
unfolding gave_up
await_pods [] = none
await_pods ((none, wake) ∷ rs) = gave_up wake unlisted (await_pods rs)
await_pods ((some [], wake) ∷ rs) = some all_gone
await_pods ((some (p ∷ ps), wake) ∷ rs) = gave_up wake (still_there (p ∷ ps)) (await_pods rs)

-- `claimsHeldBy`.
pub held_by_pods : Text → List CasePod → Bool
held_by_pods n pods = has (λ p. has (eq_text n) p.claims) pods

-- What was done to the claims: whether all of them were deleted at once, which were deleted one by
-- one, which were kept, and whether there was no error.
pub record ClaimsDone : Type 0 where
  pub all_deleted : Bool
  pub deleted : List Text
  pub kept : List Text
  pub succeeded : Bool

abbrev pub nothing_done : ClaimsDone
nothing_done = record { all_deleted = false; deleted = []; kept = []; succeeded = false }

-- The loop of `deleteUnheldClaims`; a delete that fails ends it.
pub delete_unheld : (Text → Bool) → (Text → Bool) → List Text → ClaimsDone
delete_unheld held deletes [] = record {
  all_deleted = false;
  deleted = [];
  kept = [];
  succeeded = true;
}
delete_unheld held deletes (n ∷ ns) =
    let rest = delete_unheld held deletes ns in
    if held n
    then record rest { kept = n ∷ rest.kept }
    else if deletes n
    then record rest { deleted = n ∷ rest.deleted }
    else nothing_done

unheld_of : (Text → Bool) → (Text → Bool) → Option (List Text) → ClaimsDone
unfolding delete_unheld
unheld_of held deletes none = nothing_done
unheld_of held deletes (some names) = delete_unheld held deletes names

-- Without an error only where the claims were all deleted.
fails : ClaimsDone → ClaimsDone
fails d = record d { succeeded = false }

-- `DeleteCaseObjects` behind the wait. `names` is the listing of the claims, `deletes` whether a delete of
-- one of them succeeds, and `collection` whether the delete of all of them does.
pub delete_claims : Unproven → Option (List Text) → (Text → Bool) → Bool → Waited → ClaimsDone
unfolding unheld_of held_by_pods is_unproven fails
delete_claims unproven names deletes collection unlisted = record nothing_done {
  kept = elim names [ none ↦ [] | some ns ↦ ns ];
}
delete_claims unproven names deletes collection all_gone =
    if is_empty unproven
    then record nothing_done { all_deleted = true; succeeded = collection }
    else fails (unheld_of (λ n. is_unproven n unproven) deletes names)
delete_claims unproven names deletes collection (still_there pods) =
    fails (unheld_of (λ n. held_by_pods n pods || is_unproven n unproven) deletes names)

done_after :
    Unproven → Option (List Text) → (Text → Bool) → Bool → Option Waited → Option ClaimsDone
unfolding delete_claims
done_after unproven names deletes collection none = none
done_after unproven names deletes collection (some w) =
    some (delete_claims unproven names deletes collection w)

-- `DeleteCaseObjects`; `pods_deleted` is whether the delete of the pods was accepted.
unfoldable pub delete_case_objects :
    Bool
    → List (Option (List CasePod) × Wake)
    → Unproven
    → Option (List Text)
    → (Text → Bool)
    → Bool
    → Option ClaimsDone
unfolding done_after await_pods
delete_case_objects pods_deleted rounds unproven names deletes collection =
    if pods_deleted
    then done_after unproven names deletes collection (await_pods rounds)
    else some nothing_done
