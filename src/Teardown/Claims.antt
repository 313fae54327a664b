-- ===== src/Teardown/Claims.antt =====
-- pkg/framework/framework.go: which claims the end of a case deletes.
use mathlib.Core.Path.{subst}
use nfs_verification.Poll.{Wake, tick, cancelled, deadline}
use nfs_verification.Prelude.{
  ◌≡◌, ◌≢◌, ◌++◌, All, refl, sym, ap, some_inj, ◌∙◌, Bool, true, false, ◌||◌, List, [], ◌∷◌, Option,
  none, some, has, Bool-cases, ◌⊎◌, inl, inr,
}
use nfs_verification.Teardown.{
  Unproven, is_unproven, CasePod, Waited, all_gone, unlisted, still_there, gave_up, await_pods,
  held_by_pods, ClaimsDone, nothing_done, delete_unheld, unheld_of, fails, delete_claims,
  done_after, delete_case_objects,
}
use nfs_verification.Text.{Text, eq_text}
use nfs_verification.Text.Equality.{eq_text_iff}

-- Whether a claim was deleted, with all of them or by itself.
unfoldable pub was_deleted : Text → ClaimsDone → Bool
was_deleted n d = d.all_deleted || has (eq_text n) d.deleted

delete_unheld-held :
    (n : Text) (held deletes : Text → Bool) (ns : List Text)
    → was_deleted n (delete_unheld held deletes ns) ≡ true
    → held n ≡ false
unfolding was_deleted delete_unheld
delete_unheld-held n held deletes [] h = cc
delete_unheld-held n held deletes (m ∷ ns) h = elim (Bool-cases (held m)) [
  | inl k ↦ delete_unheld-held n held deletes ns (simp k at h)
  | inr k ↦ elim (Bool-cases (deletes m)) [
    | inr d ↦ cc (simp (k, d) at h)
    | inl d ↦ elim (Bool-cases (eq_text n m)) [
      | inl e ↦ ap held ((eq_text_iff n m).0 e) ∙ k
      | inr e ↦ delete_unheld-held n held deletes ns (simp (k, d, e) at h)
    ]
  ]
]

unheld_of-held :
    (n : Text) (held deletes : Text → Bool) (names : Option (List Text))
    → was_deleted n (fails (unheld_of held deletes names)) ≡ true
    → held n ≡ false
unfolding unheld_of fails was_deleted
unheld_of-held n held deletes none h = cc
unheld_of-held n held deletes (some ns) h = delete_unheld-held n held deletes ns h

or_false : (a b : Bool) → (a || b) ≡ false → (a ≡ false) × (b ≡ false)
or_false false false h = (refl, refl)
or_false false true h = cc
or_false true b h = cc

-- What was seen of the pods when a claim is deleted, in the rounds of the wait: the clock ended all rounds
-- before the last, which is a listing that succeeded. It shows no pod, or the wait was given up there and
-- none of the pods it shows has the claim among its volumes.
abbrev pub NoPodHolds : Text → List (Option (List CasePod) × Wake) → Type 0
NoPodHolds n rounds =
    (pre : List (Option (List CasePod) × Wake)) × (pods : List CasePod) × (wake : Wake)
    × (post : List (Option (List CasePod) × Wake)) × (rounds ≡ pre ++ (some pods, wake) ∷ post)
    × All (λ r. r.1 ≡ tick) pre
    × ((pods ≡ []) ⊎ ((wake ≢ tick) × All (λ p. has (eq_text n) p.claims ≡ false) pods))

-- What the wait for the pods returns, by the rounds: see `NoPodHolds`.
abbrev LastSeen : List (Option (List CasePod) × Wake) → Waited → Type 0
LastSeen rounds all_gone =
    (pre : List (Option (List CasePod) × Wake)) × (wake : Wake) × (post : List
      (Option (List CasePod) × Wake))
    × (rounds ≡ pre ++ (some [], wake) ∷ post)
    × All (λ r. r.1 ≡ tick) pre
LastSeen rounds unlisted = Unit
LastSeen rounds (still_there pods) =
    (pre : List (Option (List CasePod) × Wake)) × (wake : Wake) × (post : List
      (Option (List CasePod) × Wake))
    × (rounds ≡ pre ++ (some pods, wake) ∷ post)
    × All (λ r. r.1 ≡ tick) pre
    × (wake ≢ tick)

LastSeen-cons :
    (l : Option (List CasePod)) (rs : List (Option (List CasePod) × Wake)) (w : Waited)
    → LastSeen rs w
    → LastSeen ((l, tick) ∷ rs) w
LastSeen-cons l rs all_gone (pre, wake, post, e, t) =
    ((l, tick) ∷ pre, wake, post, ap (◌∷◌ (l, tick)) e, (refl, t))
LastSeen-cons l rs unlisted h = tt
LastSeen-cons l rs (still_there pods) (pre, wake, post, e, t, k) =
    ((l, tick) ∷ pre, wake, post, ap (◌∷◌ (l, tick)) e, (refl, t), k)

await_pods-LastSeen :
    (rounds : List (Option (List CasePod) × Wake)) {w : Waited}
    → await_pods rounds ≡ some w
    → LastSeen rounds w
unfolding await_pods gave_up
await_pods-LastSeen [] h = cc
await_pods-LastSeen ((none, tick) ∷ rs) h = LastSeen-cons none rs _ (await_pods-LastSeen rs h)
await_pods-LastSeen ((none, cancelled) ∷ rs) h = subst (LastSeen _) (some_inj h) tt
await_pods-LastSeen ((none, deadline) ∷ rs) h = subst (LastSeen _) (some_inj h) tt
await_pods-LastSeen ((some [], wake) ∷ rs) h =
    subst (LastSeen ((some [], wake) ∷ rs)) (some_inj h) ([], wake, rs, refl, tt)
await_pods-LastSeen ((some (p ∷ ps), tick) ∷ rs) h =
    LastSeen-cons (some (p ∷ ps)) rs _ (await_pods-LastSeen rs h)
await_pods-LastSeen ((some (p ∷ ps), cancelled) ∷ rs) h =
    subst (LastSeen ((some (p ∷ ps), cancelled) ∷ rs)) (some_inj h)
      ([], cancelled, rs, refl, tt, (λ e. cc))
await_pods-LastSeen ((some (p ∷ ps), deadline) ∷ rs) h =
    subst (LastSeen ((some (p ∷ ps), deadline) ∷ rs)) (some_inj h)
      ([], deadline, rs, refl, tt, (λ e. cc))

none_held :
    (n : Text) (pods : List CasePod)
    → held_by_pods n pods ≡ false
    → All (λ p. has (eq_text n) p.claims ≡ false) pods
unfolding held_by_pods
none_held n [] h = tt
none_held n (p ∷ ps) h = let (a, b) = or_false _ _ h in (a, none_held n ps b)

-- A wait that shows no pod with the claim.
abbrev ShowsNone : Text → Waited → Type 0
ShowsNone n all_gone = Unit
ShowsNone n unlisted = ⊥
ShowsNone n (still_there pods) = held_by_pods n pods ≡ false

LastSeen-NoPodHolds :
    (n : Text) (rounds : List (Option (List CasePod) × Wake)) (w : Waited)
    → LastSeen rounds w
    → ShowsNone n w
    → NoPodHolds n rounds
LastSeen-NoPodHolds n rounds all_gone (pre, wake, post, e, t) h =
    (pre, [], wake, post, e, t, inl refl)
LastSeen-NoPodHolds n rounds unlisted s h = absurd h
LastSeen-NoPodHolds n rounds (still_there pods) (pre, wake, post, e, t, k) h =
    (pre, pods, wake, post, e, t, inr (k, none_held n pods h))

delete_claims-safe :
    (n : Text) (unproven : Unproven) (names : Option (List Text)) (deletes : Text → Bool)
    (collection : Bool) (w : Waited)
    → was_deleted n (delete_claims unproven names deletes collection w) ≡ true
    → (has (eq_text n) unproven ≡ false) × ShowsNone n w
unfolding delete_claims is_unproven was_deleted
delete_claims-safe n [] names deletes collection all_gone h = (refl, tt)
delete_claims-safe n (u ∷ us) names deletes collection all_gone h =
    (unheld_of-held n (λ m. is_unproven m (u ∷ us)) deletes names h, tt)
delete_claims-safe n us names deletes collection unlisted h = cc
delete_claims-safe n us names deletes collection (still_there pods) h =
    let (p, u) =
      or_false _ _
        (unheld_of-held n (λ m. held_by_pods m pods || is_unproven m us) deletes names h) in
    (u, p)

done_after-safe :
    (n : Text) (unproven : Unproven) (names : Option (List Text)) (deletes : Text → Bool)
    (collection : Bool) (o : Option Waited) {d : ClaimsDone}
    → done_after unproven names deletes collection o ≡ some d
    → was_deleted n d ≡ true
    → (has (eq_text n) unproven ≡ false) × ((w : Waited) × (o ≡ some w) × ShowsNone n w)
unfolding done_after
done_after-safe n unproven names deletes collection none h k = cc
done_after-safe n unproven names deletes collection (some w) h k =
    let (u, s) =
      delete_claims-safe n unproven names deletes collection w
        (ap (was_deleted n) (some_inj h) ∙ k) in
    (u, (w, refl, s))

was_nothing : (n : Text) → was_deleted n nothing_done ≡ false
unfolding was_deleted
was_nothing n = refl

-- A claim is deleted at the end of a case only if it is not marked as one whose unmount is in doubt, the
-- delete of the pods was accepted, and a listing of them succeeded behind rounds that only the clock
-- ended: it shows no pod, or the wait was given up there and no pod that it shows names the claim.
pub delete_case_objects-safe :
    (n : Text) (pods_deleted : Bool) (rounds : List (Option (List CasePod) × Wake))
    (unproven : Unproven) (names : Option (List Text)) (deletes : Text → Bool) (collection : Bool)
    {d : ClaimsDone}
    → delete_case_objects pods_deleted rounds unproven names deletes collection ≡ some d
    → was_deleted n d ≡ true
    → (pods_deleted ≡ true) × (has (eq_text n) unproven ≡ false) × NoPodHolds n rounds
unfolding delete_case_objects
delete_case_objects-safe n true rounds unproven names deletes collection h k =
    let (u, (w, e, s)) =
      done_after-safe n unproven names deletes collection (await_pods rounds) h k in
    (refl, u, LastSeen-NoPodHolds n rounds w (await_pods-LastSeen rounds e) s)
delete_case_objects-safe n false rounds unproven names deletes collection h k =
    cc (sym (was_nothing n) ∙ ap (was_deleted n) (some_inj h) ∙ k)
