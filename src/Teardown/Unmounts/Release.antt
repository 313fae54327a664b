-- ===== src/Teardown/Unmounts/Release.antt =====
-- pkg/framework/unmount.go: what marks a claim, and what it takes to clear the mark.
use mathlib.Core.Path.{ap₂}
use nfs_verification.Locks.Mounts.{MountLine}
use nfs_verification.Poll.{Wake, Ended, ok}
use nfs_verification.Poll.Runs.{poll-ok}
use nfs_verification.Prelude.{
  ◌≡◌, refl, sym, ap, ◌∙◌, Bool, true, false, not, ◌&&◌, ◌||◌, List, [], ◌∷◌, map, Option, none,
  some, has, Bool-cases, ◌⊎◌, inl, inr,
}
use nfs_verification.Teardown.{
  Unproven, is_unproven, CasePod, ClaimsDone, mark_claim_unproven, clear_claim_unproven,
  delete_case_objects,
}
use nfs_verification.Teardown.Claims.{was_deleted, delete_case_objects-safe}
use nfs_verification.Teardown.Unmounts.{
  Volume, NodeReads, UnmountError, still_mounts, mount_gone, volume_in_use, unique_volume_name,
  await_unmount, force_delete_pod, after_delete, scheduled, succeeds, in_use_round, mount_round,
  by_name, volume_gone, await_with,
}
use nfs_verification.Text.{Text, eq_text, is_empty}
use nfs_verification.Text.Equality.{eq_text_refl}

second_true : (a b : Bool) → (a && b) ≡ true → b ≡ true
second_true true b h = h
second_true false b h = cc

and_false : (a b : Bool) → b ≡ false → (a && b) ≡ false
and_false true b h = h
and_false false b h = refl

is_unproven-mark : (n : Text) (u : Unproven) → is_unproven n (mark_claim_unproven n u) ≡ true
unfolding is_unproven mark_claim_unproven
is_unproven-mark n u = rw (eq_text_refl n) refl

is_unproven-clear : (n : Text) (u : Unproven) → is_unproven n (clear_claim_unproven n u) ≡ false
unfolding is_unproven clear_claim_unproven
is_unproven-clear n [] = refl
is_unproven-clear n (m ∷ u) = elim (Bool-cases (eq_text n m)) [
  | inl e ↦ rw e (is_unproven-clear n u)
  | inr e ↦ rw (e, is_unproven-clear n u) (ap (λ b. b || false) e)
]

after_delete-marks :
    (drivers : Text → Option Bool) (claim : Text) (v : Volume) (deleted : Bool) (reads : NodeReads)
    (u : Unproven)
    → ((after_delete drivers claim v deleted reads u).0
        ≡ (deleted && await_unmount drivers v reads))
      × (is_unproven claim (after_delete drivers claim v deleted reads u).1
          ≡ not (deleted && await_unmount drivers v reads))
unfolding after_delete
after_delete-marks drivers claim v false reads u = (refl, is_unproven-mark claim u)
after_delete-marks drivers claim v true reads u =
    elim (Bool-cases (await_unmount drivers v reads)) [
      | inl a ↦ rw a (refl, is_unproven-clear claim (mark_claim_unproven claim u))
      | inr a ↦ rw a (refl, is_unproven-mark claim u)
    ]

-- A pod whose node and volume are known: a force delete returns no error exactly where the delete was
-- accepted and the unmount was seen, and the claim is marked behind it exactly where it was not.
pub force_delete_pod-marks :
    (drivers : Text → Option Bool) (claim node : Text) (v : Volume) (deleted : Bool)
    (reads : NodeReads) (u : Unproven)
    → is_empty node ≡ false
    → let r =
        force_delete_pod drivers claim
          (record { node = some node; volume = some v })
          deleted
          reads
          u in
      (r.0 ≡ (deleted && await_unmount drivers v reads))
      × (is_unproven claim r.1 ≡ not (deleted && await_unmount drivers v reads))
unfolding force_delete_pod scheduled
force_delete_pod-marks drivers claim node v deleted reads u e =
    rw e (after_delete-marks drivers claim v deleted reads u)

-- A claim whose pod was force-deleted without its unmount being seen is not deleted at the end of the
-- case, whatever the cluster answers there.
pub delete_case_objects-force_delete_pod :
    (drivers : Text → Option Bool) (claim node : Text) (v : Volume) (reads : NodeReads)
    (u : Unproven) (pods_deleted : Bool) (rounds : List (Option (List CasePod) × Wake))
    (names : Option (List Text)) (deletes : Text → Bool) (collection deleted : Bool)
    {d : ClaimsDone}
    → is_empty node ≡ false
    → await_unmount drivers v reads ≡ false
    → let r =
        force_delete_pod drivers claim
          (record { node = some node; volume = some v })
          deleted
          reads
          u in
      delete_case_objects pods_deleted rounds r.1 names deletes collection ≡ some d
      → was_deleted claim d ≡ false
unfolding is_unproven
delete_case_objects-force_delete_pod drivers claim node v reads u pods_deleted rounds names deletes
      collection deleted {d} e a h =
    elim (Bool-cases (was_deleted claim d)) [
      | inr k ↦ k
      | inl k ↦
          let marks = (force_delete_pod-marks drivers claim node v deleted reads u e).1 in
          let safe =
            (delete_case_objects-safe claim pods_deleted rounds _ names deletes collection h k).1 in
          cc (sym safe ∙ marks ∙ ap not (and_false deleted _ a))
    ]

-- What was seen of a volume that counts as unmounted: it left the node's volumes in use, where it had
-- been, or a listing of the node's mounts does not have it.
abbrev pub SeenUnmounted : (Text → Option Bool) → Volume → NodeReads → Type 0
SeenUnmounted drivers v reads =
    ((unique : Text) × (inuse : List Text) × (unique_volume_name drivers v ≡ some unique)
      × (reads.first_in_use ≡ some inuse)
      × (volume_in_use unique inuse ≡ true)
      × (has (λ p. elim p.0 [ none ↦ false | some later ↦ not (volume_in_use unique later) ])
            reads.in_use
          ≡ true))
    ⊎ (has (λ p. elim p.0 [ none ↦ false | some mounts ↦ not (still_mounts v.name mounts) ])
          reads.mounts
        ≡ true)

succeeds-ok : (o : Option (Ended UnmountError)) → succeeds o ≡ true → o ≡ some ok
unfolding succeeds
succeeds-ok none h = cc
succeeds-ok (some ok) h = refl
succeeds-ok (some _) h = cc

has-map {ℓ κ} :
    {A : Type ℓ} {B : Type κ} (f : A → B) (p : B → Bool) (q : A → Bool) (xs : List A)
    → ((x : A) → p (f x) ≡ q x)
    → has p (map f xs) ≡ has q xs
has-map f p q [] e = refl
has-map f p q (x ∷ xs) e = ap₂ ◌||◌ (e x) (has-map f p q xs e)

in_use_done :
    (unique : Text) (p : Option (List Text) × Wake)
    → (in_use_round unique p).is_done
      ≡ elim p.0 [ none ↦ false | some later ↦ not (volume_in_use unique later) ]
unfolding in_use_round
in_use_done unique (none, w) = refl
in_use_done unique (some inuse, w) = elim (Bool-cases (volume_in_use unique inuse)) [
  | inl e ↦ rw e refl
  | inr e ↦ rw e refl
]

mount_done :
    (pv : Text) (p : Option (List MountLine) × Wake)
    → (mount_round pv p).is_done
      ≡ elim p.0 [ none ↦ false | some mounts ↦ not (still_mounts pv mounts) ]
unfolding mount_round
mount_done pv (none, w) = refl
mount_done pv (some mounts, w) = elim (Bool-cases (still_mounts pv mounts)) [
  | inl e ↦ rw e refl
  | inr e ↦ rw e refl
]

mount_gone-seen :
    (pv : Text) (reads : NodeReads)
    → mount_gone pv reads ≡ true
    → has (λ p. elim p.0 [ none ↦ false | some mounts ↦ not (still_mounts pv mounts) ]) reads.mounts
      ≡ true
unfolding mount_gone
mount_gone-seen pv reads h =
    sym (has-map (mount_round pv) (λ r. r.is_done) _ reads.mounts (mount_done pv))
    ∙ poll-ok (map (mount_round pv) reads.mounts) (succeeds-ok _ (second_true reads.has_agent _ h))

volume_gone-seen :
    (unique : Text) (reads : NodeReads)
    → volume_gone unique reads ≡ true
    → has
        (λ p. elim p.0 [ none ↦ false | some later ↦ not (volume_in_use unique later) ])
        reads.in_use
      ≡ true
unfolding volume_gone
volume_gone-seen unique reads h =
    sym (has-map (in_use_round unique) (λ r. r.is_done) _ reads.in_use (in_use_done unique))
    ∙ poll-ok (map (in_use_round unique) reads.in_use) (succeeds-ok _ h)

by_name-seen :
    (drivers : Text → Option Bool) (v : Volume) (unique : Text) (reads : NodeReads)
    (first : Option (List Text))
    → unique_volume_name drivers v ≡ some unique
    → reads.first_in_use ≡ first
    → by_name v.name unique reads first ≡ true
    → SeenUnmounted drivers v reads
unfolding by_name
by_name-seen drivers v unique reads none n f h = cc
by_name-seen drivers v unique reads (some inuse) n f h =
    elim (Bool-cases (volume_in_use unique inuse)) [
      | inl e ↦ inl (unique, inuse, n, f, e, volume_gone-seen unique reads (simp e at h))
      | inr e ↦ inr (mount_gone-seen v.name reads (simp e at h))
    ]

await_with-seen :
    (drivers : Text → Option Bool) (v : Volume) (reads : NodeReads) (unique : Option Text)
    → unique_volume_name drivers v ≡ unique
    → await_with v reads unique ≡ true
    → SeenUnmounted drivers v reads
unfolding await_with
await_with-seen drivers v reads none n h = inr (mount_gone-seen v.name reads h)
await_with-seen drivers v reads (some unique) n h =
    by_name-seen drivers v unique reads reads.first_in_use n refl h

-- A wait for an unmount that returns no error has seen it.
pub await_unmount-SeenUnmounted :
    (drivers : Text → Option Bool) (v : Volume) (reads : NodeReads)
    → await_unmount drivers v reads ≡ true
    → SeenUnmounted drivers v reads
unfolding await_unmount
await_unmount-SeenUnmounted drivers v reads h = await_with-seen drivers v reads _ refl h
