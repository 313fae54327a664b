-- ===== src/Usage/Kubelet/Fresh.antt =====
-- pkg/framework/kubeletstats.go: which reading the wait for a fresh one returns.
use mathlib.Core.Path.{subst}
use nfs_verification.Clock.{Time}
use nfs_verification.Poll.{Wake, cancelled, deadline, tick}
use nfs_verification.Prelude.{
  ◌≡◌, refl, sym, ap, some_inj, ◌∙◌, true, false, List, [], ◌∷◌, ◌++◌, Option, some, Bool-cases,
  Option-cases, inl, inr, none, ◌⊎◌, ◌&&◌, ◌||◌, arith, ℤ, pos, ◌+ℤ◌, ◌-ℤ◌, ◌≤ℤ◌, ltb_ℤ,
}
use nfs_verification.Slo.{clock_skew_guard}
use nfs_verification.Text.Equality.{eq_text_iff}
use nfs_verification.Text.{Text, eq_text, is_empty}
use nfs_verification.Usage.{VolumeUsage}
use nfs_verification.Usage.Kubelet.{
  PvcRef, VolumeStat, PodStats, is_claim, usage_with, usage_of, first_claim, is_pod, find_claim,
  volume_usage_for, SummaryRead, summary, refused_read, failed_read, UsageWait, new_wait,
  FreshUsage, fresh_usage, ended_well, ended_badly, too_old, searched, look, woken_wait, wait_from,
  fresh_kubelet_usage,
}

module _ (usage_in : List PodStats → Option VolumeUsage) (not_before : Time) where
  -- A reading that a round found, and that is not older than the workload's.
  abbrev pub FoundIn : List (SummaryRead × Wake) → VolumeUsage → Type 0
  FoundIn rounds u =
      (pre : List (SummaryRead × Wake)) × (pods : List PodStats) × (wake : Wake) × (post : List
        (SummaryRead × Wake))
      × (rounds ≡ pre ++ (summary pods, wake) ∷ post)
      × (usage_in pods ≡ some u)
      × (too_old not_before u ≡ false)

  later :
      (r : SummaryRead × Wake) (rs : List (SummaryRead × Wake)) (u : VolumeUsage)
      → FoundIn rs u
      → FoundIn (r ∷ rs) u
  later r rs u (pre, pods, wake, post, e, f, o) = (r ∷ pre, pods, wake, post, ap (◌∷◌ r) e, f, o)

  badly_not_fresh : (w : UsageWait) (u : VolumeUsage) → ended_badly w ≡ fresh_usage u → ⊥
  unfolding ended_badly
  badly_not_fresh w u h = elim (Bool-cases w.refused) [
    | inl r ↦ cc (simp r at h)
    | inr r ↦ elim (Bool-cases w.inspected) [
      | inr i ↦ cc (simp (r, i) at h)
      | inl i ↦ elim (Option-cases w.latest) [
        | inl n ↦ cc (simp (r, i, n) at h)
        | inr (v, s) ↦ cc (simp (r, i, s) at h)
      ]
    ]
  ]

  well_found :
      (w : UsageWait) (v u : VolumeUsage)
      → ended_well (record w { inspected = true; latest = some v }) ≡ fresh_usage u
      → v ≡ u
  unfolding ended_well
  well_found w v u h = elim (Bool-cases w.refused) [
    | inl r ↦ cc (simp r at h)
    | inr r ↦ cc (simp r at h)
  ]

  woken-fresh :
      (wake : Wake) (w : UsageWait) (rest : Option FreshUsage) (u : VolumeUsage)
      → woken_wait usage_in not_before wake w rest ≡ some (fresh_usage u)
      → rest ≡ some (fresh_usage u)
  unfolding woken_wait
  woken-fresh tick w rest u h = h
  woken-fresh cancelled w rest u h = absurd (badly_not_fresh w u (some_inj h))
  woken-fresh deadline w rest u h = absurd (badly_not_fresh w u (some_inj h))

  wait_from-FoundIn :
      (w : UsageWait) (rounds : List (SummaryRead × Wake)) (u : VolumeUsage)
      → wait_from usage_in not_before w rounds ≡ some (fresh_usage u)
      → FoundIn rounds u
  unfolding wait_from look searched
  wait_from-FoundIn w [] u h = cc
  wait_from-FoundIn w ((failed_read, wake) ∷ rs) u h =
      later _ rs u (wait_from-FoundIn w rs u (woken-fresh wake w _ u h))
  wait_from-FoundIn w ((refused_read, wake) ∷ rs) u h = unfold ended_well in cc
  wait_from-FoundIn w ((summary pods, wake) ∷ rs) u h = elim (Option-cases (usage_in pods)) [
    | inl n ↦
        let g = simp n at h in later _ rs u (wait_from-FoundIn _ rs u (woken-fresh wake _ _ u g))
    | inr (v, f) ↦ elim (Bool-cases (too_old not_before v)) [
      | inl o ↦
          let g = simp (f, o) at h in
          later _ rs u (wait_from-FoundIn _ rs u (woken-fresh wake _ _ u g))
      | inr o ↦
          let e = well_found w v u (some_inj (simp (f, o) at h)) in
          ([], pods, wake, rs, refl, f ∙ ap some e, sym (ap (too_old not_before) e) ∙ o)
    ]
  ]

-- A summary has the reading among the volumes of the pod: the pod is of the namespace and the name, the
-- entry is of the claim, by name and, where it names one, by namespace, and the numbers and the time are
-- the entry's.
abbrev pub PublishedIn : Text → Text → Text → List PodStats → VolumeUsage → Type 0
PublishedIn namespace pod claim pods u =
    (ps : List PodStats) × (p : PodStats) × (qs : List PodStats) × (vs : List VolumeStat)
    × (v : VolumeStat) × (ws : List VolumeStat) × (r : PvcRef) × (pods ≡ ps ++ p ∷ qs)
    × (p.namespace ≡ namespace)
    × (p.name ≡ pod)
    × (p.volumes ≡ vs ++ v ∷ ws)
    × (v.pvc_ref ≡ some r)
    × (r.name ≡ claim)
    × ((r.namespace ≡ []) ⊎ (r.namespace ≡ namespace))
    × (u.claim ≡ claim)
    × (v.used_bytes ≡ some u.used_bytes)
    × (v.capacity_bytes ≡ some u.capacity_bytes)
    × (v.available_bytes ≡ some u.available_bytes)
    × (v.time ≡ u.at)

-- An entry is the claim's.
abbrev ClaimOf : Text → Text → VolumeStat → Type 0
ClaimOf namespace claim v =
    (r : PvcRef) × (v.pvc_ref ≡ some r)
    × (r.name ≡ claim)
    × ((r.namespace ≡ []) ⊎ (r.namespace ≡ namespace))

empty_text : (t : Text) → is_empty t ≡ true → t ≡ []
empty_text [] h = refl
empty_text (c ∷ t) h = cc

of_claim :
    (namespace claim : Text) (r : PvcRef)
    → (eq_text r.name claim && (is_empty r.namespace || eq_text r.namespace namespace)) ≡ true
    → (r.name ≡ claim) × ((r.namespace ≡ []) ⊎ (r.namespace ≡ namespace))
of_claim namespace claim r h = (
  ground (arith, eq_text_iff r.name claim),
  elim (Bool-cases (is_empty r.namespace)) [
    | inl e ↦ inl (empty_text r.namespace e)
    | inr e ↦ inr (ground (arith, eq_text_iff r.namespace namespace))
  ],
)

of_ref :
    (namespace claim : Text) (o : Option PvcRef)
    → (elim o [
      | none ↦ false
      | some r ↦ eq_text r.name claim && (is_empty r.namespace || eq_text r.namespace namespace)
    ])
      ≡ true
    → (r : PvcRef) × (o ≡ some r)
      × (r.name ≡ claim)
      × ((r.namespace ≡ []) ⊎ (r.namespace ≡ namespace))
of_ref namespace claim none h = cc
of_ref namespace claim (some r) h = let (n, s) = of_claim namespace claim r h in (r, refl, n, s)

is_claim-ClaimOf :
    (namespace claim : Text) (v : VolumeStat)
    → is_claim namespace claim v ≡ true
    → ClaimOf namespace claim v
unfolding is_claim
is_claim-ClaimOf namespace claim v h = of_ref namespace claim v.pvc_ref h

-- The entry that is found stands among the volumes, and is the claim's.
first_claim-ClaimOf :
    (namespace claim : Text) (vols : List VolumeStat) {v : VolumeStat}
    → first_claim namespace claim vols ≡ some v
    → (vs ws : List VolumeStat) × (vols ≡ vs ++ v ∷ ws) × ClaimOf namespace claim v
unfolding first_claim
first_claim-ClaimOf namespace claim [] h = cc
first_claim-ClaimOf namespace claim (w ∷ vols) h = elim (Bool-cases (is_claim namespace claim w)) [
  | inl c ↦
      let e = some_inj (simp c at h) in
      (
        [],
        vols,
        ap (λ x. x ∷ vols) e,
        subst (ClaimOf namespace claim) e (is_claim-ClaimOf namespace claim w c),
      )
  | inr c ↦
      let (vs, ws, e, k) = first_claim-ClaimOf namespace claim vols (simp c at h) in
      (w ∷ vs, ws, ap (◌∷◌ w) e, k)
]

-- A pod of the summary with an entry of the claim.
abbrev EntryIn : Text → Text → Text → List PodStats → VolumeStat → Type 0
EntryIn namespace pod claim pods v =
    (ps : List PodStats) × (p : PodStats) × (qs : List PodStats) × (pods ≡ ps ++ p ∷ qs)
    × (p.namespace ≡ namespace)
    × (p.name ≡ pod)
    × ((vs ws : List VolumeStat) × (p.volumes ≡ vs ++ v ∷ ws) × ClaimOf namespace claim v)

EntryIn-cons :
    (namespace pod claim : Text) (q : PodStats) (pods : List PodStats) (v : VolumeStat)
    → EntryIn namespace pod claim pods v
    → EntryIn namespace pod claim (q ∷ pods) v
EntryIn-cons namespace pod claim q pods v (ps, p, qs, e, n, m, k) =
    (q ∷ ps, p, qs, ap (◌∷◌ q) e, n, m, k)

find_claim-EntryIn :
    (namespace pod claim : Text) (pods : List PodStats) {v : VolumeStat}
    → find_claim namespace pod claim pods ≡ some v
    → EntryIn namespace pod claim pods v
unfolding find_claim is_pod
find_claim-EntryIn namespace pod claim [] h = cc
find_claim-EntryIn namespace pod claim (p ∷ pods) {v} h =
    elim (Bool-cases (eq_text p.namespace namespace && eq_text p.name pod)) [
      | inr n ↦
          EntryIn-cons namespace pod claim p pods v
            (find_claim-EntryIn namespace pod claim pods (simp n at h))
      | inl y ↦ elim (Option-cases (first_claim namespace claim p.volumes)) [
        | inl n ↦
            EntryIn-cons namespace pod claim p pods v
              (find_claim-EntryIn namespace pod claim pods (simp (y, n) at h))
        | inr (w, f) ↦
            let e = some_inj (simp (y, f) at h) in
            (
              [],
              p,
              pods,
              refl,
              ground (arith, eq_text_iff p.namespace namespace),
              ground (arith, eq_text_iff p.name pod),
              first_claim-ClaimOf namespace claim p.volumes (f ∙ ap some e),
            )
      ]
    ]

usage_with-some :
    (claim : Text) (at : Time) (a b c : Option ℤ) {u : VolumeUsage}
    → usage_with claim at a b c ≡ some u
    → (u.claim ≡ claim)
      × (a ≡ some u.used_bytes)
      × (b ≡ some u.capacity_bytes)
      × (c ≡ some u.available_bytes)
      × (at ≡ u.at)
unfolding usage_with
usage_with-some claim at (some a) (some b) (some c) h =
    let e = some_inj h in
    (
      sym (ap (λ u. u.claim) e),
      ap (λ u. some u.used_bytes) e,
      ap (λ u. some u.capacity_bytes) e,
      ap (λ u. some u.available_bytes) e,
      ap (λ u. u.at) e,
    )
usage_with-some claim at none b c h = cc
usage_with-some claim at (some a) none c h = cc
usage_with-some claim at (some a) (some b) none h = cc

usage_found :
    (claim : Text) (o : Option VolumeStat) {u : VolumeUsage}
    → (elim o [ none ↦ none | some v ↦ usage_of claim v ]) ≡ some u
    → (v : VolumeStat) × (o ≡ some v) × (usage_of claim v ≡ some u)
usage_found claim none h = cc
usage_found claim (some v) h = (v, refl, h)

volume_usage_for-PublishedIn :
    (namespace pod claim : Text) (pods : List PodStats) {u : VolumeUsage}
    → volume_usage_for namespace pod claim pods ≡ some u
    → PublishedIn namespace pod claim pods u
unfolding volume_usage_for usage_of
volume_usage_for-PublishedIn namespace pod claim pods h =
    let (v, f, g) = usage_found claim (find_claim namespace pod claim pods) h in
    let (ps, p, qs, e, ns, name, (vs, ws, split, (r, ref, own, of))) =
      find_claim-EntryIn namespace pod claim pods f in
    let (c, a, b, d, t) = usage_with-some claim v.time _ _ _ g in
    (ps, p, qs, vs, v, ws, r, e, ns, name, split, ref, own, of, c, a, b, d, t)

not_before-le : (a b : Time) → ltb_ℤ a b ≡ false → b ≤ℤ a
not_before-le a b h = ground arith

-- A reading that `FreshKubeletUsage` returns is one that a summary in some round published for the claim
-- and the pod, sampled no earlier than the workload's reading, less the guard between two clocks.
pub fresh_kubelet_usage-PublishedIn :
    (namespace pod claim : Text) (not_before : Time) (rounds : List (SummaryRead × Wake))
    (u : VolumeUsage)
    → fresh_kubelet_usage namespace pod claim not_before rounds ≡ some (fresh_usage u)
    → (pre : List (SummaryRead × Wake)) × (pods : List PodStats) × (wake : Wake) × (post : List
        (SummaryRead × Wake))
      × (rounds ≡ pre ++ (summary pods, wake) ∷ post)
      × PublishedIn namespace pod claim pods u
      × ((not_before +ℤ (pos 0 -ℤ clock_skew_guard)) ≤ℤ u.at)
unfolding fresh_kubelet_usage too_old
fresh_kubelet_usage-PublishedIn namespace pod claim not_before rounds u h =
    let (pre, pods, wake, post, e, f, o) =
      wait_from-FoundIn (volume_usage_for namespace pod claim) not_before new_wait rounds u h in
    (
      pre,
      pods,
      wake,
      post,
      e,
      volume_usage_for-PublishedIn namespace pod claim pods f,
      not_before-le u.at (not_before +ℤ (pos 0 -ℤ clock_skew_guard)) o,
    )
