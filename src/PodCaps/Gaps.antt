-- ===== src/PodCaps/Gaps.antt =====
-- pkg/framework/podcaps.go: where the declared capabilities went.
use nfs_verification.PodCaps.Sets.{CapSet, has_cap, cap_gaps}
use nfs_verification.Prelude.{
  ◌+◌, ◌≡◌, refl, ap, ◌∙◌, Bool, not, ◌&&◌, List, [], ◌∷◌, Bool-cases, inl, inr, arith, keep_if,
  count_if, length, length-keep_if,
}
use nfs_verification.Text.{Text}

abbrev pub is_held : CapSet → Text → Bool
is_held c want = has_cap c.permitted want

-- Not held by the server, and not by the container's first process.
abbrev pub is_stripped : CapSet → CapSet → Text → Bool
is_stripped delivered held want = not (is_held held want) && not (is_held delivered want)

abbrev pub is_dropped : CapSet → CapSet → Text → Bool
is_dropped delivered held want = not (is_held held want) && is_held delivered want

cap_gaps-keep_if :
    (declared : List Text) (delivered held : CapSet)
    → cap_gaps declared delivered held ≡ (
      keep_if (is_stripped delivered held) declared,
      keep_if (is_dropped delivered held) declared,
    )
unfolding cap_gaps
cap_gaps-keep_if [] delivered held = refl
cap_gaps-keep_if (want ∷ declared) delivered held =
    let rest = cap_gaps-keep_if declared delivered held in
    elim (Bool-cases (has_cap held.permitted want)) [
      | inl h ↦ rw h rest
      | inr h ↦ elim (Bool-cases (has_cap delivered.permitted want)) [
        | inl d ↦ rw (h, d, rest) refl
        | inr d ↦ rw (h, d, rest) refl
      ]
    ]

count_gaps :
    (declared : List Text) (delivered held : CapSet)
    → count_if (is_held held) declared
        + (count_if (is_stripped delivered held) declared
            + count_if (is_dropped delivered held) declared)
      ≡ length declared
count_gaps [] delivered held = omega arith
count_gaps (want ∷ declared) delivered held = ground (arith, count_gaps declared delivered held)

-- `CapGaps` lists in their order the declared capabilities that neither process may use as stripped, and
-- those that only the first process may use as dropped. With those that the server holds they make up
-- everything declared.
pub cap_gaps_lem :
    (declared : List Text) (delivered held : CapSet)
    → ((cap_gaps declared delivered held).0 ≡ keep_if (is_stripped delivered held) declared)
      × ((cap_gaps declared delivered held).1 ≡ keep_if (is_dropped delivered held) declared)
      × (count_if (is_held held) declared
            + (length (cap_gaps declared delivered held).0
                + length (cap_gaps declared delivered held).1)
          ≡ length declared)
cap_gaps_lem declared delivered held =
    let same = cap_gaps-keep_if declared delivered held in
    (
      ap (λ q. q.0) same,
      ap (λ q. q.1) same,
      ap (λ q. count_if (is_held held) declared + (length q.0 + length q.1)) same
          ∙ ap
              (λ n.
                count_if (is_held held) declared
                + (n + length (keep_if (is_dropped delivered held) declared)))
              (length-keep_if (is_stripped delivered held) declared)
          ∙ ap
              (λ n.
                count_if (is_held held) declared
                + (count_if (is_stripped delivered held) declared + n))
              (length-keep_if (is_dropped delivered held) declared)
          ∙ count_gaps declared delivered held,
    )
