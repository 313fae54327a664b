-- ===== src/PodCaps/Servers.antt =====
-- pkg/framework/podcaps.go: one set for the processes that hold one socket.
use mathlib.Core.Path.{subst}
use nfs_verification.PodCaps.Processes.{ProcessCaps, one_set, one_set_from, one_server_set}
use nfs_verification.Prelude.{
  ◌≡◌, refl, sym, ◌∙◌, true, List, [], ◌∷◌, Bool-cases, inl, inr, ◌⊎◌, arith, All, ◌==◌, ℤ, ◌≤ℤ◌,
  ltb_ℤ,
}
use nfs_verification.Text.Equality.{eq_text_iff}
use nfs_verification.Text.{eq_text}

-- A process agrees with what was returned: its container and permitted set, and no lower a pid.
abbrev pub Agrees : ProcessCaps → ProcessCaps → Type 0
Agrees out r =
    (r.container ≡ out.container) × (r.caps.permitted ≡ out.caps.permitted) × (out.pid ≤ℤ r.pid)

-- The container and the permitted set are those of `a`, and the pid is not above that of `a`.
abbrev Keeps : ProcessCaps → ProcessCaps → Type 0
Keeps a out =
    (out.container ≡ a.container) × (out.caps.permitted ≡ a.caps.permitted) × (out.pid ≤ℤ a.pid)

-- The pid is that of one of the processes.
abbrev pub HasPid : ℤ → List ProcessCaps → Type 0
HasPid n [] = ⊥
HasPid n (r ∷ rs) = (r.pid ≡ n) ⊎ HasPid n rs

Agrees-below :
    (a r out : ProcessCaps)
    → eq_text r.container a.container ≡ true
    → (r.caps.permitted == a.caps.permitted) ≡ true
    → out.container ≡ a.container
    → out.caps.permitted ≡ a.caps.permitted
    → out.pid ≤ℤ r.pid
    → Agrees out r
Agrees-below a r out c p k q l =
    ((eq_text_iff r.container a.container).0 c ∙ sym k, ground arith, l)

one_set_from-Agrees :
    (rs : List ProcessCaps) (a out : ProcessCaps)
    → one_set_from a rs ≡ one_set out
    → Keeps a out × All (Agrees out) rs × HasPid out.pid (a ∷ rs)
unfolding one_set_from
one_set_from-Agrees [] a out h =
    let same : a ≡ out = cc in
    subst (λ o. Keeps a o × Unit × HasPid o.pid (a ∷ [])) same
      ((refl, refl, omega arith), tt, inl refl)
one_set_from-Agrees (r ∷ rs) a out h = elim (Bool-cases (eq_text r.container a.container)) [
  | inr c ↦ cc (rw c at h)
  | inl c ↦ elim (Bool-cases (r.caps.permitted == a.caps.permitted)) [
    | inr p ↦ cc (rw (c, p) at h)
    | inl p ↦ elim (Bool-cases (ltb_ℤ r.pid a.pid)) [
      | inl l ↦
          let (k, all, pid) =
            one_set_from-Agrees rs (record a { pid = r.pid }) out (rw (c, p, l) at h) in
          ((k.0, k.1, ground arith), (Agrees-below a r out c p k.0 k.1 k.2, all), inr pid)
      | inr l ↦
          let (k, all, pid) = one_set_from-Agrees rs a out (rw (c, p, l) at h) in
          (k, (Agrees-below a r out c p k.0 k.1 (ground arith), all), skip pid)
    ]
  ]
]
  where
    skip : HasPid out.pid (a ∷ rs) → HasPid out.pid (a ∷ r ∷ rs)
    skip (inl e) = inl e
    skip (inr e) = inr (inr e)

-- Where `oneServerSet` returns a set, every process that was read runs in its container and holds its
-- permitted set, and its pid is the lowest of theirs.
pub one_server_set-Agrees :
    (reads : List ProcessCaps) {out : ProcessCaps}
    → one_server_set reads ≡ one_set out
    → All (Agrees out) reads × HasPid out.pid reads
unfolding one_server_set
one_server_set-Agrees [] h = cc
one_server_set-Agrees (r ∷ rs) {out = out} h =
    let (k, all, pid) = one_set_from-Agrees rs r out h in (((sym k.0, sym k.1, k.2), all), pid)
