-- ===== src/Holders/Scans.antt =====
-- pkg/framework/serverprocess.go: the end marker of a scan.
use nfs_verification.Holders.Facts.{
  ListenerFacts, add_holder, add_comm, add_argv0, marker_line, Scan, scan_line, scan_lines,
  parse_listener_facts, socket_inode, split_pid_line,
}
use nfs_verification.Holders.Picks.{ServerProcess, held_by, pick_holder}
use nfs_verification.Holders.Names.{pick_holder-IsHolder}
use nfs_verification.Prelude.{
  ◌≡◌, refl, sym, ◌∙◌, Bool, true, false, ◌||◌, List, [], ◌∷◌, Option, none, some, Bool-cases,
  Option-cases, inl, inr, ◌⊎◌, arith, ℤ, has, ◌==◌,
}
use nfs_verification.Text.{Text, codes, eq_text, split, trim_space, trim_right, has_prefix}

-- The line is the scan's end marker.
abbrev pub is_end : Text → Bool
is_end raw = eq_text (trim_space (trim_right (λ c. c == b'\r') raw)) (codes "==END")

add_holder-complete :
    (o : Option (ℤ × Text)) (f : ListenerFacts) → (add_holder o f).complete ≡ f.complete
unfolding add_holder
add_holder-complete none f = refl
add_holder-complete (some (pid, link)) f = elim (Option-cases (socket_inode link)) [
  | inl e ↦ rw (e, add_holder) refl
  | inr (i, e) ↦ rw (e, add_holder) refl
]

add_comm-complete :
    (o : Option (ℤ × Text)) (f : ListenerFacts) → (add_comm o f).complete ≡ f.complete
unfolding add_comm
add_comm-complete none f = refl
add_comm-complete (some e) f = refl

add_argv0-complete :
    (o : Option (ℤ × Text)) (f : ListenerFacts) → (add_argv0 o f).complete ≡ f.complete
unfolding add_argv0
add_argv0-complete none f = refl
add_argv0-complete (some e) f = refl

or_left : (a b : Bool) → a ≡ true → (a || b) ≡ true
or_left true b h = refl
or_left false b h = cc

or_right : (a b : Bool) → b ≡ true → (a || b) ≡ true
or_right true b h = refl
or_right false b h = h

or_assoc : (a b c : Bool) → (a || b) ≡ true → (a || (b || c)) ≡ true
or_assoc true b c h = refl
or_assoc false b c h = or_left b c h

or_cases : (a b : Bool) → (a || b) ≡ true → (a ≡ true) ⊎ (b ≡ true)
or_cases true b h = inl refl
or_cases false b h = inr h

marker_line-complete :
    (t : Text) (f : ListenerFacts)
    → (marker_line t f).complete ≡ true
    → (f.complete || eq_text t (codes "==END")) ≡ true
unfolding marker_line
marker_line-complete t f h = elim (Bool-cases (has_prefix t (codes "==TABLEERROR "))) [
  | inl a ↦ kept (rw a at h)
  | inr a ↦ elim (Bool-cases (eq_text t (codes "==NOREADLINK"))) [
    | inl b ↦ kept (rw (a, b) at h)
    | inr b ↦ elim (Bool-cases (eq_text t (codes "==END"))) [
      | inl c ↦ or_right f.complete _ c
      | inr c ↦ elim (Bool-cases (has_prefix t (codes "==PROC "))) [
        | inl d ↦ kept (
            sym (add_comm-complete (split_pid_line t (codes "==PROC ")) f) ∙ (rw (a, b, c, d) at h))
        | inr d ↦ elim (Bool-cases (has_prefix t (codes "==ARGV0 "))) [
          | inl e ↦ kept (
              sym (add_argv0-complete (split_pid_line t (codes "==ARGV0 ")) f)
              ∙ (rw (a, b, c, d, e) at h))
          | inr e ↦ elim (Bool-cases (has_prefix t (codes "==FD "))) [
            | inl g ↦ kept (
                sym (add_holder-complete (split_pid_line t (codes "==FD ")) f)
                ∙ (rw (a, b, c, d, e, g) at h))
            | inr g ↦ kept (rw (a, b, c, d, e, g) at h)
          ]
        ]
      ]
    ]
  ]
]
  where
    kept : f.complete ≡ true → (f.complete || eq_text t (codes "==END")) ≡ true
    kept k = or_left f.complete _ k

scan_line-complete :
    (raw : Text) (s : Scan)
    → (scan_line raw s).facts.complete ≡ true
    → (s.facts.complete || is_end raw) ≡ true
unfolding scan_line
scan_line-complete raw s h =
    ground (arith, marker_line-complete (trim_space (trim_right (λ c. c == b'\r') raw)) s.facts)

scan_lines-complete :
    (ls : List Text) (s : Scan)
    → (scan_lines ls s).facts.complete ≡ true
    → (s.facts.complete || has is_end ls) ≡ true
unfolding scan_lines
scan_lines-complete [] s h = ground arith
scan_lines-complete (l ∷ ls) s h =
    elim (or_cases (scan_line l s).facts.complete _ (scan_lines-complete ls (scan_line l s) h)) [
      | inl c ↦ or_assoc s.facts.complete (is_end l) _ (scan_line-complete l s c)
      | inr e ↦ or_right s.facts.complete _ (or_right (is_end l) _ e)
    ]

-- A process is named only from a scan's output that has the end marker among its lines: output that was cut
-- off before it names none, whatever it holds.
pub pick_holder-parse_listener_facts :
    (out : Text) (inodes : List Text) {sp : ServerProcess}
    → pick_holder (parse_listener_facts out) inodes ≡ held_by sp
    → has is_end (split b'\n' out) ≡ true
unfolding parse_listener_facts
pick_holder-parse_listener_facts out inodes h =
    scan_lines-complete (split b'\n' out) _
      (pick_holder-IsHolder (parse_listener_facts out) inodes h).0
