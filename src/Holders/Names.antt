-- ===== src/Holders/Names.antt =====
-- pkg/framework/serverprocess.go: the names of the processes that hold a socket.
use mathlib.Core.Path.{subst}
use nfs_verification.Holders.Facts.{ListenerFacts}
use nfs_verification.Holders.Picks.{
  process_name, matchable_by_name, insert_pid, holding, ServerProcess, held_by, all_named,
  all_matchable, found_holder, pick_among, pick_holder,
}
use nfs_verification.Prelude.{
  ◌≡◌, refl, ap, ◌∙◌, Bool, true, false, not, ◌&&◌, ◌||◌, List, [], ◌∷◌, Bool-cases, inl, inr,
  arith, ℤ, eq_ℤ, eq_ℤ_iff, sort_ints, sort_ints-IsSorted, IsSorted, has, has-sort_ints, All,
  All-map,
}
use nfs_verification.Text.Equality.{eq_text_iff, eq_text_refl}
use nfs_verification.Text.{Text, codes, eq_text, is_empty, join}

-- The scan saw the pid hold one of the sockets.
abbrev pub holds : ListenerFacts → List Text → ℤ → Bool
holds f inodes n = has (λ e. has (λ i. eq_text i e.0) inodes && eq_ℤ e.1 n) f.holders

insert_pid-has :
    (p n : ℤ) (ns : List ℤ)
    → has (λ m. eq_ℤ m n) (insert_pid p ns) ≡ (eq_ℤ p n || has (λ m. eq_ℤ m n) ns)
unfolding insert_pid
insert_pid-has p n ns = elim (Bool-cases (has (λ m. eq_ℤ m p) ns)) [
  | inr e ↦ rw e refl
  | inl e ↦ rw e (same e)
]
  where
    same :
        has (λ m. eq_ℤ m p) ns ≡ true
        → has (λ m. eq_ℤ m n) ns ≡ (eq_ℤ p n || has (λ m. eq_ℤ m n) ns)
    same h = elim (Bool-cases (eq_ℤ p n)) [
      | inr d ↦ rw d refl
      | inl d ↦ rw d (subst (λ q. has (λ m. eq_ℤ m q) ns ≡ true) ((eq_ℤ_iff p n).0 d) h)
    ]

has-holding :
    (es : List (Text × ℤ)) (inodes : List Text) (n : ℤ)
    → has (λ m. eq_ℤ m n) (holding es inodes)
      ≡ has (λ e. has (λ i. eq_text i e.0) inodes && eq_ℤ e.1 n) es
unfolding holding
has-holding [] inodes n = refl
has-holding ((inode, pid) ∷ es) inodes n = elim (Bool-cases (has (λ i. eq_text i inode) inodes)) [
  | inl e ↦
      rw e (
        insert_pid-has pid n (holding es inodes) ∙ ap (◌||◌ (eq_ℤ pid n)) (has-holding es inodes n))
  | inr e ↦ rw e (has-holding es inodes n)
]

-- A signal by the name reaches the pid, and the pid goes by it.
abbrev goes_by : ListenerFacts → Text → ℤ → Bool
goes_by f name n = eq_text (process_name f n) name && matchable_by_name f n name

all_go_by :
    (f : ListenerFacts) (name : Text) (ns : List ℤ)
    → all_named f name ns ≡ true
    → all_matchable f name ns ≡ true
    → has (λ n. not (goes_by f name n)) ns ≡ false
all_go_by f name [] h k = refl
all_go_by f name (n ∷ ns) h k = ground (arith, all_go_by f name ns)

All-has : (p : ℤ → Bool) (ns : List ℤ) → has (λ n. not (p n)) ns ≡ false → All (λ n. p n ≡ true) ns
All-has p [] h = tt
All-has p (n ∷ ns) h = (ground arith, All-has p ns (ground arith))

-- What a process is that is returned for the sockets.
abbrev pub StartsWith : ℤ → List ℤ → Type 0
StartsWith n [] = ⊥
StartsWith n (m ∷ ms) = m ≡ n

abbrev pub GoesBy : ListenerFacts → Text → ℤ → Type 0
GoesBy f name n = (process_name f n ≡ name) × (matchable_by_name f n name ≡ true)

-- A process as it is returned for the sockets `inodes`.
abbrev pub IsHolder : ListenerFacts → List Text → List ℤ → ServerProcess → Type 0
IsHolder f inodes pids sp =
    (is_empty sp.name ≡ false)
    × ((n : ℤ) → has (λ m. eq_ℤ m n) sp.pids ≡ has (λ m. eq_ℤ m n) pids)
    × IsSorted sp.pids
    × StartsWith sp.pid sp.pids
    × All (GoesBy f sp.name) sp.pids

found_holder-IsHolder :
    (f : ListenerFacts) (name : Text) (inodes : List Text) (pids sorted : List ℤ)
    (sp : ServerProcess)
    → is_empty name ≡ false
    → ((n : ℤ) → has (λ m. eq_ℤ m n) sorted ≡ has (λ m. eq_ℤ m n) pids)
    → IsSorted sorted
    → All (GoesBy f name) sorted
    → found_holder name inodes sorted ≡ held_by sp
    → IsHolder f inodes pids sp
unfolding found_holder
found_holder-IsHolder f name inodes pids [] sp e h s a k = cc
found_holder-IsHolder f name inodes pids (n ∷ ns) sp e h s a k =
    let same : record { name = name; pid = n; pids = n ∷ ns; inode = join (codes ",") inodes }
        ≡ sp =
      cc in
    subst (IsHolder f inodes pids) same (e, h, s, refl, a)

GoesBy-goes_by :
    (f : ListenerFacts) (name : Text) (n : ℤ) → goes_by f name n ≡ true → GoesBy f name n
GoesBy-goes_by f name n h = ground (arith, eq_text_iff (process_name f n) name)

pick_among-IsHolder :
    (f : ListenerFacts) (inodes : List Text) (pids : List ℤ) (sp : ServerProcess)
    → pick_among f inodes pids ≡ held_by sp
    → IsHolder f inodes pids sp
unfolding pick_among
pick_among-IsHolder f inodes [] sp h = elim (Bool-cases f.no_readlink) [
  | inl e ↦ cc (simp e at h)
  | inr e ↦ cc (simp e at h)
]
pick_among-IsHolder f inodes (n ∷ ns) sp h = elim (Bool-cases (all_named f (process_name f n) ns)) [
  | inr a ↦ cc (rw a at h)
  | inl a ↦ elim (Bool-cases (is_empty (process_name f n))) [
    | inl e ↦ cc (rw (a, e) at h)
    | inr e ↦ elim (Bool-cases (all_matchable f (process_name f n) (n ∷ ns))) [
      | inr m ↦ cc (rw (a, e, m) at h)
      | inl m ↦
          found_holder-IsHolder f (process_name f n) inodes (n ∷ ns) (sort_ints (n ∷ ns)) sp e
            (λ k. has-sort_ints (λ q. eq_ℤ q k) (n ∷ ns)) (sort_ints-IsSorted (n ∷ ns))
            (All-map _ _ (sort_ints (n ∷ ns)) (GoesBy-goes_by f (process_name f n))
              (All-has (goes_by f (process_name f n)) (sort_ints (n ∷ ns)) (fine a m)))
            (rw (a, e, m) at h)
    ]
  ]
]
  where
    fine :
        all_named f (process_name f n) ns ≡ true
        → all_matchable f (process_name f n) (n ∷ ns) ≡ true
        → has (λ q. not (goes_by f (process_name f n) q)) (sort_ints (n ∷ ns)) ≡ false
    fine a m =
        has-sort_ints (λ q. not (goes_by f (process_name f n) q)) (n ∷ ns)
        ∙ all_go_by f (process_name f n) (n ∷ ns) (ground (arith, eq_text_refl (process_name f n)))
            m

-- Where `pickHolder` returns a process, the scan ran to its end, the pids returned are in order exactly
-- those that the scan saw hold one of the sockets, the lowest of them is named, and every one of them goes
-- by the name, which is not empty and is found by a match on the command line.
pub pick_holder-IsHolder :
    (f : ListenerFacts) (inodes : List Text) {sp : ServerProcess}
    → pick_holder f inodes ≡ held_by sp
    → (f.complete ≡ true)
      × (is_empty sp.name ≡ false)
      × ((n : ℤ) → has (λ m. eq_ℤ m n) sp.pids ≡ holds f inodes n)
      × IsSorted sp.pids
      × StartsWith sp.pid sp.pids
      × All (GoesBy f sp.name) sp.pids
unfolding pick_holder
pick_holder-IsHolder f inodes {sp = sp} h = elim (Bool-cases f.complete) [
  | inr c ↦ cc (simp c at h)
  | inl c ↦
      let k = pick_among-IsHolder f inodes (holding f.holders inodes) sp (simp c at h) in
      (c, k.0, (λ n. k.1 n ∙ has-holding f.holders inodes n), k.2, k.3, k.4)
]
