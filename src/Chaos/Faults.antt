-- ===== src/Chaos/Faults.antt =====
-- pkg/chaos/chaos.go: what a fault does to the cluster, and what is recorded of it.
use mathlib.Core.Path.{subst}
use nfs_verification.Chaos.Targets.{FirstOf, resolve_process-recorded}
use nfs_verification.Chaos.Pods.{Pod, all_ready, pod_ready, Target, running}
use nfs_verification.Chaos.Processes.{
  ServerInfo, Chosen, process, resolve_process, usable_as_pattern,
}
use nfs_verification.Chaos.Kills.{
  Agent, Kill, killed, kill_event, kill_server_process, kill_chosen, kill_pattern, signal_listed,
  signal_result, Read, missing, read_failed, present, server_gone, server_replaced,
}
use nfs_verification.Prelude.{
  ℕ, ◌≡◌, ◌≢◌, ◌↔◌, refl, sym, ap, ◌∙◌, Bool, All, true, false, not, ◌||◌, List, [], ◌∷◌, ◌++◌,
  Option, none, some, ◌⊎◌, inl, inr, Bool-cases, arith, ◌==◌,
}
use nfs_verification.Text.Equality.{eq_text_iff}
use nfs_verification.Text.{Text, eq_text}

-- The agent lists a process that matches `pattern` on the target's node.
abbrev pub Matches : Option Agent → Target → Text → Type 0
Matches none t pattern = ⊥
Matches (some agent) t pattern =
    (p : Text) × (ps : List Text) × (agent.0 t.node pattern ≡ some (p ∷ ps))

signal_result-signalled :
    (t : Target) (pattern signal : Text) (n : Option ℕ) {s : Text}
    → (signal_result t pattern signal n).signalled ≡ some s
    → s ≡ pattern
unfolding signal_result
signal_result-signalled t pattern signal none h = cc
signal_result-signalled t pattern signal (some n) h = cc

signal_listed-signalled :
    (agent : Agent) (t : Target) (pattern signal : Text) (procs : Option (List Text)) {s : Text}
    → (signal_listed agent t pattern signal procs).signalled ≡ some s
    → (s ≡ pattern) × ((p : Text) × (ps : List Text) × (procs ≡ some (p ∷ ps)))
unfolding signal_listed
signal_listed-signalled agent t pattern signal none h = cc
signal_listed-signalled agent t pattern signal (some []) h = cc
signal_listed-signalled agent t pattern signal (some (p ∷ ps)) h =
    (signal_result-signalled t pattern signal (agent.1 t.node pattern signal) h, (p, ps, refl))

kill_pattern-signalled :
    (agent : Option Agent) (t : Target) (pattern signal : Text) {s : Text}
    → (kill_pattern agent t pattern signal).signalled ≡ some s
    → (s ≡ pattern) × Matches agent t pattern
unfolding kill_pattern
kill_pattern-signalled none t pattern signal h = cc
kill_pattern-signalled (some agent) t pattern signal h =
    signal_listed-signalled agent t pattern signal (agent.0 t.node pattern) h

kill_chosen-signalled :
    (agent : Option Agent) (t : Target) (signal : Text) (c : Chosen) {s : Text}
    → (kill_chosen agent t signal c).signalled ≡ some s
    → (c ≡ process s) × Matches agent t s
unfolding kill_chosen
kill_chosen-signalled agent t signal (process pattern) h =
    let (e, m) = kill_pattern-signalled agent t pattern signal h in
    (ap process (sym e), subst (Matches agent t) (sym e) m)
kill_chosen-signalled agent t signal _ h = cc

-- What preflight recorded when a process is signalled by a name: the first record of the target's
-- namespace and pod has the images that the target runs, and names that process.
abbrev pub RecordedFor : Option (List ServerInfo) → Target → Text → Type 0
RecordedFor servers t name =
    (ss : List ServerInfo) × (s : ServerInfo) × (servers ≡ some ss)
    × FirstOf t ss s
    × (s.images ≡ t.images)
    × (s.process ≡ name)

-- A signal is sent only by the name of the process that preflight recorded first for a pod of this
-- namespace and name, with the images that the target runs, where the name is not too generic and a
-- process that matches it was listed on the target's node before.
pub kill_server_process-signalled :
    (agent : Option Agent) (servers : Option (List ServerInfo)) (t : Target) (signal : Text)
    {s : Text}
    → (kill_server_process agent servers t signal).signalled ≡ some s
    → (resolve_process servers t ≡ process s)
      × RecordedFor servers t s
      × (usable_as_pattern s ≡ true)
      × Matches agent t s
unfolding kill_server_process
kill_server_process-signalled agent servers t signal h =
    let (chosen, listed) = kill_chosen-signalled agent t signal (resolve_process servers t) h in
    let (ss, r, e, first, images, name, usable) = resolve_process-recorded servers t chosen in
    (chosen, (ss, r, e, first, images, name), usable, listed)

-- What a call did that reports `n` processes killed.
abbrev pub HasKilled : Option Agent → Target → Text → ℕ → Kill → Type 0
HasKilled none t signal n k = ⊥
HasKilled (some agent) t signal n k =
    (s : Text) × (k.signalled ≡ some s)
    × (agent.1 t.node s signal ≡ some n)
    × (n ≢ 0)
    × (k.fault ≡ some (kill_event t signal))

module _ (agent : Agent) (t : Target) (pattern signal : Text) where
  signal_result-killed :
      (m : Option ℕ) (n : ℕ)
      → agent.1 t.node pattern signal ≡ m
      → (signal_result t pattern signal m).outcome ≡ killed n
      → HasKilled (some agent) t signal n (signal_result t pattern signal m)
  unfolding signal_result
  signal_result-killed none n e h = cc
  signal_result-killed (some m) n e h = elim (Bool-cases (m == 0)) [
    | inl z ↦ cc (rw z at h)
    | inr z ↦
        let same : m ≡ n = cc (rw z at h) in
        (pattern, refl, e ∙ ap some same, (λ o. ground arith), refl)
  ]

  signal_listed-killed :
      (procs : Option (List Text)) (n : ℕ)
      → (signal_listed agent t pattern signal procs).outcome ≡ killed n
      → HasKilled (some agent) t signal n (signal_listed agent t pattern signal procs)
  unfolding signal_listed
  signal_listed-killed none n h = cc
  signal_listed-killed (some []) n h = cc
  signal_listed-killed (some (p ∷ ps)) n h =
      signal_result-killed (agent.1 t.node pattern signal) n refl h

kill_chosen-killed :
    (agent : Option Agent) (t : Target) (signal : Text) (c : Chosen) (n : ℕ)
    → (kill_chosen agent t signal c).outcome ≡ killed n
    → HasKilled agent t signal n (kill_chosen agent t signal c)
unfolding kill_chosen kill_pattern
kill_chosen-killed none t signal (process pattern) n h = cc
kill_chosen-killed (some agent) t signal (process pattern) n h =
    signal_listed-killed agent t pattern signal (agent.0 t.node pattern) n h
kill_chosen-killed agent t signal _ n h = cc

-- A call that reports `n` processes killed was told by the agent that its signal reached `n`, which is
-- not 0, and has recorded the fault at the target.
pub kill_server_process-killed :
    (agent : Option Agent) (servers : Option (List ServerInfo)) (t : Target) (signal : Text) (n : ℕ)
    → (kill_server_process agent servers t signal).outcome ≡ killed n
    → HasKilled agent t signal n (kill_server_process agent servers t signal)
unfolding kill_server_process
kill_server_process-killed agent servers t signal n h =
    kill_chosen-killed agent t signal (resolve_process servers t) n h

-- A pod that counts as the replacement of `old`.
abbrev pub Replaces : Target → Pod → Type 0
Replaces old p =
    ((p.uid ≢ old.uid) ⊎ (p.name ≢ old.pod))
    × (p.deleting ≡ false)
    × (p.phase ≡ running)
    × (p.readiness ≢ [])
    × All (λ b. b ≡ true) p.readiness

differs : (a b : Text) → eq_text a b ≡ false → a ≢ b
differs a b h e = cc ((eq_text_iff a b).1 e)

all_ready-All : (bs : List Bool) → all_ready bs ≡ true → All (λ b. b ≡ true) bs
unfolding all_ready
all_ready-All [] h = tt
all_ready-All (true ∷ bs) h = (refl, all_ready-All bs h)
all_ready-All (false ∷ bs) h = cc

replaces :
    (old : Target) (p : Pod)
    → (not (eq_text p.uid old.uid) || not (eq_text p.name old.pod)) ≡ true
    → pod_ready p ≡ true
    → Replaces old p
unfolding pod_ready
replaces old p h r = (
  elim (Bool-cases (eq_text p.uid old.uid)) [
    | inr u ↦ inl (differs p.uid old.uid u)
    | inl u ↦ inr (differs p.name old.pod (ground arith))
  ],
  ground arith,
  ground (arith, eq_text_iff p.phase running),
  λ e. ground arith,
  all_ready-All p.readiness (ground arith),
)

-- A replacement stands among the pods.
abbrev pub HasReplacement : Target → List Pod → Type 0
HasReplacement old ps =
    (pre : List Pod) × (p : Pod) × (post : List Pod) × (ps ≡ pre ++ p ∷ post) × Replaces old p

-- The wait for a replacement ends only at a pod with another UID or another name than the target's that
-- is running, is not being deleted, and reports a container or more, each of them ready.
pub server_replaced-Replaces :
    (old : Target) (ps : List Pod) → server_replaced old ps ≡ true → HasReplacement old ps
unfolding server_replaced
server_replaced-Replaces old [] h = cc
server_replaced-Replaces old (p ∷ ps) h =
    elim (Bool-cases (not (eq_text p.uid old.uid) || not (eq_text p.name old.pod))) [
      | inr u ↦ later (server_replaced-Replaces old ps (rw u at h))
      | inl u ↦ elim (Bool-cases (pod_ready p)) [
        | inl r ↦ ([], p, ps, refl, replaces old p u r)
        | inr r ↦ later (server_replaced-Replaces old ps (rw (u, r) at h))
      ]
    ]
  where
    later : HasReplacement old ps → HasReplacement old (p ∷ ps)
    later (pre, q, post, e, k) = (p ∷ pre, q, post, ap (◌∷◌ p) e, k)

-- The wait for the target to go ends exactly where the API has no pod of its name, or one with another
-- UID; a read that fails otherwise does not end it.
pub server_gone_iff :
    (t : Target) (r : Read)
    → ((server_gone t r).0 ≡ true)
      ↔ ((r ≡ missing) ⊎ ((p : Pod) × (r ≡ present p) × (p.uid ≢ t.uid)))
unfolding server_gone
server_gone_iff t missing = ((λ _. inl refl), (λ _. refl))
server_gone_iff t read_failed = ((λ h. cc), (λ h. elim h [ inl e ↦ cc | inr (p, e, _) ↦ cc ]))
server_gone_iff t (present p) = elim (Bool-cases (eq_text p.uid t.uid)) [
  | inr u ↦ rw u ((λ _. inr (p, refl, differs p.uid t.uid u)), (λ _. refl))
  | inl u ↦ rw u (
    (λ h. ground arith),
    (λ h. elim h [
      | inl e ↦ cc
      | inr (q, e, ne) ↦ let same : p ≡ q = cc in absurd (ne (cc ((eq_text_iff p.uid t.uid).0 u)))
    ]),
  )
]
