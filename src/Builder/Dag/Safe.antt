-- ===== src/Builder/Dag/Safe.antt =====
-- What holds in every state of a build.
use forge_zero.Prelude.{
  ℕ, suc, ◌+◌, ◌≤◌, ◌<◌, ◌≡◌, refl, ap, List, [], ◌∷◌, ◌++◌, Bool, true, false, arith, length, map,
  get_or, ltb, leb, ◌==◌, Bool-cases, inl, inr,
}
use forge_zero.Builder.Graph.{Graph}
use forge_zero.Builder.Graph.Count.{bit, occ, bit-same}
use forge_zero.Builder.Graph.Relax.{missing}
use forge_zero.Builder.Graph.Order.{deps_of, get_or-out}
use forge_zero.Builder.Dag.{
  Task, building, telling, calling, Build, schedule, scan_node, scan_schedule, Mutex, free,
  lowering, testing,
}
use forge_zero.Builder.Dag.Falls.{Pending-built, AllPending}

-- A sum over the tasks.
abbrev pub tally : (ℕ → Task → ℕ) → ℕ → List Task → ℕ
tally f i [] = 0
tally f i (t ∷ rest) = f i t + tally f i rest

pub tally-append :
    (f : ℕ → Task → ℕ) (i : ℕ) (xs ys : List Task)
    → tally f i (xs ++ ys) ≡ tally f i xs + tally f i ys
tally-append f i [] ys = omega arith
tally-append f i (t ∷ xs) ys = omega (arith, tally-append f i xs ys)

-- Whether a task builds a node, and whether it is about to call schedule for it.
abbrev pub works : ℕ → Task → ℕ
works i (building v) = bit i v
works i (telling nodes) = 0
works i (calling child rest) = 0

abbrev pub asks : ℕ → Task → ℕ
asks i (building v) = 0
asks i (telling nodes) = 0
asks i (calling child rest) = bit i child

abbrev pub at_work : ℕ → List Task → ℕ
at_work i tasks = tally works i tasks

abbrev pub asked : ℕ → List Task → ℕ
asked i tasks = tally asks i tasks

-- What the holder of the mutex has still to take off from a count, and whether the count is under way.
abbrev todo : Mutex → ℕ → ℕ
todo free i = 0
todo (lowering nodes rest) i = occ i rest
todo (testing nodes child rest) i = occ i rest

abbrev pub under_way : Mutex → ℕ → ℕ
under_way free i = 0
under_way (lowering nodes rest) i = 0
under_way (testing nodes child rest) i = bit i child

-- The dependencies of a node that its count stands for.
abbrev pub left : Graph → Build → ℕ → ℕ
left graph s i = missing s.completed (deps_of graph i) + todo s.mutex i

pub length-lengths : (graph : Graph) → length (map length graph) ≡ length graph
length-lengths [] = refl
length-lengths (deps ∷ rest) = ap suc (length-lengths rest)

pub has_deps : (graph : Graph) (i : ℕ) → 1 ≤ length (deps_of graph i) → i < length graph
has_deps graph i h = elim (Bool-cases (ltb i (length graph))) [
  | inl q ↦ ground (arith, q)
  | inr q ↦
      let none_there : deps_of graph i ≡ [] = get_or-out graph i [] (ground (arith, q)) in
      absurd (omega (arith, h, ap length none_there))
]

-- The counts are those of the dependencies that are not built or not yet taken off, a node is scheduled at most once, and
-- only behind its dependencies, and it is built by one task at most, and then not again.
pub record Safe (graph : Graph) (s : Build) : Type 0 where
  pub counts :
      AllPending (λ i. length (deps_of graph i)) (left graph s) (under_way s.mutex) s.pending
  pub width : length s.pending ≡ length graph
  pub worked : (i : ℕ) → at_work i s.tasks + occ i s.completed ≤ occ i s.scheduled
  pub seen_built :
      s.seen ≡ true → (missing s.completed (deps_of graph s.scan) ≡ 0) × (s.scan < length graph)
  pub asked_built :
      (i : ℕ)
      → 1 ≤ asked i s.tasks
      → (missing s.completed (deps_of graph i) ≡ 0) × (i < length graph)
  pub unique : (i : ℕ) → occ i s.scheduled ≤ 1
  pub behind_deps : (i : ℕ) → 1 ≤ occ i s.scheduled → missing s.completed (deps_of graph i) ≡ 0
  pub inside : (i : ℕ) → 1 ≤ occ i s.scheduled → i < length graph

pub Safe-schedule :
    (graph : Graph) (idx : ℕ) (s : Build)
    → Safe graph s
    → missing s.completed (deps_of graph idx) ≡ 0
    → idx < length graph
    → Safe graph (schedule idx s)
unfolding schedule
Safe-schedule graph idx s safe built few = elim (Bool-cases (leb 1 (occ idx s.scheduled))) [
  | inl e ↦ rw e safe
  | inr e ↦ rw e (record {
    counts = safe.counts;
    width = safe.width;
    worked = λ i. omega (arith, safe.worked i);
    seen_built = safe.seen_built;
    asked_built = λ i h. safe.asked_built i (omega (arith, h));
    unique = λ i. elim (Bool-cases (i == idx)) [
      | inl q ↦
          let same : i ≡ idx = ground (arith, q) in rw (same, bit-same idx) (ground (arith, e))
      | inr q ↦ ground (arith, q, safe.unique i)
    ];
    behind_deps = λ i h. elim (Bool-cases (i == idx)) [
      | inl q ↦ let same : i ≡ idx = ground (arith, q) in rw same built
      | inr q ↦ safe.behind_deps i (ground (arith, q, h))
    ];
    inside = λ i h. elim (Bool-cases (i == idx)) [
      | inl q ↦ ground (arith, q, few)
      | inr q ↦ safe.inside i (ground (arith, q, h))
    ];
  })
]

-- The loop may go on.
Safe-loop :
    (graph : Graph) (s : Build) (scan : ℕ) (seen : Bool)
    → Safe graph s
    → (seen ≡ true → (missing s.completed (deps_of graph scan) ≡ 0) × (scan < length graph))
    → Safe graph (record s { scan = scan; seen = seen })
Safe-loop graph s scan seen safe h = record {
  counts = safe.counts;
  width = safe.width;
  worked = safe.worked;
  seen_built = h;
  asked_built = safe.asked_built;
  unique = safe.unique;
  behind_deps = safe.behind_deps;
  inside = safe.inside;
}

pub Safe-scan :
    (graph : Graph) (s : Build)
    → Safe graph s
    → s.scan < length graph
    → s.seen ≡ false
    → Safe graph (scan_node s)
unfolding scan_node
Safe-scan graph s safe few unseen = elim (Bool-cases (get_or s.pending s.scan 0 == 0)) [
  | inl e ↦
      let built : left graph s s.scan ≡ 0 =
        Pending-built _ _ _ _ (safe.counts s.scan) (ground (arith, e)) in
      rw e (Safe-loop graph s s.scan true safe (λ k. (omega (arith, built), few)))
  | inr e ↦ rw e (Safe-loop graph s (suc s.scan) s.seen safe (λ k. absurd (cc)))
]

pub Safe-scan_schedule :
    (graph : Graph) (s : Build) → Safe graph s → s.seen ≡ true → Safe graph (scan_schedule s)
unfolding scan_schedule
Safe-scan_schedule graph s safe h =
    let (built, few) = safe.seen_built h in
    Safe-schedule graph s.scan _ (Safe-loop graph s (suc s.scan) false safe (λ k. absurd (cc)))
      built few

-- The tasks may change if no further one builds.
pub Safe-tasks :
    (graph : Graph) (s : Build) (tasks : List Task) (failed : Bool)
    → Safe graph s
    → ((i : ℕ) → at_work i tasks ≤ at_work i s.tasks)
    → ((i : ℕ) → asked i tasks ≤ asked i s.tasks)
    → Safe graph (record s { tasks = tasks; failed = failed })
Safe-tasks graph s tasks failed safe h k = record {
  counts = safe.counts;
  width = safe.width;
  worked = λ i. omega (arith, safe.worked i, h i);
  seen_built = safe.seen_built;
  asked_built = λ i l. safe.asked_built i (omega (arith, l, k i));
  unique = safe.unique;
  behind_deps = safe.behind_deps;
  inside = safe.inside;
}
