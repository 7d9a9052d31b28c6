-- ===== src/Builder/Dag/Keeps.antt =====
-- What holds in every state that a build can come to.
use forge_zero.Prelude.{ℕ, ◌^◌, ◌<◌, List, [], true, arith, length}
use forge_zero.Builder.Graph.{Graph}
use forge_zero.Builder.Graph.Order.{deps_of, IsAdjacency}
use forge_zero.Builder.Graph.Sorts.{missing-nil, degree_of}
use forge_zero.Builder.Dag.{
  building, telling, Build, start, called, Step, scanned, scan_scheduled, succeeded, lowered,
  marked, unlocked, build_failed, told, ended, Steps, stay, go,
}
use forge_zero.Builder.Dag.Safe.{length-lengths, Safe, Safe-scan, Safe-scan_schedule}
use forge_zero.Builder.Dag.Tells.{Safe-removed, Safe-tell, Safe-call, Safe-succeed}
use forge_zero.Builder.Dag.Lowers.{Safe-lower, Safe-mark, Safe-unlock}

-- A step keeps what holds.
Safe-Step :
    (graph : Graph) (children : ℕ → List ℕ) {s t : Build}
    → IsAdjacency graph children
    → Step (length graph) children s t
    → Safe graph s
    → Safe graph t
Safe-Step graph children adj (scanned s few h) safe = Safe-scan graph s safe few h
Safe-Step graph children adj (scan_scheduled s h) safe = Safe-scan_schedule graph s safe h
Safe-Step graph children adj (succeeded before after v s m e) safe =
    Safe-succeed graph before after s safe (children v) v (λ i h. adj v i h) m e
Safe-Step graph children adj (lowered nodes child rest s m) safe =
    Safe-lower graph s safe nodes child rest m
Safe-Step graph children adj (marked nodes child rest s m) safe =
    Safe-mark graph s safe nodes child rest m
Safe-Step graph children adj (unlocked nodes s m) safe = Safe-unlock graph s safe nodes m
Safe-Step graph children adj (build_failed before after v s m e) safe =
    Safe-removed graph before after s safe (building v) true e
Safe-Step graph children adj (told before after child rest s m e) safe =
    Safe-tell graph before after s safe child rest m e
Safe-Step graph children adj (called before after child rest s e) safe =
    Safe-call graph before after s safe child rest e
Safe-Step graph children adj (ended before after s e) safe =
    Safe-removed graph before after s safe (telling []) s.failed e

pub Safe-Steps :
    (graph : Graph) (children : ℕ → List ℕ) {s t : Build}
    → IsAdjacency graph children
    → Steps (length graph) children s t
    → Safe graph s
    → Safe graph t
Safe-Steps graph children adj (stay s) safe = safe
Safe-Steps graph children adj (go s t u steps step) safe =
    Safe-Step graph children adj step (Safe-Steps graph children adj steps safe)

-- Before the first step.
pub Safe-start :
    (graph : Graph) → ((i : ℕ) → length (deps_of graph i) < 2 ^ 63) → Safe graph (start graph)
Safe-start graph small = record {
  counts = λ i.
      rw (degree_of graph i, missing-nil (deps_of graph i))
        (record {
          some_left = λ k. omega arith;
          none_left = λ k l m. absurd (omega (arith, k, l));
          between = λ k l. absurd (omega (arith, l));
          has_size = λ k. absurd (omega (arith, k));
          no_size = λ k. k;
          few = omega arith;
          small = small i;
        });
  width = length-lengths graph;
  worked = λ i. omega arith;
  seen_built = λ k. absurd (cc);
  asked_built = λ i h. absurd (omega (arith, h));
  unique = λ i. omega arith;
  behind_deps = λ i h. absurd (omega arith);
  inside = λ i h. absurd (omega arith);
}
