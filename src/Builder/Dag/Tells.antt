-- ===== src/Builder/Dag/Tells.antt =====
-- What the tasks do keeps what holds.
use forge_zero.Prelude.{
  ℕ, ◌+◌, ◌≤◌, ◌<◌, ◌≡◌, refl, sym, ap, ◌∙◌, List, ◌∷◌, ◌++◌, Bool, true, arith, length, length-set,
  get_or, set, ◌==◌, Bool-cases, inl, inr,
}
use forge_zero.Builder.Graph.{Graph}
use forge_zero.Builder.Graph.Count.{bit, occ, bit-same}
use forge_zero.Builder.Graph.Relax.{missing, missing-step}
use forge_zero.Builder.Graph.Order.{deps_of}
use forge_zero.Builder.Dag.{
  Task, building, telling, calling, Build, ready, taken, free, succeed, call_schedule, tell,
}
use forge_zero.Builder.Dag.Falls.{Pending-ready, Pending-mark, AllPending-set}
use forge_zero.Builder.Dag.Safe.{
  tally, tally-append, works, asks, at_work, asked, under_way, left, has_deps, Safe, Safe-schedule,
  Safe-tasks,
}

module _ (graph : Graph) (before after : List Task) (s : Build) (safe : Safe graph s) where
  fewer :
      (f : ℕ → Task → ℕ) (t u : Task) (i : ℕ)
      → s.tasks ≡ before ++ t ∷ after
      → f i u ≤ f i t
      → tally f i (before ++ u ∷ after) ≤ tally f i s.tasks
  fewer f t u i e h =
      rw e
        (omega (arith, tally-append f i before (t ∷ after), tally-append f i before (u ∷ after), h))

  removed :
      (f : ℕ → Task → ℕ) (t : Task) (i : ℕ)
      → s.tasks ≡ before ++ t ∷ after
      → tally f i (before ++ after) ≤ tally f i s.tasks
  removed f t i e =
      rw e (omega (arith, tally-append f i before (t ∷ after), tally-append f i before after))

  -- A task that may tell its dependents more, or end, and neither builds a node nor asks for one.
  Safe-replaced :
      (t u : Task) (failed : Bool)
      → s.tasks ≡ before ++ t ∷ after
      → ((i : ℕ) → works i u ≤ works i t)
      → ((i : ℕ) → asks i u ≤ asks i t)
      → Safe graph (record s { tasks = before ++ u ∷ after; failed = failed })
  Safe-replaced t u failed e h k =
      Safe-tasks graph s (before ++ u ∷ after) failed safe (λ i. fewer works t u i e (h i))
        (λ i. fewer asks t u i e (k i))

  pub Safe-removed :
      (t : Task) (failed : Bool)
      → s.tasks ≡ before ++ t ∷ after
      → Safe graph (record s { tasks = before ++ after; failed = failed })
  Safe-removed t failed e =
      Safe-tasks graph s (before ++ after) failed safe (λ i. removed works t i e)
        (λ i. removed asks t i e)

  -- A count that is marked is marked as taken.
  Safe-taken :
      (child : ℕ) (next : Build)
      → Safe graph next
      → next.mutex ≡ free
      → get_or next.pending child 0 ≡ ready
      → Safe graph (record next { pending = set next.pending child taken })
  Safe-taken child next same m mark =
      let (none_left, some_deps) = Pending-ready _ _ _ _ (same.counts child) mark in
      record {
        counts =
            AllPending-set child taken _ (left graph next) (left graph next) (under_way next.mutex)
              (under_way next.mutex) next.pending same.counts
              (rw same.width (has_deps graph child some_deps))
              (rw m (
                Pending-mark _ _ _ _ taken (rw m at (same.counts child)) (rw m at none_left)
                  some_deps (omega arith)))
              (λ i e. (refl, refl));
        width = length-set next.pending child taken ∙ same.width;
        worked = same.worked;
        seen_built = same.seen_built;
        asked_built = same.asked_built;
        unique = same.unique;
        behind_deps = same.behind_deps;
        inside = same.inside;
      }

  -- A task that is about to call schedule for a node whose dependencies are built.
  Safe-ask :
      (child : ℕ) (rest : List ℕ)
      → s.tasks ≡ before ++ telling (child ∷ rest) ∷ after
      → missing s.completed (deps_of graph child) ≡ 0
      → child < length graph
      → Safe graph (record s { tasks = before ++ calling child rest ∷ after })
  Safe-ask child rest e built few = record {
    counts = safe.counts;
    width = safe.width;
    worked = λ i. omega (
      arith,
      safe.worked i,
      fewer works (telling (child ∷ rest)) (calling child rest) i e (omega arith),
    );
    seen_built = safe.seen_built;
    asked_built = λ i h. elim (Bool-cases (i == child)) [
      | inl q ↦ let same : i ≡ child = ground (arith, q) in rw same (built, few)
      | inr q ↦
          let other : bit i child ≡ 0 = ground (arith, q) in
          safe.asked_built i (
            omega (
              arith,
              h,
              fewer asks (telling (child ∷ rest)) (calling child rest) i e (omega (arith, other)),
            ))
    ];
    unique = safe.unique;
    behind_deps = safe.behind_deps;
    inside = safe.inside;
  }

  pub Safe-tell :
      (child : ℕ) (rest : List ℕ)
      → s.mutex ≡ free
      → s.tasks ≡ before ++ telling (child ∷ rest) ∷ after
      → Safe graph (tell child rest before after s)
  unfolding tell
  Safe-tell child rest m e = elim (Bool-cases (get_or s.pending child 0 == ready)) [
    | inl q ↦
        let mark : get_or s.pending child 0 ≡ ready = ground (arith, q) in
        let (none_left, some_deps) = Pending-ready _ _ _ _ (safe.counts child) mark in
        rw q (
          Safe-taken child (record s { tasks = before ++ calling child rest ∷ after })
            (Safe-ask child rest e (omega (arith, none_left)) (has_deps graph child some_deps)) m
            mark)
    | inr q ↦ rw q (
        Safe-replaced (telling (child ∷ rest)) (telling rest) s.failed e (λ i. omega arith)
          (λ i. omega arith))
  ]

  pub Safe-call :
      (child : ℕ) (rest : List ℕ)
      → s.tasks ≡ before ++ calling child rest ∷ after
      → Safe graph (call_schedule child rest before after s)
  unfolding call_schedule
  Safe-call child rest e =
      let one : 1 ≤ asked child s.tasks = rw e (
        omega
          (arith, tally-append asks child before (calling child rest ∷ after), bit-same child)) in
      let (built, few) = safe.asked_built child one in
      Safe-schedule graph child _
        (Safe-replaced (calling child rest) (telling rest) s.failed e (λ i. omega arith)
          (λ i. omega arith))
        built few

  pub Safe-succeed :
      (children : List ℕ) (v : ℕ)
      → ((i : ℕ) → v < length graph → occ i children ≡ occ v (deps_of graph i))
      → s.mutex ≡ free
      → s.tasks ≡ before ++ building v ∷ after
      → Safe graph (succeed children v before after s)
  unfolding succeed
  Safe-succeed children v adj m e =
      let work : (i : ℕ) → at_work i s.tasks ≡ at_work i before + (bit i v + at_work i after) =
        λ i. rw e (tally-append works i before (building v ∷ after)) in
      let held_work : (i : ℕ) → at_work i (before ++ after) ≡ at_work i before + at_work i after =
        λ i. tally-append works i before after in
      let running : 1 ≤ occ v s.scheduled = omega (arith, safe.worked v, work v, bit-same v) in
      let new : occ v s.completed ≡ 0 =
        omega (arith, safe.worked v, safe.unique v, work v, bit-same v) in
      let step : (i : ℕ)
          → missing s.completed (deps_of graph i)
            ≡ missing (v ∷ s.completed) (deps_of graph i) + occ i children =
        λ i.
          missing-step v s.completed (deps_of graph i) new
          ∙ ap (λ k. missing (v ∷ s.completed) (deps_of graph i) + k)
              (sym (adj i (safe.inside v running))) in
      elim (Bool-cases s.failed) [
        | inl q ↦ rw q (
            Safe-replaced (building v) (telling children) true e (λ i. omega arith)
              (λ i. omega arith))
        | inr q ↦ rw q (record {
          counts = λ i.
              let same : missing s.completed (deps_of graph i) + 0
                  ≡ missing (v ∷ s.completed) (deps_of graph i) + occ i children =
                omega (arith, step i) in
              rw same at (rw m at (safe.counts i));
          width = safe.width;
          worked = λ i. omega (arith, safe.worked i, work i, held_work i);
          seen_built =
              λ k. let (built, few) = safe.seen_built k in (omega (arith, step s.scan, built), few);
          asked_built = λ i h.
              let (built, few) =
                safe.asked_built i (omega (arith, h, removed asks (building v) i e)) in
              (omega (arith, step i, built), few);
          unique = safe.unique;
          behind_deps = λ i h. omega (arith, step i, safe.behind_deps i h);
          inside = safe.inside;
        })
      ]
