-- ===== src/Builder/Dag/Lowers.antt =====
-- What the holder of the mutex does to the counts keeps what holds.
use forge_zero.Prelude.{
  ℕ, ◌+◌, ◌-◌, ◌≤◌, ◌<◌, ◌≡◌, refl, ◌∙◌, List, [], ◌∷◌, arith, length, length-set, get_or, ◌==◌,
  Bool-cases, inl, inr,
}
use forge_zero.Builder.Graph.{Graph}
use forge_zero.Builder.Graph.Count.{bit, occ, bit-same}
use forge_zero.Builder.Graph.Relax.{missing}
use forge_zero.Builder.Graph.Order.{deps_of}
use forge_zero.Builder.Dag.{Build, ready, lowering, testing, lower_count, mark_ready, unlock}
use forge_zero.Builder.Dag.Falls.{
  Pending, Pending-built, Pending-mark, Pending-stays, AllPending, AllPending-set, AllPending-lower,
}
use forge_zero.Builder.Dag.Safe.{has_deps, Safe}

module _ (graph : Graph) (s : Build) (safe : Safe graph s) where
  pub Safe-lower :
      (children : List ℕ) (child : ℕ) (rest : List ℕ)
      → s.mutex ≡ lowering children (child ∷ rest)
      → Safe graph (lower_count children child rest s)
  unfolding lower_count
  Safe-lower children child rest m =
      let old : ℕ → ℕ = λ i. missing s.completed (deps_of graph i) + (bit i child + occ i rest) in
      let counts : AllPending (λ i. length (deps_of graph i)) old (λ i. 0) s.pending =
        rw m at safe.counts in
      let more : 1 ≤ old child = omega (arith, bit-same child) in
      let some_deps : 1 ≤ length (deps_of graph child) = omega (arith, more, (counts child).few) in
      record {
        counts = λ i.
            let same : old i - bit i child ≡ missing s.completed (deps_of graph i) + occ i rest =
              omega arith in
            rw same at (
              AllPending-lower child (λ j. length (deps_of graph j)) old s.pending counts
                (rw safe.width (has_deps graph child some_deps)) more i);
        width = length-set s.pending child _ ∙ safe.width;
        worked = safe.worked;
        seen_built = safe.seen_built;
        asked_built = safe.asked_built;
        unique = safe.unique;
        behind_deps = safe.behind_deps;
        inside = safe.inside;
      }

  pub Safe-mark :
      (children : List ℕ) (child : ℕ) (rest : List ℕ)
      → s.mutex ≡ testing children child rest
      → Safe graph (mark_ready children child rest s)
  unfolding mark_ready
  Safe-mark children child rest m =
      let size : ℕ → ℕ = λ i. length (deps_of graph i) in
      let now : ℕ → ℕ = λ i. missing s.completed (deps_of graph i) + occ i rest in
      let counts : AllPending size now (λ i. bit i child) s.pending = rw m at safe.counts in
      let here : Pending (size child) (now child) 1 (get_or s.pending child 0) =
        rw (bit-same child) at (counts child) in
      let inside : child < length s.pending =
        rw safe.width (has_deps graph child (here.has_size (omega arith))) in
      elim (Bool-cases (get_or s.pending child 0 == 0)) [
        | inl e ↦ rw e (record {
          counts =
              AllPending-set child ready size now now (λ i. bit i child) (λ i. 0) s.pending counts
                inside
                (Pending-mark _ _ _ _ ready here (Pending-built _ _ _ _ here (ground (arith, e)))
                  (here.has_size (omega arith)) (omega arith))
                (λ i q. (refl, ground (arith, q)));
          width = length-set s.pending child ready ∙ safe.width;
          worked = safe.worked;
          seen_built = safe.seen_built;
          asked_built = safe.asked_built;
          unique = safe.unique;
          behind_deps = safe.behind_deps;
          inside = safe.inside;
        })
        | inr e ↦ rw e (record {
          counts = λ i. elim (Bool-cases (i == child)) [
            | inl q ↦
                let same : i ≡ child = ground (arith, q) in
                rw same (Pending-stays _ _ _ _ here (omega arith) (ground (arith, e)))
            | inr q ↦
                let zero_there : bit i child ≡ 0 = ground (arith, q) in rw zero_there at (counts i)
          ];
          width = safe.width;
          worked = safe.worked;
          seen_built = safe.seen_built;
          asked_built = safe.asked_built;
          unique = safe.unique;
          behind_deps = safe.behind_deps;
          inside = safe.inside;
        })
      ]

  pub Safe-unlock :
      (children : List ℕ) → s.mutex ≡ lowering children [] → Safe graph (unlock children s)
  unfolding unlock
  Safe-unlock children m = record {
    counts = rw m at safe.counts;
    width = safe.width;
    worked = λ i. omega (arith, safe.worked i);
    seen_built = safe.seen_built;
    asked_built = λ i h. safe.asked_built i (omega (arith, h));
    unique = safe.unique;
    behind_deps = safe.behind_deps;
    inside = safe.inside;
  }
