-- ===== src/Builder/Graph/Relax.antt =====
-- What the loop over the dependents of a node does to the degrees and to the queue.
use forge_zero.Prelude.{
  ℕ, ◌+◌, ◌-◌, ◌*◌, ◌%◌, ◌^◌, ◌≤◌, ◌<◌, ◌≡◌, refl, ap, List, [], ◌∷◌, ◌++◌, arith, length, ◌==◌,
  if◌then◌else◌, Bool-cases, inl, inr, get_or, set, get_or-set_same, get_or-set_other, get_or_bound,
}
use forge_zero.Builder.Graph.{relax}
use forge_zero.Builder.Graph.Count.{bit, occ, occ-append, bit-same}

-- The dependencies that are not among the numbers of a list.
abbrev pub missing : List ℕ → List ℕ → ℕ
missing placed [] = 0
missing placed (d ∷ deps) = bit (occ d placed) 0 + missing placed deps

-- A further number takes away as many as it occurs.
pub missing-step :
    (v : ℕ) (placed deps : List ℕ)
    → occ v placed ≡ 0
    → missing placed deps ≡ missing (v ∷ placed) deps + occ v deps
missing-step v placed [] h = refl
missing-step v placed (d ∷ deps) h = elim (Bool-cases (d == v)) [
  | inl e ↦
      let same : d ≡ v = ground (arith, e) in
      rw same (ground (arith, missing-step v placed deps h, h, bit-same v))
  | inr e ↦ ground (arith, missing-step v placed deps h, e)
]

get_or-set :
    (xs : List ℕ) (i j v : ℕ)
    → i < length xs
    → get_or (set xs i v) j 0 ≡ (if i == j then v else get_or xs j 0)
get_or-set xs i j v h = elim (Bool-cases (i == j)) [
  | inl e ↦
      let same : i ≡ j = ground (arith, e) in
      rw same (ground (arith, get_or-set_same 0 xs j v (omega arith)))
  | inr e ↦ rw e (get_or-set_other 0 xs i j v (λ q. ground (arith, e, q)))
]

occ-queued :
    (i next left : ℕ) (queue : List ℕ)
    → occ i (if left == 0 then queue ++ next ∷ [] else queue)
      ≡ occ i queue + bit i next * bit left 0
occ-queued i next left queue = elim (Bool-cases (left == 0)) [
  | inl e ↦ rw e (ground (arith, occ-append i queue (next ∷ [])))
  | inr e ↦ rw e (omega arith)
]

lower_bound :
    (j next left degree old more new : ℕ)
    → bit j next + more ≤ old
    → left ≡ degree - 1
    → new ≡ (if next == j then left else old)
    → (next ≡ j → degree ≡ old)
    → more ≤ new
lower_bound j next left degree old more new h l e s = ground (arith, e, s)

relaxed :
    (i next left degree old new0 new more o o0 o' : ℕ)
    → left ≡ degree - 1
    → 1 ≤ degree
    → new0 ≡ (if next == i then left else old)
    → (next ≡ i → degree ≡ old)
    → new + more ≡ new0
    → o' + bit new0 0 ≡ o0 + bit new 0
    → o0 ≡ o + bit i next * bit left 0
    → (new + (bit i next + more) ≡ old) × (o' + bit old 0 ≡ o + bit new 0)
relaxed i next left degree old new0 new more o o0 o' l d e s f g q = elim (Bool-cases (next == i)) [
  | inl same ↦ ground (arith, same, e, s, q, g)
  | inr other ↦ ground (arith, other, e, q, g)
]

-- Each degree falls by the number of times its node is met, if it is not below that, and the queue
-- gets the nodes whose degrees become 0.
pub relax_exact :
    (nodes degrees queue : List ℕ)
    → ((i : ℕ) → get_or degrees i 0 < 2 ^ 64)
    → ((i : ℕ) → occ i nodes ≤ get_or degrees i 0)
    → (i : ℕ)
    → (get_or (relax nodes degrees queue).0 i 0 + occ i nodes ≡ get_or degrees i 0)
      × (occ i (relax nodes degrees queue).1 + bit (get_or degrees i 0) 0
          ≡ occ i queue + bit (get_or (relax nodes degrees queue).0 i 0) 0)
unfolding relax
relax_exact [] degrees queue small enough i = (omega arith, refl)
relax_exact (next ∷ rest) degrees queue small enough i =
    let degree : ℕ = get_or degrees next 0 in
    let left : ℕ = (degree + (2 ^ 64 - 1)) % 2 ^ 64 in
    let some_left : 1 ≤ degree = omega (arith, enough next, bit-same next) in
    let one_less : left ≡ degree - 1 = omega (arith, small next) in
    let inside : next < length degrees = get_or_bound degrees next (λ e. omega (arith, e)) in
    let lowered : (j : ℕ)
        → get_or (set degrees next left) j 0 ≡ (if next == j then left else get_or degrees j 0) =
      λ j. get_or-set degrees next j left inside in
    let queued : List ℕ = if left == 0 then queue ++ next ∷ [] else queue in
    let (fall, grow) =
      relax_exact rest (set degrees next left) queued
        (λ j. ground (arith, lowered j, small j, small next))
        (λ j.
          lower_bound j next left degree (get_or degrees j 0) (occ j rest)
            (get_or (set degrees next left) j 0) (enough j) one_less (lowered j)
            (λ e. ap (λ k. get_or degrees k 0) e))
        i in
    relaxed i next left degree (get_or degrees i 0) _ _ (occ i rest) (occ i queue) (occ i queued) _
      one_less some_left (lowered i) (λ e. ap (λ k. get_or degrees k 0) e) fall grow
      (occ-queued i next left queue)
