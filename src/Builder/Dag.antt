-- ===== src/Builder/Dag.antt =====
-- `runDAGBuild` of internal/builder/graph.go: tasks that run at the same time, as steps on the state
-- that they share.
-- A step is what a task does under the mutex, or a round of the loop that starts the first tasks. That
-- loop reads `pending` without the mutex, so the task that lowers the counts takes a step for each
-- write, and the loop may come between any two of them.
-- A count in `pending` is the 64-bit pattern of an int. The outcome of buildOne is open: a task that
-- builds may succeed or fail. A task that the pool does not take runs at once; its steps are the
-- same, in a row.
pub mod Falls
pub mod Safe
pub mod Tells
pub mod Lowers
pub mod Keeps
pub mod Starts
use forge_zero.Prelude.{
  ℕ, zero, suc, ◌+◌, ◌-◌, ◌%◌, ◌^◌, ◌<◌, ◌≡◌, List, [], ◌∷◌, ◌++◌, map, Bool, true, false, Option,
  none, some, length, get_or, set, replicate, ltb, leb, ◌==◌, if◌then◌else◌,
}
use forge_zero.Builder.Graph.{Graph}
use forge_zero.Builder.Graph.Count.{occ}

-- The loop that enters a node with the nodes that it depends on.
unfoldable pub add_dependent : ℕ → ℕ → List ℕ → Graph → Option Graph
add_dependent n i [] table = some table
add_dependent n i (dep ∷ rest) table =
    let more = add_dependent n i rest (set table dep (get_or table dep [] ++ i ∷ [])) in
    if leb n dep then none else more

unfoldable pub add_dependents : ℕ → ℕ → Graph → Graph → Option Graph
add_dependents n i [] table = some table
add_dependents n i (deps ∷ rest) table = elim (add_dependent n i deps table) [
  | none ↦ none
  | some table' ↦
      let more = add_dependents n (suc i) rest table' in if ltb n (length deps) then none else more
]

-- What a task has left to do: to build its node, to look at dependents, or to call schedule for one
-- and then look at others.
pub data Task : Type 0 where
  building : ℕ → Task
  telling : List ℕ → Task
  calling : ℕ → List ℕ → Task

-- The mutex: free, or held by a task that lowers the counts of the dependents of its node, of which
-- some are left, and that may just have lowered one and not yet looked at what it has left there.
pub data Mutex : Type 0 where
  free : Mutex
  lowering : List ℕ → List ℕ → Mutex
  testing : List ℕ → ℕ → List ℕ → Mutex

-- The state: the counts, the nodes that the bitmap holds, the running tasks but for the one
-- that holds the mutex, the mutex, the nodes that `completed` counts, whether there is an error, and
-- the loop over the nodes, which may have seen the count 0 and not yet called `schedule`.
pub record Build : Type 0 where
  pub pending : List ℕ
  pub scheduled : List ℕ
  pub tasks : List Task
  pub mutex : Mutex
  pub completed : List ℕ
  pub failed : Bool
  pub scan : ℕ
  pub seen : Bool

-- The marks -1 and -2.
abbrev pub ready : ℕ
ready = 2 ^ 64 - 1

abbrev pub taken : ℕ
taken = 2 ^ 64 - 2

abbrev pub start : Graph → Build
start graph = record {
  pending = map length graph;
  scheduled = [];
  tasks = [];
  mutex = free;
  completed = [];
  failed = false;
  scan = 0;
  seen = false;
}

-- `schedule`, up to the start of the task.
unfoldable pub schedule : ℕ → Build → Build
schedule idx s =
    if leb 1 (occ idx s.scheduled)
    then s
    else record s { scheduled = idx ∷ s.scheduled; tasks = building idx ∷ s.tasks }

-- The loop over the nodes reads a count, without the mutex.
unfoldable pub scan_node : Build → Build
scan_node s =
    if get_or s.pending s.scan 0 == 0
    then record s { seen = true }
    else record s { scan = suc s.scan }

-- It has seen a 0.
unfoldable pub scan_schedule : Build → Build
scan_schedule s = schedule s.scan (record s { scan = suc s.scan; seen = false })

-- A build that succeeds: if there is no error yet it counts, and the task keeps the mutex.
unfoldable pub succeed : List ℕ → ℕ → List Task → List Task → Build → Build
succeed children v before after s =
    if s.failed then record s { tasks = before ++ telling children ∷ after } else record s {
      completed = v ∷ s.completed;
      tasks = before ++ after;
      mutex = lowering children children;
    }

-- `pending[child]--`
unfoldable pub lower_count : List ℕ → ℕ → List ℕ → Build → Build
lower_count children child rest s = record s {
  pending = set s.pending child ((get_or s.pending child 0 + (2 ^ 64 - 1)) % 2 ^ 64);
  mutex = testing children child rest;
}

-- A count that has come to 0 becomes -1.
unfoldable pub mark_ready : List ℕ → ℕ → List ℕ → Build → Build
mark_ready children child rest s =
    let next = record s { mutex = lowering children rest } in
    if get_or s.pending child 0 == 0
    then record next { pending = set s.pending child ready }
    else next

-- The mutex is given back.
unfoldable pub unlock : List ℕ → Build → Build
unlock children s = record s { tasks = telling children ∷ s.tasks; mutex = free }

-- A task looks at a dependent, under the mutex.
unfoldable pub tell : ℕ → List ℕ → List Task → List Task → Build → Build
tell child rest before after s =
    if get_or s.pending child 0 == ready
    then record s {
      pending = set s.pending child taken;
      tasks = before ++ calling child rest ∷ after;
    }
    else record s { tasks = before ++ telling rest ∷ after }

-- Behind the mutex it calls schedule.
unfoldable pub call_schedule : ℕ → List ℕ → List Task → List Task → Build → Build
call_schedule child rest before after s =
    schedule child (record s { tasks = before ++ telling rest ∷ after })

-- A step, for nodes with given dependents.
pub data Step (n : ℕ) (children : ℕ → List ℕ) : Build → Build → Type 0 where
  scanned : (s : Build) → s.scan < n → s.seen ≡ false → Step n children s (scan_node s)
  scan_scheduled : (s : Build) → s.seen ≡ true → Step n children s (scan_schedule s)
  succeeded :
      (before after : List Task) (v : ℕ) (s : Build)
      → s.mutex ≡ free
      → s.tasks ≡ before ++ building v ∷ after
      → Step n children s (succeed (children v) v before after s)
  lowered :
      (nodes : List ℕ) (child : ℕ) (rest : List ℕ) (s : Build)
      → s.mutex ≡ lowering nodes (child ∷ rest)
      → Step n children s (lower_count nodes child rest s)
  marked :
      (nodes : List ℕ) (child : ℕ) (rest : List ℕ) (s : Build)
      → s.mutex ≡ testing nodes child rest
      → Step n children s (mark_ready nodes child rest s)
  unlocked :
      (nodes : List ℕ) (s : Build)
      → s.mutex ≡ lowering nodes []
      → Step n children s (unlock nodes s)
  build_failed :
      (before after : List Task) (v : ℕ) (s : Build)
      → s.mutex ≡ free
      → s.tasks ≡ before ++ building v ∷ after
      → Step n children s (record s { tasks = before ++ after; failed = true })
  told :
      (before after : List Task) (child : ℕ) (rest : List ℕ) (s : Build)
      → s.mutex ≡ free
      → s.tasks ≡ before ++ telling (child ∷ rest) ∷ after
      → Step n children s (tell child rest before after s)
  called :
      (before after : List Task) (child : ℕ) (rest : List ℕ) (s : Build)
      → s.tasks ≡ before ++ calling child rest ∷ after
      → Step n children s (call_schedule child rest before after s)
  ended :
      (before after : List Task) (s : Build)
      → s.tasks ≡ before ++ telling [] ∷ after
      → Step n children s (record s { tasks = before ++ after })

-- Steps in a row.
pub data Steps (n : ℕ) (children : ℕ → List ℕ) : Build → Build → Type 0 where
  stay : (s : Build) → Steps n children s s
  go : (s t u : Build) → Steps n children s t → Step n children t u → Steps n children s u
