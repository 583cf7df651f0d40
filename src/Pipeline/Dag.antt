-- ===== src/Pipeline/Dag.antt =====
-- pkg/pipeline/dag.go: the execution order of the steps, by Kahn's algorithm.
-- A map is a list of pairs with at most one pair for a key; a missing key reads as the zero value.
pub mod Names
pub mod Counts
pub mod Kahn
pub mod Order
pub mod Correct
pub mod Decides
use piper.Pipeline.{Pipeline, Step}
use piper.Prelude.{
  length, has, all, str_eq, ◌==◌, if◌then◌else◌, some, none, ℕ, suc, zero, String, ◌+◌, ◌-◌, Bool,
  List, [], ◌∷◌, ◌++◌, Option,
}

-- inDegree[k]
unfoldable pub degree : String → List (String × ℕ) → ℕ
degree k [] = 0
degree k ((j, n) ∷ m) = if str_eq j k then n else degree k m

-- inDegree[k] = n
unfoldable pub set_degree : String → ℕ → List (String × ℕ) → List (String × ℕ)
set_degree k n [] = (k, n) ∷ []
set_degree k n ((j, i) ∷ m) = if str_eq j k then (j, n) ∷ m else (j, i) ∷ set_degree k n m

-- adj[k]
unfoldable pub followers : String → List (String × List String) → List String
followers k [] = []
followers k ((j, ns) ∷ m) = if str_eq j k then ns else followers k m

-- adj[k] = append(adj[k], n)
unfoldable pub add_follower :
    String → String → List (String × List String) → List (String × List String)
add_follower k n [] = (k, n ∷ []) ∷ []
add_follower k n ((j, ns) ∷ m) =
    if str_eq j k then (j, ns ++ n ∷ []) ∷ m else (j, ns) ∷ add_follower k n m

-- The two maps of topoSort.
pub record Graph : Type 0 where
  pub in_degree : List (String × ℕ)
  pub adj : List (String × List String)

-- `inDegree[s.Name]` is set to 0 if it is missing, which reads the same.
unfoldable pub touch : String → Graph → Graph
touch k g = record g { in_degree = set_degree k (degree k g.in_degree) g.in_degree }

unfoldable pub add_edges : String → List String → Graph → Graph
add_edges name [] g = g
add_edges name (dep ∷ deps) g = add_edges name deps (record {
  in_degree = set_degree name (degree name g.in_degree + 1) g.in_degree;
  adj = add_follower dep name g.adj;
})

unfoldable pub build_graph : List Step → Graph → Graph
build_graph [] g = g
build_graph (s ∷ steps) g = build_graph steps (add_edges s.name s.depends_on (touch s.name g))

-- The steps with no dependency, in the order of the definition.
unfoldable pub roots : List Step → Graph → List String
roots [] g = []
roots (s ∷ steps) g =
    let rest = roots steps g in if degree s.name g.in_degree == 0 then s.name ∷ rest else rest

-- The inner loop: one dependency of each follower is met. Go tests for 0 after the decrement and the
-- model for 1 before it, which is the same where Go's count is negative.
unfoldable pub release :
    List String → List (String × ℕ) → List String → List (String × ℕ) × List String
release [] deg queue = (deg, queue)
release (next ∷ rest) deg queue =
    release rest (set_degree next (degree next deg - 1) deg)
      (if degree next deg == 1 then queue ++ next ∷ [] else queue)

-- The outer loop; one unit of fuel for each step that leaves the queue.
unfoldable pub drain :
    ℕ → List (String × List String) → List (String × ℕ) → List String → List String → List String
drain zero adj deg queue order = order
drain (suc fuel) adj deg [] order = order
drain (suc fuel) adj deg (cur ∷ queue) order =
    let (deg', queue') = release (followers cur adj) deg queue in
    drain fuel adj deg' queue' (order ++ cur ∷ [])

abbrev pub empty_graph : Graph
empty_graph = record { in_degree = []; adj = [] }

unfoldable pub edge_count : List Step → ℕ
edge_count [] = 0
edge_count (s ∷ steps) = length s.depends_on + edge_count steps

-- topoSort; none is the error "pipeline has a cyclic dependency".
unfoldable pub topo_sort : List Step → Option (List String)
topo_sort steps =
    let g = build_graph steps empty_graph in
    let order =
      drain (suc (length steps + edge_count steps)) g.adj g.in_degree (roots steps g) [] in
    if length order == length steps then some order else none

-- DAG: `steps` by name, with the last step of a name, and the order.
pub record Dag : Type 0 where
  pub steps : List Step
  pub order : List String

-- dag.steps[name]; the last step of that name.
unfoldable pub find_step : String → List Step → Option Step
find_step name [] = none
find_step name (s ∷ steps) =
    let later = find_step name steps in
    elim later [ some x ↦ some x | none ↦ if str_eq s.name name then some s else none ]

unfoldable pub build_dag : Pipeline → Option Dag
build_dag p = elim (topo_sort p.steps) [
  | none ↦ none
  | some order ↦ some (record { steps = p.steps; order = order })
]

-- depsReady
unfoldable pub deps_ready : Step → List String → Bool
deps_ready s done = all (λ dep. has dep done) s.depends_on

-- The loop of Runnable. Where a name of the order had no step, Go would fail; the model passes on.
unfoldable pub runnable_steps : List String → List String → List Step → List Step
runnable_steps [] done steps = []
runnable_steps (name ∷ order) done steps =
    let rest = runnable_steps order done steps in
    if has name done then rest else elim (find_step name steps) [
      | none ↦ rest
      | some s ↦ if deps_ready s done then s ∷ rest else rest
    ]

-- Runnable; `done` holds the names of the completed steps.
unfoldable pub runnable : Dag → List String → List Step
runnable d done = runnable_steps d.order done d.steps
