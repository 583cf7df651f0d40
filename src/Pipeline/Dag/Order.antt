-- ===== src/Pipeline/Dag/Order.antt =====
-- pkg/pipeline/dag.go: Runnable, and the loop of topoSort.
use piper.Pipeline.Dag.{
  touch, add_follower, Graph, edge_count, empty_graph, build_graph, add_edges, roots, degree,
  deps_ready, Dag, drain, release, runnable_steps, find_step, runnable, set_degree,
}
use piper.Pipeline.{Step}
use piper.Prelude.{
  Bool, sym, subst, ◌∙◌, length-append, eq_iff, ◌++◌, str_eq, inr, inl, Bool-cases, ◌-◌, ◌==◌,
  Option-cases, ◌+◌, all, All, has, length, ◌∷◌, if◌then◌else◌, [], arith, suc, some, false, true,
  ℕ, String, List, ◌≡◌, ◌≤◌,
}

-- A step of the pipeline that is not done and whose dependencies are all done.
pub record IsRunnable (done : List String) (steps : List Step) (s : Step) : Type 0 where
  pub found : find_step s.name steps ≡ some s
  pub not_done : has s.name done ≡ false
  pub ready : all (λ dep. has dep done) s.depends_on ≡ true

find_step-name :
    (n : String) (steps : List Step) (s : Step) → find_step n steps ≡ some s → s.name ≡ n
unfolding find_step
find_step-name n [] s h = cc
find_step-name n (x ∷ steps) s h = elim (Option-cases (find_step n steps)) [
  | inl p ↦ ground (arith, eq_iff x.name n, h, p)
  | inr (y, p) ↦ find_step-name n steps s (p ∙ sym (ground (arith, h, p)))
]

runnable_steps-IsRunnable :
    (order done : List String) (steps : List Step)
    → All (IsRunnable done steps) (runnable_steps order done steps)
unfolding runnable_steps deps_ready
runnable_steps-IsRunnable [] done steps = tt
runnable_steps-IsRunnable (n ∷ order) done steps = elim (Bool-cases (has n done)) [
  | inl t ↦ rw t (runnable_steps-IsRunnable order done steps)
  | inr f ↦ elim (Option-cases (find_step n steps)) [
    | inl p ↦ rw (f, p) (runnable_steps-IsRunnable order done steps)
    | inr (s, p) ↦ elim (Bool-cases (all (λ dep. has dep done) s.depends_on)) [
      | inl r ↦
          let named = find_step-name n steps s p in
          rw (f, p, r)
            (
              record {
                found = subst (λ k. find_step k steps ≡ some s) (sym named) p;
                not_done = subst (λ k. has k done ≡ false) (sym named) f;
                ready = r;
              },
              runnable_steps-IsRunnable order done steps,
            )
      | inr r ↦ rw (f, p, r) (runnable_steps-IsRunnable order done steps)
    ]
  ]
]

-- Runnable returns only steps of the pipeline that are not done and whose dependencies are all done.
pub runnable-IsRunnable :
    (d : Dag) (done : List String) → All (IsRunnable done d.steps) (runnable d done)
unfolding runnable
runnable-IsRunnable d done = runnable_steps-IsRunnable d.order done d.steps

-- The names that wait for a dependency.
abbrev pub waiting : List (String × ℕ) → ℕ
waiting [] = 0
waiting ((k, n) ∷ m) = let w = waiting m in if n == 0 then w else suc w

-- The order that the outer loop builds with this fuel.
abbrev pub sorted_on : ℕ → List Step → List String
sorted_on fuel steps =
    let g = build_graph steps empty_graph in drain fuel g.adj g.in_degree (roots steps g) []

abbrev pub one_if_positive : ℕ → ℕ
one_if_positive n = if n == 0 then 0 else 1

waiting-set_degree :
    (k : String) (v : ℕ) (deg : List (String × ℕ))
    → waiting (set_degree k v deg) + one_if_positive (degree k deg)
      ≡ waiting deg + one_if_positive v
unfolding set_degree degree
waiting-set_degree k v [] = ground arith
waiting-set_degree k v ((j, n) ∷ deg) = elim (Bool-cases (str_eq j k)) [
  | inl t ↦ rw t (ground arith)
  | inr f ↦ rw f (ground (arith, waiting-set_degree k v deg))
]

length-push :
    (b : Bool) (k : String) (queue : List String)
    → length (if b then queue ++ k ∷ [] else queue) ≡ length queue + (if b then 1 else 0)
length-push true k queue = length-append queue (k ∷ [])
length-push false k queue = omega arith

met :
    (n w w' : ℕ)
    → w' + one_if_positive n ≡ w + one_if_positive (n - 1)
    → w' + (if n == 1 then 1 else 0) ≤ w
met n w w' h = ground arith

-- A release queues no more names than stop waiting.
pub release-waiting :
    (next : List String) (deg : List (String × ℕ)) (queue : List String)
    → length (release next deg queue).1 + waiting (release next deg queue).0
      ≤ length queue + waiting deg
unfolding release
release-waiting [] deg queue = omega arith
release-waiting (k ∷ next) deg queue =
    let deg' = set_degree k (degree k deg - 1) deg in
    let b = degree k deg == 1 in
    omega (
      arith,
      release-waiting next deg' (if b then queue ++ k ∷ [] else queue),
      length-push b k queue,
      met (degree k deg) (waiting deg) (waiting deg') (waiting-set_degree k (degree k deg - 1) deg),
    )

add_edges-waiting :
    (name : String) (deps : List String) (g : Graph)
    → waiting (add_edges name deps g).in_degree ≤ waiting g.in_degree + length deps
unfolding add_edges
add_edges-waiting name [] g = omega arith
add_edges-waiting name (dep ∷ deps) g = ground (
  arith,
  add_edges-waiting name deps (record {
    in_degree = set_degree name (degree name g.in_degree + 1) g.in_degree;
    adj = add_follower dep name g.adj;
  }),
  waiting-set_degree name (degree name g.in_degree + 1) g.in_degree,
)

pub build_graph-waiting :
    (steps : List Step) (g : Graph)
    → waiting (build_graph steps g).in_degree ≤ waiting g.in_degree + edge_count steps
unfolding build_graph edge_count touch
build_graph-waiting [] g = omega arith
build_graph-waiting (s ∷ steps) g = omega (
  arith,
  build_graph-waiting steps (add_edges s.name s.depends_on (touch s.name g)),
  add_edges-waiting s.name s.depends_on (touch s.name g),
  waiting-set_degree s.name (degree s.name g.in_degree) g.in_degree,
)

pub length-roots-le : (steps : List Step) (g : Graph) → length (roots steps g) ≤ length steps
unfolding roots
length-roots-le [] g = omega arith
length-roots-le (s ∷ steps) g = ground (arith, length-roots-le steps g)
