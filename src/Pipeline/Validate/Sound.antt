-- ===== src/Pipeline/Validate/Sound.antt =====
-- pkg/pipeline/spec.go: what Validate guarantees for the order of the steps and for their paths.
use piper.Pipeline.{Artifact, Step, Pipeline}
use piper.Pipeline.Dag.{topo_sort}
use piper.Pipeline.Dag.Names.{has-append, Distinct}
use piper.Pipeline.Dag.Kahn.{step_names}
use piper.Pipeline.Dag.Counts.{deps_of}
use piper.Pipeline.Dag.Decides.{topo_sort_decides, IsOrder, Stuck}
use piper.Pipeline.Validate.{
  validate_relative_path, unknown_step, fail_if, validate, validate_names, validate_step,
  validate_input, validate_output,
}
use piper.Pipeline.Validate.Paths.{
  first-none, fail_if-none, check_each-none, IsConfined, validate_path_component-IsConfined,
  validate_relative_path-IsConfined,
}
use piper.Prelude.{
  subst, not, String, Bool, true, false, none, some, List, [], ◌∷◌, map, has, str_eq, ◌≡◌, refl,
  arith, Bool-cases, inl, inr, All, All-map, eq_iff, eq_refl, ap, ◌⊎◌,
}

names-step_names : (steps : List Step) → map (λ s. s.name) steps ≡ step_names steps
names-step_names [] = refl
names-step_names (s ∷ steps) = ap (λ l. s.name ∷ l) (names-step_names steps)

-- The first loop accepts names that are different, and not among those before.
validate_names-Distinct :
    (steps : List Step) (names : List String)
    → validate_names steps names ≡ none
    → Distinct (step_names steps)
      × ((k : String) → has k (step_names steps) ≡ true → has k names ≡ false)
      × All (λ s. IsConfined s.name) steps
unfolding validate_names
validate_names-Distinct [] names e = (tt, (λ k i. cc i), tt)
validate_names-Distinct (s ∷ steps) names e =
    let (a, b) = first-none _ _ e in
    let (c, d) = first-none _ _ b in
    let (f, g) = first-none _ _ d in
    let (unique, new, confined) = validate_names-Distinct steps (s.name ∷ names) g in
    (
      (
        elim (Bool-cases (has s.name (step_names steps))) [
          | inl t ↦ absurd (ground (arith, new s.name t, eq_refl s.name))
          | inr n ↦ n
        ],
        unique,
      ),
      (λ k i. elim (Bool-cases (str_eq s.name k)) [
        | inl t ↦ subst (λ j. has j names ≡ false) ((eq_iff s.name k).0 t) (fail_if-none _ _ f)
        | inr n ↦ ground (arith, new k (ground (arith, i, n)), n)
      ]),
      ((validate_path_component-IsConfined s.name c).0, confined),
    )

All-has : (P : String → Type 0) (k : String) (xs : List String) → All P xs → has k xs ≡ true → P k
All-has P k [] h i = cc i
All-has P k (x ∷ xs) h i = elim (Bool-cases (str_eq x k)) [
  | inl t ↦ subst P ((eq_iff x k).0 t) h.0
  | inr f ↦ All-has P k xs h.1 (ground (arith, i, f))
]

-- What a step may depend on, in the second loop.
deps_of-known :
    (names : List String) (steps : List Step)
    → All (λ s. validate_step names s ≡ none) steps
    → (k d : String) → has d (deps_of k steps) ≡ true
    → has d names ≡ true
unfolding validate_step
deps_of-known names [] all k d i = cc i
deps_of-known names (s ∷ steps) all k d i =
    let known =
      check_each-none (λ dep. fail_if (not (has dep names)) unknown_step) s.depends_on
        (first-none _ _ all.0).0 in
    elim (Bool-cases (str_eq s.name k)) [
      | inl t ↦ elim (Bool-cases (has d s.depends_on)) [
        | inl own ↦ is_known d (All-has _ d s.depends_on known own)
        | inr other ↦
            deps_of-known names steps all.1 k d
              (ground (arith, rw t at i, has-append d s.depends_on (deps_of k steps), other))
      ]
      | inr f ↦ deps_of-known names steps all.1 k d (rw f at i)
    ]
  where
    is_known : (d : String) → fail_if (not (has d names)) unknown_step ≡ none → has d names ≡ true
    is_known d e = ground (arith, fail_if-none _ _ e)

-- The paths of a step: its name and those of its artifacts are names of one part, and the paths of
-- its run and its outputs stay in the workspace.
pub record StepConfined (s : Step) : Type 0 where
  pub name : IsConfined s.name
  pub path : IsConfined s.run.path
  pub dir : IsConfined s.run.dir
  pub deps : All IsConfined s.run.deps
  pub inputs : All (λ a. IsConfined a.name) s.inputs
  pub outputs : All (λ a. IsConfined a.name × IsConfined a.path) s.outputs

validate_input-IsConfined :
    (names : List String) (a : Artifact) → validate_input names a ≡ none → IsConfined a.name
unfolding validate_input
validate_input-IsConfined names a e =
    (validate_path_component-IsConfined a.name (first-none _ _ e).0).0

validate_output-IsConfined :
    (a : Artifact) → validate_output a ≡ none → IsConfined a.name × IsConfined a.path
unfolding validate_output
validate_output-IsConfined a e =
    let (x, y) = first-none _ _ e in
    (
      (validate_path_component-IsConfined a.name x).0,
      validate_relative_path-IsConfined a.path false y,
    )

validate_step-StepConfined :
    (names : List String) (s : Step)
    → IsConfined s.name
    → validate_step names s ≡ none
    → StepConfined s
unfolding validate_step
validate_step-StepConfined names s n e =
    let (a, e1) = first-none _ _ e in
    let (b, e2) = first-none _ _ e1 in
    let (c, e3) = first-none _ _ e2 in
    let (path, e4) = first-none _ _ e3 in
    let (dir, e5) = first-none _ _ e4 in
    let (deps, e6) = first-none _ _ e5 in
    let (ins, outs) = first-none _ _ e6 in
    record {
      name = n;
      path = validate_relative_path-IsConfined s.run.path true path;
      dir = validate_relative_path-IsConfined s.run.dir true dir;
      deps =
          All-map _ _ s.run.deps (λ d h. validate_relative_path-IsConfined d false h)
            (check_each-none (λ dep. validate_relative_path dep false) s.run.deps deps);
      inputs =
          All-map _ _ s.inputs (validate_input-IsConfined names)
            (check_each-none (validate_input names) s.inputs ins);
      outputs =
          All-map _ _ s.outputs validate_output-IsConfined
            (check_each-none validate_output s.outputs outs);
    }

All-StepConfined :
    (names : List String) (steps : List Step)
    → All (λ s. IsConfined s.name) steps
    → All (λ s. validate_step names s ≡ none) steps
    → All StepConfined steps
All-StepConfined names [] n e = tt
All-StepConfined names (s ∷ steps) n e =
    (validate_step-StepConfined names s n.0 e.0, All-StepConfined names steps n.1 e.1)

module _ (parses : String → Bool) (p : Pipeline) (valid : validate parses p ≡ none) where
  both_loops :
      (validate_names p.steps [] ≡ none)
      × All (λ s. validate_step (step_names p.steps) s ≡ none) p.steps
  unfolding validate
  both_loops =
      let (a, e1) = first-none _ _ valid in
      let (b, e2) = first-none _ _ e1 in
      let (c, e3) = first-none _ _ e2 in
      let (names, e4) = first-none _ _ e3 in
      (
        names,
        subst (λ ns. All (λ s. validate_step ns s ≡ none) p.steps) (names-step_names p.steps)
            (check_each-none (validate_step (map (λ s. s.name) p.steps)) p.steps
              (first-none _ _ e4).0),
      )

  -- A pipeline that passes Validate has an execution order that holds each step once and after its
  -- dependencies, and topoSort finds it, or topoSort reports a cycle, and then some steps wait for one
  -- another and no such order exists.
  pub validate-topo_sort :
      ((order : List String) × (topo_sort p.steps ≡ some order) × IsOrder p.steps order)
      ⊎ ((topo_sort p.steps ≡ none)
          × Stuck p.steps
          × ((order : List String) → ¬ IsOrder p.steps order))
  validate-topo_sort =
      topo_sort_decides p.steps (validate_names-Distinct p.steps [] both_loops.0).0
        (deps_of-known (step_names p.steps) p.steps both_loops.1)

  -- In a pipeline that passes Validate, no path of a step leaves its workspace: names of steps and of
  -- artifacts, the path, directory and dependencies of the run and the paths of the outputs are
  -- relative, and a walk along their parts, with either kind of slash, never goes above its start.
  pub validate-StepConfined : All StepConfined p.steps
  validate-StepConfined =
      All-StepConfined (step_names p.steps) p.steps
        (validate_names-Distinct p.steps [] both_loops.0).2 both_loops.1
