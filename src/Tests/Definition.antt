-- ===== src/Tests/Definition.antt =====
-- pkg/pipeline/spec.go and pkg/pipeline/dag.go: the theorems at a pipeline of two steps.
use piper.Pipeline.Validate.{
  validate, validate_type_meta, validate_names, validate_path_component, validate_step,
  validate_relative_path, validate_input, validate_output, validate_reference, validate_driver,
  validate_outcome, is_blank, has_slash, normalize, split_path, is_absolute, clean_parts, climbs,
  is_empty_command, first, fail_if, check_each,
}
use piper.Pipeline.Validate.Sound.{validate-topo_sort, validate-StepConfined, StepConfined}
use piper.Pipeline.Dag.Decides.{IsOrder, Stuck}
use piper.Pipeline.Defaults.Merge.{topo_sort-apply_defaults, apply_defaults-twice}
use piper.Pipeline.Dag.Order.{runnable-IsRunnable, IsRunnable}
use piper.Pipeline.Dag.{
  add_follower, set_degree, degree, followers, release, drain, roots, edge_count, touch, add_edges,
  runnable, build_graph, Dag, topo_sort,
}
use piper.Pipeline.Defaults.{
  with_defaults, merge_process, merge_docker_driver_spec, merge_k8s_driver_spec, merge_driver_spec,
  default_steps, apply_defaults,
}
use piper.Pipeline.{Run, Artifact, Step, Pipeline, DriverSpec, DockerLimits}
use piper.Prelude.{◌⊎◌, String, List, true, false, ◌∷◌, [], ◌≡◌, All, none, some, refl}

abbrev limits : DockerLimits
limits = record {
  cpus = "2";
  mem_limit = "";
  shm_size = "";
  read_only = false;
  user = "";
  network_mode = "";
  tmpfs = [];
  volumes = [];
}

abbrev python : DriverSpec
python = record {
  runtime = "docker";
  k8s = none;
  docker = some (record { image = "python:3.12"; limits = limits });
  process = none;
}

abbrev unset : DriverSpec
unset = record { runtime = ""; k8s = none; docker = none; process = none }

abbrev python_run : Run
python_run = record {
  path = "src/./fit";
  dir = "";
  deps = "lib" ∷ [];
  prepare = [];
  command = "python" ∷ [];
}

abbrev model : Artifact
model = record { name = "table"; path = "out/table.csv"; from = "" }

abbrev loaded : Artifact
loaded = record { name = "table"; path = ""; from = "load/table" }

abbrev load : Step
load = record {
  name = "load";
  timeout = 0;
  run = python_run;
  driver = unset;
  inputs = [];
  outputs = model ∷ [];
  depends_on = [];
}

abbrev fit : Step
fit = record {
  name = "fit";
  timeout = 0;
  run = python_run;
  driver = python;
  inputs = loaded ∷ [];
  outputs = [];
  depends_on = "load" ∷ [];
}

-- The steps are listed against their order.
abbrev definition : Pipeline
definition = record {
  api_version = "";
  kind = "";
  name = "fit";
  defaults = some python;
  steps = fit ∷ load ∷ [];
  on_success = none;
  on_failure = none;
}

sorted : topo_sort definition.steps ≡ some ("load" ∷ "fit" ∷ [])
unfolding topo_sort build_graph add_edges touch roots drain release followers degree set_degree
    add_follower edge_count
sorted = refl

apply_defaults-twice_example :
    apply_defaults (apply_defaults definition) ≡ apply_defaults definition
apply_defaults-twice_example = apply_defaults-twice definition

topo_sort-apply_defaults_example :
    topo_sort (apply_defaults definition).steps ≡ topo_sort (fit ∷ load ∷ [])
topo_sort-apply_defaults_example = topo_sort-apply_defaults definition

abbrev dag : Dag
dag = record { steps = fit ∷ load ∷ []; order = "load" ∷ "fit" ∷ [] }

runnable-IsRunnable_example :
    All (IsRunnable ("load" ∷ []) (fit ∷ load ∷ [])) (runnable dag ("load" ∷ []))
runnable-IsRunnable_example = runnable-IsRunnable dag ("load" ∷ [])

-- Any template parses.
definition-valid : validate (λ text. true) definition ≡ none
unfolding validate validate_type_meta validate_names validate_path_component validate_step
    validate_relative_path validate_input validate_output validate_reference validate_driver
    validate_outcome is_blank has_slash normalize split_path is_absolute clean_parts climbs
    is_empty_command first fail_if check_each apply_defaults default_steps merge_driver_spec
    merge_k8s_driver_spec merge_docker_driver_spec merge_process with_defaults
definition-valid = refl

validate-topo_sort_example :
    ((order : List String) × (topo_sort (fit ∷ load ∷ []) ≡ some order)
      × IsOrder (fit ∷ load ∷ []) order)
    ⊎ ((topo_sort (fit ∷ load ∷ []) ≡ none)
        × Stuck (fit ∷ load ∷ [])
        × ((order : List String) → ¬ IsOrder (fit ∷ load ∷ []) order))
validate-topo_sort_example = validate-topo_sort (λ text. true) definition definition-valid

validate-StepConfined_example : All StepConfined (fit ∷ load ∷ [])
validate-StepConfined_example = validate-StepConfined (λ text. true) definition definition-valid
