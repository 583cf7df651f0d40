-- ===== src/Pipeline/Defaults.antt =====
-- pkg/pipeline/spec.go: ApplyDefaults and the merges of driver settings.
pub mod Merge
use piper.Prelude.{ℕ, String, Option, none, some, List, [], ◌∷◌, str_eq, ◌==◌, if◌then◌else◌}
use piper.Pipeline.{
  ResourceSpec, PodTemplate, DriverK8sSpec, DriverDockerSpec, DriverProcessSpec, DriverSpec, Step,
  Pipeline,
}

-- `if x == "" { x = y }`
abbrev pub or_default : String → String → String
or_default x y = if str_eq x "" then y else x

unfoldable pub or_replicas : ℕ → ℕ → ℕ
or_replicas x y = if x == 0 then y else x

unfoldable pub merge_resources : ResourceSpec → ResourceSpec → ResourceSpec
merge_resources base out = record {
  cpu = or_default out.cpu base.cpu;
  memory = or_default out.memory base.memory;
  gpu = or_default out.gpu base.gpu;
}

unfoldable pub or_template : PodTemplate → PodTemplate → PodTemplate
or_template out base = elim out.containers [ [] ↦ base | c ∷ cs ↦ out ]

unfoldable pub merge_k8s_driver_spec :
    Option DriverK8sSpec → Option DriverK8sSpec → Option DriverK8sSpec
merge_k8s_driver_spec none override = override
merge_k8s_driver_spec (some base) none = some base
merge_k8s_driver_spec (some base) (some o) = some (record {
  image = or_default o.image base.image;
  namespace = or_default o.namespace base.namespace;
  replicas = or_replicas o.replicas base.replicas;
  image_pull_policy = or_default o.image_pull_policy base.image_pull_policy;
  resources = merge_resources base.resources o.resources;
  pod_template = or_template o.pod_template base.pod_template;
})

unfoldable pub merge_docker_driver_spec :
    Option DriverDockerSpec → Option DriverDockerSpec → Option DriverDockerSpec
merge_docker_driver_spec none override = override
merge_docker_driver_spec (some base) none = some base
merge_docker_driver_spec (some base) (some o) =
    some (record o { image = or_default o.image base.image })

unfoldable pub merge_process :
    Option DriverProcessSpec → Option DriverProcessSpec → Option DriverProcessSpec
merge_process base none = base
merge_process base (some o) = some o

unfoldable pub merge_driver_spec : DriverSpec → DriverSpec → DriverSpec
merge_driver_spec base override = record {
  runtime = or_default override.runtime base.runtime;
  k8s = merge_k8s_driver_spec base.k8s override.k8s;
  docker = merge_docker_driver_spec base.docker override.docker;
  process = merge_process base.process override.process;
}

unfoldable pub default_steps : DriverSpec → List Step → List Step
default_steps d [] = []
default_steps d (s ∷ steps) =
    record s { driver = merge_driver_spec d s.driver } ∷ default_steps d steps

unfoldable pub with_defaults : Option DriverSpec → Pipeline → Pipeline
with_defaults none p = p
with_defaults (some d) p = record p { steps = default_steps d p.steps }

unfoldable pub apply_defaults : Pipeline → Pipeline
apply_defaults p = with_defaults p.defaults p
