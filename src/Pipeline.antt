-- ===== src/Pipeline.antt =====
-- pkg/pipeline/spec.go and pkg/manifest/driver.go: the types of a pipeline definition.
-- A Go map or pointer that may be nil is an Option; an empty string is the empty text. Of
-- corev1.PodTemplateSpec, which is not Piper's, the names of the containers are kept.
pub mod Defaults
pub mod Dag
pub mod Validate
use piper.Prelude.{none, ℕ, String, Bool, Option, List}

pub record ResourceSpec : Type 0 where
  pub cpu : String
  pub memory : String
  pub gpu : String

pub record PodTemplate : Type 0 where
  pub containers : List String

pub record DriverK8sSpec : Type 0 where
  pub image : String
  pub namespace : String
  pub replicas : ℕ
  pub image_pull_policy : String
  pub resources : ResourceSpec
  pub pod_template : PodTemplate

-- The settings behind the image, which the merge copies unread; deploy, which it copies too, is left
-- out.
pub record DockerLimits : Type 0 where
  pub cpus : String
  pub mem_limit : String
  pub shm_size : String
  pub read_only : Bool
  pub user : String
  pub network_mode : String
  pub tmpfs : List String
  pub volumes : List String

pub record DriverDockerSpec : Type 0 where
  pub image : String
  pub limits : DockerLimits

pub record DriverProcessSpec : Type 0 where
  pub env : String
  pub gpus : String

-- `runtime` is placement.runtime.
pub record DriverSpec : Type 0 where
  pub runtime : String
  pub k8s : Option DriverK8sSpec
  pub docker : Option DriverDockerSpec
  pub process : Option DriverProcessSpec

-- Of the source settings, those that Validate reads.
pub record Run : Type 0 where
  pub path : String
  pub dir : String
  pub deps : List String
  pub prepare : List (List String)
  pub command : List String

pub record Artifact : Type 0 where
  pub name : String
  pub path : String
  pub from : String

-- `timeout` is options.timeout in seconds; 0 and below mean that there is none.
pub record Step : Type 0 where
  pub name : String
  pub timeout : ℕ
  pub run : Run
  pub driver : DriverSpec
  pub inputs : List Artifact
  pub outputs : List Artifact
  pub depends_on : List String

pub record NotifyAction : Type 0 where
  pub credential_ref : String
  pub message : String

-- `has_deploy` tells whether deploy is set.
pub record OnOutcome : Type 0 where
  pub has_deploy : Bool
  pub notify : List NotifyAction

-- `defaults` is spec.defaults.driver, where spec.defaults is set; the type's fields and the metadata
-- stand beside the fields of spec.
pub record Pipeline : Type 0 where
  pub api_version : String
  pub kind : String
  pub name : String
  pub defaults : Option DriverSpec
  pub steps : List Step
  pub on_success : Option OnOutcome
  pub on_failure : Option OnOutcome
