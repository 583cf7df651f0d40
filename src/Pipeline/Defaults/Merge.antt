-- ===== src/Pipeline/Defaults/Merge.antt =====
-- pkg/pipeline/spec.go: the laws of ApplyDefaults.
use piper.Pipeline.Dag.{empty_graph, Graph, edge_count, build_graph, roots, topo_sort}
use piper.Pipeline.Defaults.{
  with_defaults, apply_defaults, default_steps, merge_driver_spec, merge_process,
  merge_docker_driver_spec, or_default, merge_k8s_driver_spec, or_replicas, or_template,
  merge_resources,
}
use piper.Pipeline.{
  DriverProcessSpec, DriverDockerSpec, DriverSpec, Pipeline, ResourceSpec, PodTemplate,
  DriverK8sSpec, Step,
}
use piper.Prelude.{
  Option-cases, length, ◌∷◌, inr, inl, str_eq, Bool-cases, Bool, if◌then◌else◌, [], arith, some,
  none, false, true, ℕ, String, List, ◌≡◌, Option, refl,
}

or_default-twice : (x y : String) → or_default (or_default x y) y ≡ or_default x y
or_default-twice x y = elim (Bool-cases (str_eq x "")) [
  | inl t ↦ rw t (cond-same (str_eq y "") y)
  | inr f ↦ rw (f, f) refl
]
  where
    cond-same : (b : Bool) (y : String) → (if b then y else y) ≡ y
    cond-same true y = refl
    cond-same false y = refl

or_replicas-twice : (x y : ℕ) → or_replicas (or_replicas x y) y ≡ or_replicas x y
unfolding or_replicas
or_replicas-twice x y = ground arith

merge_resources-twice :
    (base out : ResourceSpec)
    → merge_resources base (merge_resources base out) ≡ merge_resources base out
unfolding merge_resources
merge_resources-twice base out =
    rw
      (
        or_default-twice out.cpu base.cpu,
        or_default-twice out.memory base.memory,
        or_default-twice out.gpu base.gpu,
      )
      refl

or_template_self : (t : PodTemplate) → or_template t t ≡ t
unfolding or_template
or_template_self t = go t.containers
  where
    go :
        (cs : List String)
        → or_template (record { containers = cs }) (record { containers = cs })
          ≡ record { containers = cs }
    go [] = refl
    go (c ∷ cs) = refl

or_template-twice :
    (out base : PodTemplate) → or_template (or_template out base) base ≡ or_template out base
unfolding or_template
or_template-twice out base = go out.containers base
  where
    go :
        (cs : List String) (base : PodTemplate)
        → or_template (or_template (record { containers = cs }) base) base
          ≡ or_template (record { containers = cs }) base
    go [] base = or_template_self base
    go (c ∷ cs) base = refl

or_default_self : (x : String) → or_default x x ≡ x
or_default_self x = elim (Bool-cases (str_eq x "")) [ inl t ↦ rw t refl | inr f ↦ rw f refl ]

or_replicas_self : (n : ℕ) → or_replicas n n ≡ n
unfolding or_replicas
or_replicas_self n = ground arith

merge_k8s_self : (b : DriverK8sSpec) → merge_k8s_driver_spec (some b) (some b) ≡ some b
unfolding merge_k8s_driver_spec merge_resources
merge_k8s_self b =
    rw
      (
        or_default_self b.image,
        or_default_self b.namespace,
        or_replicas_self b.replicas,
        or_default_self b.image_pull_policy,
        or_default_self b.resources.cpu,
        or_default_self b.resources.memory,
        or_default_self b.resources.gpu,
        or_template_self b.pod_template,
      )
      refl

merge_k8s-twice :
    (base o : Option DriverK8sSpec)
    → merge_k8s_driver_spec base (merge_k8s_driver_spec base o) ≡ merge_k8s_driver_spec base o
unfolding merge_k8s_driver_spec
merge_k8s-twice none o = refl
merge_k8s-twice (some b) none = merge_k8s_self b
merge_k8s-twice (some b) (some o) =
    rw
      (
        or_default-twice o.image b.image,
        or_default-twice o.namespace b.namespace,
        or_replicas-twice o.replicas b.replicas,
        or_default-twice o.image_pull_policy b.image_pull_policy,
        merge_resources-twice b.resources o.resources,
        or_template-twice o.pod_template b.pod_template,
      )
      refl

merge_docker-twice :
    (base o : Option DriverDockerSpec)
    → merge_docker_driver_spec base (merge_docker_driver_spec base o)
      ≡ merge_docker_driver_spec base o
unfolding merge_docker_driver_spec
merge_docker-twice none o = refl
merge_docker-twice (some b) none = rw (or_default_self b.image) refl
merge_docker-twice (some b) (some o) = rw (or_default-twice o.image b.image) refl

merge_process-twice :
    (base o : Option DriverProcessSpec)
    → merge_process base (merge_process base o) ≡ merge_process base o
unfolding merge_process
merge_process-twice none none = refl
merge_process-twice (some b) none = refl
merge_process-twice base (some o) = refl

merge_driver_spec-twice :
    (base o : DriverSpec)
    → merge_driver_spec base (merge_driver_spec base o) ≡ merge_driver_spec base o
unfolding merge_driver_spec
merge_driver_spec-twice base o =
    rw
      (
        or_default-twice o.runtime base.runtime,
        merge_k8s-twice base.k8s o.k8s,
        merge_docker-twice base.docker o.docker,
        merge_process-twice base.process o.process,
      )
      refl

default_steps-twice :
    (d : DriverSpec) (steps : List Step)
    → default_steps d (default_steps d steps) ≡ default_steps d steps
unfolding default_steps
default_steps-twice d [] = refl
default_steps-twice d (s ∷ steps) =
    rw (merge_driver_spec-twice d s.driver, default_steps-twice d steps) refl

with_defaults-twice :
    (o : Option DriverSpec) (p : Pipeline) → with_defaults o (with_defaults o p) ≡ with_defaults o p
unfolding with_defaults
with_defaults-twice none p = refl
with_defaults-twice (some d) p = rw (default_steps-twice d p.steps) refl

defaults-with_defaults :
    (o : Option DriverSpec) (p : Pipeline) → (with_defaults o p).defaults ≡ p.defaults
unfolding with_defaults
defaults-with_defaults none p = refl
defaults-with_defaults (some d) p = refl

-- Applying the defaults a second time changes nothing.
pub apply_defaults-twice : (p : Pipeline) → apply_defaults (apply_defaults p) ≡ apply_defaults p
unfolding apply_defaults with_defaults
apply_defaults-twice p = rw (defaults-with_defaults p.defaults p) (with_defaults-twice p.defaults p)

build_graph-default_steps :
    (d : DriverSpec) (steps : List Step) (g : Graph)
    → build_graph (default_steps d steps) g ≡ build_graph steps g
unfolding default_steps build_graph
build_graph-default_steps d [] g = refl
build_graph-default_steps d (s ∷ steps) g = build_graph-default_steps d steps _

roots-default_steps :
    (d : DriverSpec) (steps : List Step) (g : Graph)
    → roots (default_steps d steps) g ≡ roots steps g
unfolding default_steps roots
roots-default_steps d [] g = refl
roots-default_steps d (s ∷ steps) g = rw (roots-default_steps d steps g) refl

sizes-default_steps :
    (d : DriverSpec) (steps : List Step)
    → (length (default_steps d steps) ≡ length steps)
      × (edge_count (default_steps d steps) ≡ edge_count steps)
unfolding default_steps edge_count
sizes-default_steps d [] = (refl, refl)
sizes-default_steps d (s ∷ steps) =
    let (a, b) = sizes-default_steps d steps in (omega (arith, a), omega (arith, b))

topo_sort-default_steps :
    (d : DriverSpec) (steps : List Step) → topo_sort (default_steps d steps) ≡ topo_sort steps
unfolding topo_sort
topo_sort-default_steps d steps =
    rw
      (
        (sizes-default_steps d steps).0,
        (sizes-default_steps d steps).1,
        build_graph-default_steps d steps empty_graph,
        roots-default_steps d steps (build_graph steps empty_graph),
      )
      refl

-- The defaults change neither the order of the steps nor whether a cycle is found.
pub topo_sort-apply_defaults :
    (p : Pipeline) → topo_sort (apply_defaults p).steps ≡ topo_sort p.steps
unfolding apply_defaults with_defaults
topo_sort-apply_defaults p = elim (Option-cases p.defaults) [
  | inl n ↦ rw (n, with_defaults) refl
  | inr (d, n) ↦ rw (n, with_defaults) (topo_sort-default_steps d p.steps)
]
