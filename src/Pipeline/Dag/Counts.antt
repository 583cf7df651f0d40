-- ===== src/Pipeline/Dag/Counts.antt =====
-- pkg/pipeline/dag.go: what the two maps of topoSort hold.
use piper.Pipeline.{Step}
use piper.Pipeline.Dag.{
  Graph, degree, set_degree, followers, add_follower, touch, add_edges, build_graph,
}
use piper.Pipeline.Dag.Names.{count, count-append}
use piper.Prelude.{
  ap, ℕ, ◌+◌, String, ◌≡◌, refl, List, [], ◌∷◌, ◌++◌, arith, length, str_eq, if◌then◌else◌, eq_iff,
  length-append,
}

-- The dependencies of every step of this name.
abbrev pub deps_of : String → List Step → List String
deps_of k [] = []
deps_of k (s ∷ steps) = if str_eq s.name k then s.depends_on ++ deps_of k steps else deps_of k steps

pub degree-set_degree :
    (j k : String) (v : ℕ) (deg : List (String × ℕ))
    → degree j (set_degree k v deg) ≡ (if str_eq k j then v else degree j deg)
unfolding degree set_degree
degree-set_degree j k v [] = ground arith
degree-set_degree j k v ((i, n) ∷ deg) =
    ground (arith, degree-set_degree j k v deg, eq_iff i k, eq_iff i j, eq_iff k j)

count-add_follower :
    (j k : String) (d n : String) (adj : List (String × List String))
    → count j (followers d (add_follower k n adj))
      ≡ count j (followers d adj) + (if str_eq k d then (if str_eq n j then 1 else 0) else 0)
unfolding followers add_follower
count-add_follower j k d n [] = ground arith
count-add_follower j k d n ((i, ns) ∷ adj) = ground (
  arith,
  count-add_follower j k d n adj,
  count-append j ns (n ∷ []),
  eq_iff i k,
  eq_iff i d,
  eq_iff k d,
)

degree-add_edges :
    (j name : String) (deps : List String) (g : Graph)
    → degree j (add_edges name deps g).in_degree
      ≡ degree j g.in_degree + (if str_eq name j then length deps else 0)
unfolding add_edges
degree-add_edges j name [] g = ground arith
degree-add_edges j name (d ∷ deps) g = ground (
  arith,
  degree-add_edges j name deps (record {
    in_degree = set_degree name (degree name g.in_degree + 1) g.in_degree;
    adj = add_follower d name g.adj;
  }),
  degree-set_degree j name (degree name g.in_degree + 1) g.in_degree,
  eq_iff name j,
)

count-add_edges :
    (j d name : String) (deps : List String) (g : Graph)
    → count j (followers d (add_edges name deps g).adj)
      ≡ count j (followers d g.adj) + (if str_eq name j then count d deps else 0)
unfolding add_edges
count-add_edges j d name [] g = ground arith
count-add_edges j d name (x ∷ deps) g = ground (
  arith,
  count-add_edges j d name deps (record {
    in_degree = set_degree name (degree name g.in_degree + 1) g.in_degree;
    adj = add_follower x name g.adj;
  }),
  count-add_follower j x d name g.adj,
)

degree-touch : (j k : String) (g : Graph) → degree j (touch k g).in_degree ≡ degree j g.in_degree
unfolding touch
degree-touch j k g =
    ground (arith, degree-set_degree j k (degree k g.in_degree) g.in_degree, eq_iff k j)

-- `inDegree` counts the dependencies.
pub degree-build_graph :
    (j : String) (steps : List Step) (g : Graph)
    → degree j (build_graph steps g).in_degree ≡ degree j g.in_degree + length (deps_of j steps)
unfolding build_graph
degree-build_graph j [] g = omega arith
degree-build_graph j (s ∷ steps) g = ground (
  arith,
  degree-build_graph j steps (add_edges s.name s.depends_on (touch s.name g)),
  degree-add_edges j s.name s.depends_on (touch s.name g),
  degree-touch j s.name g,
  length-append s.depends_on (deps_of j steps),
)

adj-touch : (d k : String) (g : Graph) → followers d (touch k g).adj ≡ followers d g.adj
unfolding touch
adj-touch d k g = refl

-- `adj` lists a step once for each time that it names the dependency.
pub count-build_graph :
    (j d : String) (steps : List Step) (g : Graph)
    → count j (followers d (build_graph steps g).adj)
      ≡ count j (followers d g.adj) + count d (deps_of j steps)
unfolding build_graph
count-build_graph j d [] g = omega arith
count-build_graph j d (s ∷ steps) g = ground (
  arith,
  count-build_graph j d steps (add_edges s.name s.depends_on (touch s.name g)),
  count-add_edges j d s.name s.depends_on (touch s.name g),
  ap (count j) (adj-touch d s.name g),
  count-append d s.depends_on (deps_of j steps),
)
