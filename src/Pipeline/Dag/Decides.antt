-- ===== src/Pipeline/Dag/Decides.antt =====
-- pkg/pipeline/dag.go: topoSort as a decision between an order and a cycle.
use piper.Pipeline.Dag.Order.{build_graph-waiting, length-roots-le}
use piper.Pipeline.Dag.Counts.{count-build_graph, deps_of, degree-build_graph}
use mathlib.Core.List.{append-nil}
use piper.Pipeline.{Step}
use piper.Pipeline.Dag.{
  drain, edge_count, followers, Graph, degree, topo_sort, build_graph, empty_graph, roots,
}
use piper.Pipeline.Dag.Names.{
  has-append, outside-witness, outside-empty, count, length-le_of_subset, outside, Distinct,
}
use piper.Pipeline.Dag.Kahn.{Running, step_names}
use piper.Pipeline.Dag.Correct.{drain-Running, DepsFirst}
use piper.Prelude.{
  ◌+◌, eq_iff, eq_refl, ◌∙◌, ap, subst, ◌≢◌, ℕ, suc, ◌≤◌, String, ◌≡◌, refl, List, [], ◌∷◌, ◌++◌,
  arith, length, str_eq, has, true, false, not, ◌&&◌, Bool-cases, inl, inr, ◌==◌, some, none, ◌⊎◌,
}

-- Every dependency is the name of a step, as Validate demands.
abbrev pub KnownDeps : List Step → Type 0
KnownDeps steps = (k d : String) → has d (deps_of k steps) ≡ true → has d (step_names steps) ≡ true

-- The order holds each step once, after all of its dependencies.
pub record IsOrder (steps : List Step) (order : List String) : Type 0 where
  pub only : (k : String) → has k order ≡ true → has k (step_names steps) ≡ true
  pub all_steps : (k : String) → has k (step_names steps) ≡ true → has k order ≡ true
  pub once : Distinct order
  pub deps_first : DepsFirst steps [] order

-- A set of steps that wait for one another: each has a dependency inside the set.
pub record Stuck (steps : List Step) : Type 0 where
  pub names : List String
  pub inhabited : 1 ≤ length names
  pub steps_only : (k : String) → has k names ≡ true → has k (step_names steps) ≡ true
  pub waits :
      (k : String)
      → has k names ≡ true
      → (d : String) × (has d (deps_of k steps) ≡ true) × (has d names ≡ true)

has-outside :
    (k : String) (seen xs : List String) → has k (outside seen xs) ≡ (has k xs && not (has k seen))
has-outside k seen [] = refl
has-outside k seen (x ∷ xs) = ground (arith, has-outside k seen xs, eq_iff x k)

outside-nothing : (xs : List String) → length (outside [] xs) ≡ length xs
outside-nothing [] = refl
outside-nothing (x ∷ xs) = omega (arith, outside-nothing xs)

length-step_names : (steps : List Step) → length (step_names steps) ≡ length steps
length-step_names [] = refl
length-step_names (s ∷ steps) = omega (arith, length-step_names steps)

has-roots :
    (k : String) (steps : List Step) (g : Graph)
    → has k (roots steps g) ≡ (has k (step_names steps) && degree k g.in_degree == 0)
unfolding roots
has-roots k [] g = refl
has-roots k (s ∷ steps) g = ground (arith, has-roots k steps g, eq_iff s.name k)

Distinct-roots :
    (steps : List Step) (g : Graph) → Distinct (step_names steps) → Distinct (roots steps g)
unfolding roots
Distinct-roots [] g d = tt
Distinct-roots (s ∷ steps) g d = elim (Bool-cases (degree s.name g.in_degree == 0)) [
  | inl t ↦ rw t (ground (arith, has-roots s.name steps g, d.0), Distinct-roots steps g d.1)
  | inr f ↦ rw f (Distinct-roots steps g d.1)
]

start-Running :
    (steps : List Step)
    → Distinct (step_names steps)
    → Running steps []
        (build_graph steps empty_graph).in_degree
        (roots steps (build_graph steps empty_graph))
        []
start-Running steps d =
    let g = build_graph steps empty_graph in
    record {
      counted = λ k. ground (
        arith,
        degree-build_graph k steps empty_graph,
        outside-nothing (deps_of k steps),
        no_degree k,
      );
      free = λ k i. ground (arith, has-roots k steps g, i);
      distinct = Distinct-roots steps g d;
      complete = λ k named zero_now. ground (arith, has-roots k steps g, named, zero_now);
      known = λ k i. ground (arith, has-roots k steps g, i);
      followed = λ k i. absurd (omega (arith, i));
    }
  where
    no_degree : (k : String) → degree k [] ≡ 0
    no_degree k = unfold degree in refl

module _ (steps : List Step) (unique : Distinct (step_names steps)) (deg : List (String × ℕ))
    (order : List String) (r : Running steps [] deg [] order) where
  in_order : (k : String) → has k (order ++ []) ≡ has k order
  in_order k = ap (has k) (append-nil order)

  order_known : (k : String) → has k order ≡ true → has k (step_names steps) ≡ true
  order_known k i = r.known k (in_order k ∙ i)

  order-Distinct : Distinct order
  order-Distinct = subst Distinct (append-nil order) r.distinct

  full-all :
      length order ≡ length steps
      → (k : String) → has k (step_names steps) ≡ true
      → has k order ≡ true
  full-all e k named = elim (Bool-cases (has k order)) [
    | inl t ↦ t
    | inr f ↦ absurd (
        omega (
          arith,
          e,
          length-step_names steps,
          length-le_of_subset (k ∷ order) (step_names steps) (f, order-Distinct)
              (λ j i. elim (Bool-cases (str_eq k j)) [
                | inl t ↦ subst (λ x. has x (step_names steps) ≡ true) ((eq_iff k j).0 t) named
                | inr n ↦ order_known j (ground (arith, i, n))
              ]),
        ))
  ]

  left_over : length order ≢ length steps → 1 ≤ length (outside order (step_names steps))
  left_over n = elim (Bool-cases (length (outside order (step_names steps)) == 0)) [
    | inl t ↦ absurd (
        n (
          omega (
            arith,
            length-step_names steps,
            length-le_of_subset order (step_names steps) order-Distinct order_known,
            length-le_of_subset (step_names steps) order unique
                (λ k i. outside-empty order (step_names steps) k (ground (arith, t)) i),
          )))
    | inr f ↦ ground (arith, f)
  ]

  still_waits :
      KnownDeps steps
      → (k : String) → has k (outside order (step_names steps)) ≡ true
      → (d : String) × (has d (deps_of k steps) ≡ true)
        × (has d (outside order (step_names steps)) ≡ true)
  still_waits known k i =
      let named : has k (step_names steps) ≡ true =
        ground (arith, has-outside k order (step_names steps), i) in
      let away : has k order ≡ false = ground (arith, has-outside k order (step_names steps), i) in
      let (d, dep, out) =
        outside-witness order (deps_of k steps)
          (ground (arith, r.counted k, r.complete k named, in_order k, away)) in
      (d, dep, ground (arith, has-outside d order (step_names steps), known k d dep, out))

-- The first of the waiting steps in an order would have a dependency before it.
waits-outside :
    (steps : List Step) (names seen order : List String)
    → ((k : String)
        → has k names ≡ true
        → (d : String) × (has d (deps_of k steps) ≡ true) × (has d names ≡ true))
    → ((k : String) → has k names ≡ true → has k seen ≡ false)
    → DepsFirst steps seen order
    → (k : String) → has k names ≡ true
    → has k order ≡ false
waits-outside steps names seen [] w out f k i = refl
waits-outside steps names seen (n ∷ order) w out f k i = elim (Bool-cases (has n names)) [
  | inl t ↦ let (d, dep, named) = w n t in absurd (ground (arith, out d named, f.0 d dep))
  | inr o ↦ ground (
    arith,
    eq_iff n k,
    o,
    i,
    waits-outside steps names (seen ++ n ∷ []) order w
        (λ j named. ground (arith, has-append j seen (n ∷ []), out j named, eq_iff n j, o, named))
        f.1 k i,
  )
]

Stuck-no-IsOrder : (steps : List Step) → Stuck steps → (order : List String) → ¬ IsOrder steps order
Stuck-no-IsOrder steps stuck order o =
    let (k, i) = member stuck.names stuck.inhabited in
    cc (
      o.all_steps k (stuck.steps_only k i),
      waits-outside steps stuck.names [] order stuck.waits (λ j named. refl) o.deps_first k i,
    )
  where
    member : (names : List String) → 1 ≤ length names → (k : String) × (has k names ≡ true)
    member [] n = absurd (omega (arith, n))
    member (k ∷ names) n = (k, ground (arith, eq_refl k))

-- For steps with different names and known dependencies, topoSort either returns an order that holds
-- each step once and after all of its dependencies, or it fails, there is a set of steps in which
-- each step depends on another of the set, and no order of that kind exists.
pub topo_sort_decides :
    (steps : List Step)
    → Distinct (step_names steps)
    → KnownDeps steps
    → ((order : List String) × (topo_sort steps ≡ some order) × IsOrder steps order)
      ⊎ ((topo_sort steps ≡ none) × Stuck steps × ((order : List String) → ¬ IsOrder steps order))
unfolding topo_sort
topo_sort_decides steps unique known =
    let g = build_graph steps empty_graph in
    let fuel = suc (length steps + edge_count steps) in
    let (deg, r, f) =
      drain-Running steps g.adj fuel g.in_degree (roots steps g) []
        (λ k d. count-build_graph k d steps empty_graph ∙ no_follower k d)
        (omega (arith, length-roots-le steps g, build_graph-waiting steps empty_graph))
        (start-Running steps unique) tt in
    let order = drain fuel g.adj g.in_degree (roots steps g) [] in
    elim (Bool-cases (length order == length steps)) [
      | inl t ↦ inl (
        order,
        rw t refl,
        record {
          only = order_known steps unique deg order r;
          all_steps = full-all steps unique deg order r (ground (arith, t));
          once = order-Distinct steps unique deg order r;
          deps_first = f;
        },
      )
      | inr n ↦
          let stuck : Stuck steps = record {
            names = outside order (step_names steps);
            inhabited = left_over steps unique deg order r (λ e. ground (arith, n, e));
            steps_only = λ k i. ground (arith, has-outside k order (step_names steps), i);
            waits = still_waits steps unique deg order r known;
          } in
          inr (rw n refl, stuck, Stuck-no-IsOrder steps stuck)
    ]
  where
    no_follower :
        (k d : String)
        → count k (followers d []) + count d (deps_of k steps) ≡ count d (deps_of k steps)
    no_follower k d = unfold followers in omega arith
