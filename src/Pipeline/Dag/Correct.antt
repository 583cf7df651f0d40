-- ===== src/Pipeline/Dag/Correct.antt =====
-- pkg/pipeline/dag.go: topoSort against the meaning of the dependencies.
use piper.Pipeline.Dag.Order.{release-waiting, waiting}
use piper.Pipeline.Dag.Counts.{deps_of}
use mathlib.Core.List.{append_assoc, append-nil}
use piper.Pipeline.{Step}
use piper.Pipeline.Dag.{followers, drain}
use piper.Pipeline.Dag.Names.{
  length-outside_snoc, count-append, outside-empty, count, Distinct, has-append,
}
use piper.Pipeline.Dag.Kahn.{release-Running, Running, step_names}
use piper.Prelude.{
  eq_refl, sym, eq_iff, subst, ℕ, suc, zero, ◌+◌, ◌≤◌, String, ◌≡◌, refl, List, [], ◌∷◌, ◌++◌,
  arith, length, has, true, false,
}

-- Each name of the order comes after the dependencies of its steps, which are in `seen` or before it.
abbrev pub DepsFirst : List Step → List String → List String → Type 0
DepsFirst steps seen [] = Unit
DepsFirst steps seen (n ∷ rest) =
    ((d : String) → has d (deps_of n steps) ≡ true → has d seen ≡ true)
    × DepsFirst steps (seen ++ n ∷ []) rest

DepsFirst-snoc :
    (steps : List Step) (seen order : List String) (n : String)
    → DepsFirst steps seen order
    → ((d : String) → has d (deps_of n steps) ≡ true → has d (seen ++ order) ≡ true)
    → DepsFirst steps seen (order ++ n ∷ [])
DepsFirst-snoc steps seen [] n h f =
    (λ d i. subst (λ l. has d l ≡ true) (append-nil seen) (f d i), tt)
DepsFirst-snoc steps seen (x ∷ order) n h f = (
  h.0,
  DepsFirst-snoc steps (seen ++ x ∷ []) order n h.1
      (λ d i. subst (λ l. has d l ≡ true) (sym (append_assoc seen (x ∷ []) order)) (f d i)),
)

-- The next name leaves the queue.
Running-take :
    (steps : List Step) (adj : List (String × List String)) (deg : List (String × ℕ)) (n : String)
    (queue order : List String)
    → ((k d : String) → count k (followers d adj) ≡ count d (deps_of k steps))
    → Running steps [] deg (n ∷ queue) order
    → Running steps (followers n adj) deg queue (order ++ n ∷ [])
Running-take steps adj deg n queue order edges r = record {
  counted = λ k. ground (
    arith,
    r.counted k,
    edges k n,
    length-outside_snoc order n (deps_of k steps) (fresh order n queue r.distinct),
  );
  free = λ k i. r.free k (subst (λ l. has k l ≡ true) moved i);
  distinct = subst Distinct (sym moved) r.distinct;
  complete =
      λ k named zero_now. subst (λ l. has k l ≡ true) (sym moved) (r.complete k named zero_now);
  known = λ k i. r.known k (subst (λ l. has k l ≡ true) moved i);
  followed = λ k i. named_dependent k n steps (omega (arith, i, edges k n));
}
  where
    moved : (order ++ n ∷ []) ++ queue ≡ order ++ n ∷ queue
    moved = append_assoc order (n ∷ []) queue

    fresh :
        (order : List String) (n : String) (queue : List String)
        → Distinct (order ++ n ∷ queue)
        → has n order ≡ false
    fresh [] n queue d = refl
    fresh (x ∷ order) n queue d = ground (
      arith,
      fresh order n queue d.1,
      has-append x order (n ∷ queue),
      d.0,
      eq_iff x n,
      eq_iff n x,
    )

    named_dependent :
        (k d : String) (steps : List Step)
        → 1 ≤ count d (deps_of k steps)
        → has k (step_names steps) ≡ true
    named_dependent k d [] h = absurd (omega (arith, h))
    named_dependent k d (s ∷ steps) h =
        ground (arith, named_dependent k d steps, count-append d s.depends_on (deps_of k steps), h)

pub drain-Running :
    (steps : List Step) (adj : List (String × List String)) (fuel : ℕ) (deg : List (String × ℕ))
    (queue order : List String)
    → ((k d : String) → count k (followers d adj) ≡ count d (deps_of k steps))
    → length queue + waiting deg ≤ fuel
    → Running steps [] deg queue order
    → DepsFirst steps [] order
    → (deg' : List (String × ℕ)) × Running steps [] deg' [] (drain fuel adj deg queue order)
      × DepsFirst steps [] (drain fuel adj deg queue order)
unfolding drain
drain-Running steps adj zero deg [] order edges h r f = (deg, r, f)
drain-Running steps adj zero deg (n ∷ queue) order edges h r f = absurd (omega (arith, h))
drain-Running steps adj (suc fuel) deg [] order edges h r f = (deg, r, f)
drain-Running steps adj (suc fuel) deg (n ∷ queue) order edges h r f =
    drain-Running steps adj fuel _ _ _ edges
      (omega (arith, h, release-waiting (followers n adj) deg queue))
      (release-Running steps (followers n adj) deg queue (order ++ n ∷ [])
        (Running-take steps adj deg n queue order edges r))
      (DepsFirst-snoc steps [] order n f (λ d i. met d i))
  where
    met : (d : String) → has d (deps_of n steps) ≡ true → has d order ≡ true
    met d i =
        outside-empty order (deps_of n steps) d
          (ground (
            arith,
            r.counted n,
            r.free n (ground (arith, has-append n order (n ∷ queue), eq_refl n)),
          ))
          i
