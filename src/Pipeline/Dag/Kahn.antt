-- ===== src/Pipeline/Dag/Kahn.antt =====
-- pkg/pipeline/dag.go: the state of topoSort's loop, and what its two loops keep of it.
use mathlib.Core.List.{append_assoc}
use piper.Pipeline.{Step}
use piper.Pipeline.Dag.{set_degree, release, degree}
use piper.Pipeline.Dag.Names.{Distinct-snoc, has-append, count, outside, Distinct}
use piper.Pipeline.Dag.Counts.{degree-set_degree, deps_of}
use piper.Prelude.{
  subst, inr, inl, eq_refl, ◌-◌, eq_iff, str_eq, Bool-cases, ◌==◌, ◌≤◌, if◌then◌else◌, arith, false,
  ℕ, ◌+◌, String, ◌≡◌, List, [], ◌∷◌, ◌++◌, length, has, true,
}

-- The names of the steps.
abbrev pub step_names : List Step → List String
step_names [] = []
step_names (s ∷ steps) = s.name ∷ step_names steps

-- The names in `order` are out, those in `queue` are next, and `left` are the followers of the last
-- one out that are still to be visited.
pub record Running (steps : List Step) (left : List String) (deg : List (String × ℕ))
    (queue order : List String) : Type 0 where
  pub counted :
      (k : String) → degree k deg ≡ length (outside order (deps_of k steps)) + count k left
  pub free : (k : String) → has k (order ++ queue) ≡ true → degree k deg ≡ 0
  pub distinct : Distinct (order ++ queue)
  pub complete :
      (k : String)
      → has k (step_names steps) ≡ true
      → degree k deg ≡ 0
      → has k (order ++ queue) ≡ true
  pub known : (k : String) → has k (order ++ queue) ≡ true → has k (step_names steps) ≡ true
  pub followed : (k : String) → 1 ≤ count k left → has k (step_names steps) ≡ true

module _ (steps : List Step) (n : String) (left : List String) (deg : List (String × ℕ))
    (queue order : List String) (r : Running steps (n ∷ left) deg queue order) where
  deg' : List (String × ℕ)
  deg' = set_degree n (degree n deg - 1) deg

  -- The follower that is visited still counts a dependency.
  open_here : 1 ≤ degree n deg
  open_here = ground (arith, r.counted n, eq_refl n)

  not_yet : has n (order ++ queue) ≡ false
  not_yet = elim (Bool-cases (has n (order ++ queue))) [
    | inl t ↦ absurd (omega (arith, r.free n t, open_here))
    | inr f ↦ f
  ]

  one_less : (k : String) → degree k deg' + (if str_eq n k then 1 else 0) ≡ degree k deg
  unfolding deg'
  one_less k = ground (arith, degree-set_degree k n (degree n deg - 1) deg, eq_iff n k, open_here)

  counted_less :
      (k : String) → degree k deg' ≡ length (outside order (deps_of k steps)) + count k left
  counted_less k = ground (arith, one_less k, r.counted k)

  followed_less : (k : String) → 1 ≤ count k left → has k (step_names steps) ≡ true
  followed_less k h = r.followed k (ground (arith, h))

  still_free : (k : String) → has k (order ++ queue) ≡ true → degree k deg' ≡ 0
  still_free k h = omega (arith, one_less k, r.free k h)

  -- The follower waits for more.
  Running-skip : (degree n deg == 1) ≡ false → Running steps left deg' queue order
  Running-skip h = record {
    counted = counted_less;
    free = still_free;
    distinct = r.distinct;
    complete = λ k named zero_now. r.complete k named (elim (Bool-cases (str_eq n k)) [
      | inl t ↦ absurd (ground (arith, one_less k, zero_now, h, t, eq_iff n k))
      | inr f ↦ ground (arith, one_less k, zero_now, f)
    ]);
    known = r.known;
    followed = followed_less;
  }

  pushed :
      (k : String)
      → has k (order ++ (queue ++ n ∷ [])) ≡ (if has k (order ++ queue) then true else str_eq n k)
  pushed k = ground (
    arith,
    has-append k order (queue ++ n ∷ []),
    has-append k queue (n ∷ []),
    has-append k order queue,
  )

  -- The follower has no dependency left and is queued.
  Running-push : (degree n deg == 1) ≡ true → Running steps left deg' (queue ++ n ∷ []) order
  Running-push h = record {
    counted = counted_less;
    free = λ k i. ground (arith, pushed k, i, still_free k, one_less k, h, eq_iff n k);
    distinct =
        subst Distinct (append_assoc order queue (n ∷ []))
          (Distinct-snoc (order ++ queue) n r.distinct not_yet);
    complete =
        λ k named zero_now. ground (arith, pushed k, r.complete k named, one_less k, zero_now);
    known = λ k i.
        ground
          (arith, pushed k, i, r.known k, eq_iff n k, r.followed n (ground (arith, eq_refl n)));
    followed = followed_less;
  }

pub release-Running :
    (steps : List Step) (left : List String) (deg : List (String × ℕ)) (queue order : List String)
    → Running steps left deg queue order
    → Running steps [] (release left deg queue).0 (release left deg queue).1 order
unfolding release deg'
release-Running steps [] deg queue order r = r
release-Running steps (n ∷ left) deg queue order r = elim (Bool-cases (degree n deg == 1)) [
  | inl t ↦
      release-Running steps left _ _ order (rw t (Running-push steps n left deg queue order r t))
  | inr f ↦
      release-Running steps left _ _ order (rw f (Running-skip steps n left deg queue order r f))
]
