-- ===== src/Pipeline/Dag/Names.antt =====
-- pkg/pipeline/dag.go: lists of step names as sets, for the order of the steps.
use piper.Prelude.{
  ℕ, ◌+◌, ◌≤◌, String, ◌≡◌, refl, true, false, not, List, [], ◌∷◌, ◌++◌, arith, length, has, str_eq,
  if◌then◌else◌, keep, Bool-cases, inl, inr, eq_iff, eq_refl,
}

-- How often a name stands in a list.
abbrev pub count : String → List String → ℕ
count k [] = 0
count k (x ∷ xs) = (if str_eq x k then 1 else 0) + count k xs

-- No name twice.
abbrev pub Distinct : List String → Type 0
Distinct [] = Unit
Distinct (x ∷ xs) = (has x xs ≡ false) × Distinct xs

pub count-append : (k : String) (xs ys : List String) → count k (xs ++ ys) ≡ count k xs + count k ys
count-append k [] ys = omega arith
count-append k (x ∷ xs) ys = omega (arith, count-append k xs ys)

pub has-append :
    (k : String) (xs ys : List String) → has k (xs ++ ys) ≡ (if has k xs then true else has k ys)
has-append k [] ys = refl
has-append k (x ∷ xs) ys = ground (arith, has-append k xs ys)

-- The names of `xs` that are not in `seen`.
abbrev pub outside : List String → List String → List String
outside seen xs = keep (λ x. not (has x seen)) xs

-- A name that is new in `seen` takes its occurrences away.
pub length-outside_snoc :
    (seen : List String) (k : String) (xs : List String)
    → has k seen ≡ false
    → length (outside (seen ++ k ∷ []) xs) + count k xs ≡ length (outside seen xs)
length-outside_snoc seen k [] h = refl
length-outside_snoc seen k (x ∷ xs) h =
    ground
      (arith, length-outside_snoc seen k xs h, has-append x seen (k ∷ []), eq_iff x k, eq_iff k x)

-- A name that is in `seen`, and a list that is all in `seen`.
pub outside-empty :
    (seen xs : List String) (k : String)
    → length (outside seen xs) ≡ 0
    → has k xs ≡ true
    → has k seen ≡ true
outside-empty seen [] k e h = cc
outside-empty seen (x ∷ xs) k e h = ground (arith, outside-empty seen xs k, eq_iff x k)

pub outside-witness :
    (seen xs : List String)
    → 1 ≤ length (outside seen xs)
    → (d : String) × (has d xs ≡ true) × (has d seen ≡ false)
outside-witness seen [] h = absurd (omega arith)
outside-witness seen (x ∷ xs) h = elim (Bool-cases (has x seen)) [
  | inl t ↦
      let (d, i, o) = outside-witness seen xs (ground (arith, h, t)) in (d, ground (arith, i), o)
  | inr f ↦ (x, ground (arith, eq_refl x), f)
]

pub Distinct-snoc :
    (xs : List String) (k : String) → Distinct xs → has k xs ≡ false → Distinct (xs ++ k ∷ [])
Distinct-snoc [] k d h = (refl, tt)
Distinct-snoc (x ∷ xs) k d h = (
  ground (arith, has-append x xs (k ∷ []), eq_iff x k, eq_iff k x, d.0, h),
  Distinct-snoc xs k d.1 (ground (arith, h)),
)

-- A set of names inside another is not longer.
delete : String → List String → List String
delete k [] = []
delete k (x ∷ xs) = if str_eq x k then xs else x ∷ delete k xs

length-delete :
    (k : String) (xs : List String) → has k xs ≡ true → length (delete k xs) + 1 ≡ length xs
unfolding delete
length-delete k [] h = cc
length-delete k (x ∷ xs) h = ground (arith, length-delete k xs)

has-delete :
    (j k : String) (xs : List String)
    → has j xs ≡ true
    → str_eq k j ≡ false
    → has j (delete k xs) ≡ true
unfolding delete
has-delete j k [] h n = cc
has-delete j k (x ∷ xs) h n = ground (arith, has-delete j k xs, eq_iff x k, eq_iff x j, eq_iff k j)

pub length-le_of_subset :
    (xs ys : List String)
    → Distinct xs
    → ((k : String) → has k xs ≡ true → has k ys ≡ true)
    → length xs ≤ length ys
length-le_of_subset [] ys d f = omega arith
length-le_of_subset (x ∷ xs) ys d f =
    let here : has x ys ≡ true = f x (ground (arith, eq_refl x)) in
    omega (
      arith,
      length-delete x ys here,
      length-le_of_subset xs (delete x ys) d.1
          (λ k h. has-delete k x ys (f k (later x k xs h)) (other x k xs h d.0)),
    )
  where
    later : (x k : String) (xs : List String) → has k xs ≡ true → has k (x ∷ xs) ≡ true
    later x k xs h = ground (arith, h)

    other :
        (x k : String) (xs : List String) → has k xs ≡ true → has x xs ≡ false → str_eq x k ≡ false
    other x k xs h n = elim (Bool-cases (str_eq x k)) [
      | inl t ↦ ground (arith, eq_iff x k, h, n, t)
      | inr f ↦ f
    ]
