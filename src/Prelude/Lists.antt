-- ===== src/Prelude/Lists.antt =====
-- Lists over the native numbers, and sets of numbers and of texts kept as lists.
use Prim.Native.Nat.{ℕ, zero, suc, ◌+◌, ◌≤◌}
use Prim.Native.String.{String}
use mathlib.Core.Path.{◌≡◌, refl, ap}
use mathlib.Core.Option.{Option, none, some}
use mathlib.Core.Logic.{◌⊎◌, inl, inr}
use mathlib.Core.Bool.{Bool, true, false, ◌&&◌, ◌||◌}
use mathlib.Core.List.{List, [], ◌∷◌, ◌++◌}
use native.Mathlib.Omega.{arith}
use piper.Prelude.Tests.{str_eq, if◌then◌else◌}

module _ {ℓ} {A : Type ℓ} where
  abbrev pub length : List A → ℕ
  length [] = 0
  length (x ∷ xs) = suc (length xs)

  pub length-append : (xs ys : List A) → length (xs ++ ys) ≡ length xs + length ys
  length-append [] ys = omega arith
  length-append (x ∷ xs) ys = omega (arith, length-append xs ys)

  -- Every element passes the test; some element passes it.
  abbrev pub all : (A → Bool) → List A → Bool
  all p [] = true
  all p (x ∷ xs) = p x && all p xs

  abbrev pub any : (A → Bool) → List A → Bool
  any p [] = false
  any p (x ∷ xs) = p x || any p xs

  -- The elements that pass the test.
  abbrev pub keep : (A → Bool) → List A → List A
  keep p [] = []
  keep p (x ∷ xs) = let rest = keep p xs in if p x then x ∷ rest else rest

  pub length-keep-le : (p : A → Bool) (xs : List A) → length (keep p xs) ≤ length xs
  length-keep-le p [] = omega arith
  length-keep-le p (x ∷ xs) = ground (arith, length-keep-le p xs)

-- The text is in the list.
abbrev pub has : String → List String → Bool
has k xs = any (λ x. str_eq x k) xs

pub List-cases {ℓ} :
    {A : Type ℓ} (xs : List A) → (xs ≡ []) ⊎ ((x : A) × (rest : List A) × (xs ≡ x ∷ rest))
List-cases [] = inl refl
List-cases (x ∷ rest) = inr (x, rest, refl)

pub Nat-cases : (n : ℕ) → (n ≡ 0) ⊎ ((m : ℕ) × (n ≡ suc m))
Nat-cases zero = inl refl
Nat-cases (suc m) = inr (m, refl)

module _ {ℓ} {A : Type ℓ} where
  -- The element at a position, and the others.
  abbrev pub pick : ℕ → List A → Option (A × List A)
  pick n [] = none
  pick zero (x ∷ xs) = some (x, xs)
  pick (suc n) (x ∷ xs) =
      let rest = pick n xs in elim rest [ none ↦ none | some (y, others) ↦ some (y, x ∷ others) ]

  -- The elements that a pick leaves, and the one it takes.
  abbrev pub LeavesOneLess : List A → Option (A × List A) → Type 0
  LeavesOneLess xs none = Unit
  LeavesOneLess xs (some (x, others)) = length xs ≡ suc (length others)

  pub pick-LeavesOneLess : (n : ℕ) (xs : List A) → LeavesOneLess xs (pick n xs)
  pick-LeavesOneLess n [] = tt
  pick-LeavesOneLess zero (x ∷ xs) = refl
  pick-LeavesOneLess (suc n) (x ∷ xs) = behind (pick n xs) (pick-LeavesOneLess n xs)
    where
      behind :
          (o : Option (A × List A))
          → LeavesOneLess xs o
          → LeavesOneLess
              (x ∷ xs)
              (elim o [ none ↦ none | some (y, others) ↦ some (y, x ∷ others) ])
      behind none h = tt
      behind (some (y, others)) h = ap suc h
