-- ===== src/Pipeline/Validate/Paths.antt =====
-- pkg/pipeline/spec.go: what validatePathComponent and validateRelativePath accept.
use Prim.Native.Char.{code}
use piper.Pipeline.Validate.{
  Invalid, first, fail_if, check_each, has_slash, normalize, split_path, is_absolute,
  validate_path_component, validate_relative_path,
}
use piper.Prelude.{
  sym, subst, ℕ, zero, suc, String, Bool, true, false, ◌||◌, Option, none, some, List, [], ◌∷◌,
  ◌==◌, has, str_eq, if◌then◌else◌, ◌≡◌, refl, arith, Bool-cases, inl, inr, All, eq_iff,
}

pub first-none : (a b : Option Invalid) → first a b ≡ none → (a ≡ none) × (b ≡ none)
unfolding first
first-none none b e = (refl, e)
first-none (some x) b e = cc e

pub fail_if-none : (b : Bool) (x : Invalid) → fail_if b x ≡ none → b ≡ false
unfolding fail_if
fail_if-none true x e = cc e
fail_if-none false x e = refl

pub check_each-none {ℓ} :
    {A : Type ℓ} (f : A → Option Invalid) (xs : List A)
    → check_each f xs ≡ none
    → All (λ x. f x ≡ none) xs
unfolding check_each
check_each-none f [] e = tt
check_each-none f (x ∷ xs) e =
    let (a, b) = first-none (f x) (check_each f xs) e in (a, check_each-none f xs b)

-- A walk along the parts of a path that starts `depth` directories inside a workspace never leaves it.
abbrev pub stays : ℕ → List String → Bool
stays depth [] = true
stays zero (part ∷ parts) =
    let here = stays zero parts in
    let inside = stays (suc zero) parts in
    if str_eq part ".." then false else if str_eq part "" || str_eq part "." then here else inside
stays (suc depth) (part ∷ parts) =
    let out = stays depth parts in
    let here = stays (suc depth) parts in
    let inside = stays (suc (suc depth)) parts in
    if str_eq part ".." then out else if str_eq part "" || str_eq part "." then here else inside

-- A relative path that stays in its workspace, with either kind of slash.
abbrev pub IsConfined : String → Type 0
IsConfined value =
    (is_absolute (normalize value) ≡ false) × (stays 0 (split_path (normalize value)) ≡ true)

stays-without_dots :
    (depth : ℕ) (parts : List String) → has ".." parts ≡ false → stays depth parts ≡ true
stays-without_dots depth [] h = refl
stays-without_dots zero (part ∷ parts) h =
    ground (arith, h, stays-without_dots zero parts, stays-without_dots (suc zero) parts)
stays-without_dots (suc depth) (part ∷ parts) h =
    ground
      (arith, h, stays-without_dots (suc depth) parts, stays-without_dots (suc (suc depth)) parts)

normalize-without_slash : (s : String) → has_slash s ≡ false → normalize s ≡ s
unfolding normalize has_slash
normalize-without_slash String.[] h = refl
normalize-without_slash (String.◌∷◌ c s) h =
    let a : (code c == 92) ≡ false = ground (arith, h) in
    let b : has_slash s ≡ false = ground (arith, h) in rw (a, normalize-without_slash s b) refl

split_path-without_slash : (s : String) → has_slash s ≡ false → split_path s ≡ s ∷ []
unfolding split_path has_slash
split_path-without_slash String.[] h = refl
split_path-without_slash (String.◌∷◌ c s) h =
    let a : (code c == 47) ≡ false = ground (arith, h) in
    let b : has_slash s ≡ false = ground (arith, h) in rw (a, split_path-without_slash s b) refl

is_absolute-without_slash : (s : String) → has_slash s ≡ false → is_absolute s ≡ false
unfolding is_absolute has_slash
is_absolute-without_slash String.[] h = refl
is_absolute-without_slash (String.◌∷◌ c s) h = ground (arith, h)

pub validate_path_component-IsConfined :
    (value : String)
    → validate_path_component value ≡ none
    → IsConfined value × (split_path (normalize value) ≡ value ∷ [])
unfolding validate_path_component
validate_path_component-IsConfined value e =
    let f = fail_if-none _ _ (first-none _ _ e).1 in
    let h : has_slash value ≡ false = ground (arith, f) in
    rw (normalize-without_slash value h, split_path-without_slash value h)
      ((is_absolute-without_slash value h, ground (arith, f)), refl)

pub validate_relative_path-IsConfined :
    (value : String) (allow_empty : Bool)
    → validate_relative_path value allow_empty ≡ none
    → IsConfined value
unfolding validate_relative_path
validate_relative_path-IsConfined value allow_empty e = elim (Bool-cases (str_eq value "")) [
  | inl t ↦
      subst IsConfined (sym ((eq_iff value "").0 t))
        (unfold normalize split_path is_absolute in (refl, refl))
  | inr f ↦
      let (a, b) = first-none _ _ (rw f at e) in
      (
        fail_if-none _ _ a,
        stays-without_dots 0 (split_path (normalize value)) (fail_if-none _ _ (first-none _ _ b).0),
      )
]
