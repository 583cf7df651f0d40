-- ===== src/Queue/TaskId.antt =====
-- internal/queue/queue.go: MakeTaskID and SplitTaskID.
use Prim.Native.Char.{Char, code}
use Prim.Native.String.{◌++◌}
use Prim.Native.String.append
use text.Mathlib.TextEquality.{Char-path}
use piper.Prelude.{
  ℕ, String, ◌≡◌, refl, ap, ◌∙◌, Bool, true, false, Option, none, some, arith, ◌==◌, if◌then◌else◌,
  Bool-cases, inl, inr,
}

abbrev colon : ℕ
colon = 58

unfoldable pub make_task_id : String → String → String
make_task_id run_id step_name = run_id ++ (":" ++ step_name)

-- The text before the colon gets one more character.
under : Char → Option (String × String) → Option (String × String)
under c none = none
under c (some (l, r)) = some (String.◌∷◌ c l, r)

-- `none` is the error "missing colon separator".
unfoldable pub split_task_id : String → Option (String × String)
unfolding under
split_task_id String.[] = none
split_task_id (String.◌∷◌ c s) =
    let rest = under c (split_task_id s) in if code c == colon then some (String.[], s) else rest

abbrev pub has_colon : String → Bool
has_colon String.[] = false
has_colon (String.◌∷◌ c s) = if code c == colon then true else has_colon s

split_example : split_task_id "run-1:train:x" ≡ some ("run-1", "train:x")
unfolding split_task_id
split_example = refl

colon_char : Char
colon_char = ":"

colon-append : (t : String) → ":" ++ t ≡ String.◌∷◌ colon_char t
unfolding colon_char
colon-append t = append.cons ":" "" t ∙ ap (String.◌∷◌ ":") (append.nil t)

-- The split at the first character, when the rest is split.
split_cons :
    (c : Char) (s l r : String)
    → (code c == colon) ≡ false
    → split_task_id s ≡ some (l, r)
    → split_task_id (String.◌∷◌ c s) ≡ some (String.◌∷◌ c l, r)
unfolding split_task_id
split_cons c s l r h e = rw (h, e)

-- A task id of a run id without a colon splits into its two parts, whatever the step is called.
pub split_task_id-make_task_id :
    (run_id step_name : String)
    → has_colon run_id ≡ false
    → split_task_id (make_task_id run_id step_name) ≡ some (run_id, step_name)
unfolding make_task_id
split_task_id-make_task_id String.[] step_name h =
    rw (append.nil (":" ++ step_name), colon-append step_name)
      (unfold split_task_id colon_char in refl)
split_task_id-make_task_id (String.◌∷◌ c s) step_name h = elim (Bool-cases (code c == colon)) [
  | inl e ↦ ground (arith, h)
  | inr e ↦
      rw (append.cons c s (":" ++ step_name))
        (split_cons c _ s step_name e (split_task_id-make_task_id s step_name (ground arith)))
]

-- What the recursive case of a successful split was.
under_inv :
    (c : Char) (o : Option (String × String)) (run_id step_name : String)
    → under c o ≡ some (run_id, step_name)
    → (l : String) × (o ≡ some (l, step_name)) × (run_id ≡ String.◌∷◌ c l)
unfolding under
under_inv c none run_id step_name h = cc
under_inv c (some (l, r)) run_id step_name h = (l, cc, cc)

split_cons_inv :
    (c : Char) (s run_id step_name : String)
    → (code c == colon) ≡ false
    → split_task_id (String.◌∷◌ c s) ≡ some (run_id, step_name)
    → (l : String) × (split_task_id s ≡ some (l, step_name)) × (run_id ≡ String.◌∷◌ c l)
unfolding split_task_id
split_cons_inv c s run_id step_name e h =
    under_inv c (split_task_id s) run_id step_name (ground arith)

split_colon_inv :
    (c : Char) (s run_id step_name : String)
    → (code c == colon) ≡ true
    → split_task_id (String.◌∷◌ c s) ≡ some (run_id, step_name)
    → (run_id ≡ "") × (step_name ≡ s)
unfolding split_task_id
split_colon_inv c s run_id step_name e h = ground arith

is_colon_char : (c : Char) → (code c == colon) ≡ true → colon_char ≡ c
unfolding colon_char
is_colon_char c e = Char-path ":" c (ground arith)

-- A text that splits is the task id of its two parts, and its run id has no colon.
pub make_task_id-split_task_id :
    (id run_id step_name : String)
    → split_task_id id ≡ some (run_id, step_name)
    → (make_task_id run_id step_name ≡ id) × (has_colon run_id ≡ false)
unfolding make_task_id
make_task_id-split_task_id String.[] run_id step_name h = unfold split_task_id in cc
make_task_id-split_task_id (String.◌∷◌ c s) run_id step_name h =
    elim (Bool-cases (code c == colon)) [
      | inl e ↦
          let (no_run, rest) = split_colon_inv c s run_id step_name e h in
          rw (no_run, rest, append.nil (":" ++ s), colon-append s, is_colon_char c e) (refl, refl)
      | inr e ↦
          let (l, split, is_l) = split_cons_inv c s run_id step_name e h in
          let (whole, free) = make_task_id-split_task_id s l step_name split in
          rw (is_l, append.cons c l (":" ++ step_name)) (ap (String.◌∷◌ c) whole, rw e free)
    ]
