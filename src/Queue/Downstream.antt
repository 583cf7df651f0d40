-- ===== src/Queue/Downstream.antt =====
-- internal/queue/queue.go: the entries that skipDownstream may skip, and their counts.
pub mod Closure
use piper.Queue.Finish.{skip_each, skip_downstream, skip_task, skip_visit, is_open}
use piper.Queue.Tasks.{names, put_task, key, find_task}
use piper.Queue.Timers.{transition_task}
use piper.Queue.Types.{RunEntry, Queue, TaskStatus, TaskEntry}
use native.Mathlib.Nat.{le_refl}
use piper.Prelude.{
  eq_refl, ◌&&◌, Option-cases, ◌<◌, subst, eq_iff, has, Bool-cases, length, str_eq, ◌∙◌, ◌≤◌, sym,
  if◌then◌else◌, some, false, true, refl, ℕ, suc, zero, String, ◌≡◌, List, [], ◌∷◌, arith, inl, inr,
  ◌⊎◌,
}

abbrev pub skipped_entry : TaskEntry → TaskEntry
skipped_entry e = transition_task TaskStatus.skipped e

-- The entry under this key, if it is open, does not depend on the step.
abbrev pub FreeAt : String → List TaskEntry → String → Type 0
FreeAt step tasks n =
    (e : TaskEntry)
    → find_task n tasks ≡ some e
    → is_open e.status ≡ true
    → has step e.step.depends_on ≡ false

-- No open entry depends on the step.
abbrev pub FreeOf : String → List TaskEntry → Type 0
FreeOf step tasks = (n : String) → FreeAt step tasks n

-- The entry under this key is open, and depends on the failed step or on an open entry that is
-- downstream of it in turn.
pub data IsDownstream (tasks : List TaskEntry) (failed : String) : String → Type 0 where
  direct :
      {n : String} (e : TaskEntry)
      → find_task n tasks ≡ some e
      → is_open e.status ≡ true
      → has failed e.step.depends_on ≡ true
      → IsDownstream tasks failed n
  through :
      {n : String} (m : String)
      → IsDownstream tasks failed m
      → (e : TaskEntry) → find_task n tasks ≡ some e
      → is_open e.status ≡ true
      → has m e.step.depends_on ≡ true
      → IsDownstream tasks failed n

-- The entry under this key was open and downstream of the failed step, and is skipped, and nothing
-- open depends on it any more.
pub record Skipped (failed : String) (before after : List TaskEntry) (n : String) : Type 0 where
  pub entry : TaskEntry
  pub was : find_task n before ≡ some entry
  pub open_before : is_open entry.status ≡ true
  pub below : IsDownstream before failed n
  pub now : find_task n after ≡ some (skipped_entry entry)
  pub free : FreeOf n after

-- Every entry is as it was, or was downstream of the failed step and is skipped.
abbrev pub OnlySkips : String → List TaskEntry → List TaskEntry → Type 0
OnlySkips failed before after =
    (n : String) → (find_task n after ≡ find_task n before) ⊎ Skipped failed before after n

-- An entry that is open was so before.
abbrev pub Shrinks : List TaskEntry → List TaskEntry → Type 0
Shrinks before after =
    (n : String) (e : TaskEntry)
    → find_task n after ≡ some e
    → is_open e.status ≡ true
    → find_task n before ≡ some e

pub IsDownstream-before :
    (before after : List TaskEntry) (failed : String)
    → Shrinks before after
    → {n : String} → IsDownstream after failed n
    → IsDownstream before failed n
IsDownstream-before before after failed sh (direct {n} e found is dep) =
    direct e (sh n e found is) is dep
IsDownstream-before before after failed sh (through {n} m d e found is dep) =
    through m (IsDownstream-before before after failed sh d) e (sh n e found is) is dep

-- What is downstream of an entry that is downstream.
pub IsDownstream-trans :
    (tasks : List TaskEntry) (failed m : String)
    → IsDownstream tasks failed m
    → {n : String} → IsDownstream tasks m n
    → IsDownstream tasks failed n
IsDownstream-trans tasks failed m top (direct e found is dep) = through m top e found is dep
IsDownstream-trans tasks failed m top (through k d e found is dep) =
    through k (IsDownstream-trans tasks failed m top d) e found is dep

pub skipped_closed :
    (e : TaskEntry) → is_open e.status ≡ true → is_open (skipped_entry e).status ≡ false
unfolding transition_task
skipped_closed e h = ground arith

-- What is free stays free.
pub FreeAt-mono :
    (step failed : String) (before after : List TaskEntry) (n : String)
    → OnlySkips failed before after
    → FreeAt step before n
    → FreeAt step after n
FreeAt-mono step failed before after n only free e found is = elim (only n) [
  | inl same ↦ free e (sym same ∙ found) is
  | inr s ↦ cc (skipped_closed s.entry s.open_before, s.now, found, is)
]

pub OnlySkips-Shrinks :
    (failed : String) (before after : List TaskEntry)
    → OnlySkips failed before after
    → Shrinks before after
OnlySkips-Shrinks failed before after only n e found is = elim (only n) [
  | inl same ↦ sym same ∙ found
  | inr s ↦ absurd (cc (skipped_closed s.entry s.open_before, s.now, found, is))
]

pub OnlySkips-refl : (failed : String) (tasks : List TaskEntry) → OnlySkips failed tasks tasks
OnlySkips-refl failed tasks n = inl refl

pub OnlySkips-trans :
    (failed : String) (a b c : List TaskEntry)
    → OnlySkips failed a b
    → OnlySkips failed b c
    → OnlySkips failed a c
OnlySkips-trans failed a b c ab bc n = elim (ab n) [
  | inl same ↦ elim (bc n) [
    | inl same' ↦ inl (same' ∙ same)
    | inr s ↦ inr (record {
      entry = s.entry;
      was = sym same ∙ s.was;
      open_before = s.open_before;
      below = IsDownstream-before a b failed (OnlySkips-Shrinks failed a b ab) s.below;
      now = s.now;
      free = s.free;
    })
  ]
  | inr s ↦ elim (bc n) [
    | inl same' ↦ inr (record {
      entry = s.entry;
      was = s.was;
      open_before = s.open_before;
      below = s.below;
      now = same' ∙ s.now;
      free = λ m. FreeAt-mono n failed b c m bc (s.free m);
    })
    | inr s' ↦ absurd (cc (skipped_closed s.entry s.open_before, s.now, s'.was, s'.open_before))
  ]
]

pub open_count : List TaskEntry → ℕ
open_count [] = 0
open_count (e ∷ tasks) = let rest = open_count tasks in if is_open e.status then suc rest else rest

pub open_count-le-length : (tasks : List TaskEntry) → open_count tasks ≤ length tasks
unfolding open_count
open_count-le-length [] = omega arith
open_count-le-length (e ∷ tasks) = ground (arith, open_count-le-length tasks)

-- The key under which an entry is found.
pub key_of_found :
    (n : String) (tasks : List TaskEntry) (e : TaskEntry) → find_task n tasks ≡ some e → key e ≡ n
unfolding find_task
key_of_found n [] e h = cc
key_of_found n (x ∷ tasks) e h = ground (arith, eq_iff (key x) n, key_of_found n tasks e)

pub open_count-put_task :
    (n : String) (tasks : List TaskEntry) (e e' : TaskEntry)
    → find_task n tasks ≡ some e
    → key e' ≡ n
    → is_open e.status ≡ true
    → is_open e'.status ≡ false
    → suc (open_count (put_task e' tasks)) ≡ open_count tasks
unfolding find_task put_task open_count
open_count-put_task n [] e e' h k o c = cc
open_count-put_task n (x ∷ tasks) e e' h k o c =
    ground (arith, eq_iff (key x) n, eq_iff (key x) (key e'), open_count-put_task n tasks e e')

pub find_task-put_task :
    (n m : String) (tasks : List TaskEntry) (e e' : TaskEntry)
    → find_task n tasks ≡ some e
    → key e' ≡ n
    → find_task m (put_task e' tasks) ≡ (if str_eq n m then some e' else find_task m tasks)
unfolding find_task put_task
find_task-put_task n m [] e e' h k = cc
find_task-put_task n m (x ∷ tasks) e e' h k = ground (
  arith,
  eq_iff (key x) n,
  eq_iff (key x) m,
  eq_iff n m,
  eq_iff (key x) (key e'),
  eq_iff (key e') m,
  find_task-put_task n m tasks e e',
)

pub has-names :
    (n : String) (tasks : List TaskEntry) (e : TaskEntry)
    → find_task n tasks ≡ some e
    → has n (names tasks) ≡ true
unfolding find_task
has-names n [] e h = cc
has-names n (x ∷ tasks) e h = ground (arith, has-names n tasks e)
