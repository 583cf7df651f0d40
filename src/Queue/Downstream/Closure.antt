-- ===== src/Queue/Downstream/Closure.antt =====
-- internal/queue/queue.go: the recursion of skipDownstream.
use piper.Queue.Downstream.{
  IsDownstream-before, IsDownstream-trans, direct, IsDownstream, Shrinks, FreeAt-mono,
  open_count-put_task, OnlySkips-trans, OnlySkips-refl, FreeAt, find_task-put_task, skipped_closed,
  open_count-le-length, has-names, key_of_found, OnlySkips, FreeOf, open_count, skipped_entry,
}
use piper.Queue.Finish.{skip_each, skip_downstream, skip_task, skip_visit, is_open}
use piper.Queue.Tasks.{names, put_task, key, find_task}
use piper.Queue.Timers.{transition_task}
use piper.Queue.Types.{RunEntry, Queue, TaskEntry}
use native.Mathlib.Nat.{le_refl}
use piper.Prelude.{
  eq_refl, ◌&&◌, Option-cases, ◌<◌, subst, eq_iff, has, Bool-cases, length, str_eq, ◌∙◌, ◌≤◌, sym,
  some, true, ℕ, suc, zero, String, ◌≡◌, List, [], ◌∷◌, arith, inl, inr,
}

-- What a call of skipDownstream, or one visit of its loop, guarantees.
record Closes (step : String) (before after : List TaskEntry) : Type 0 where
  free : FreeOf step after
  only : OnlySkips step before after

key-skipped_entry : (e : TaskEntry) → key (skipped_entry e) ≡ key e
unfolding transition_task
key-skipped_entry e = ground arith

put-Shrinks :
    (n : String) (tasks : List TaskEntry) (e : TaskEntry)
    → find_task n tasks ≡ some e
    → is_open e.status ≡ true
    → Shrinks tasks (put_task (skipped_entry e) tasks)
put-Shrinks n tasks e found is m x found' is' =
    let put =
      find_task-put_task n m tasks e (skipped_entry e) found
        (key-skipped_entry e ∙ key_of_found n tasks e found) in
    elim (Bool-cases (str_eq n m)) [
      | inl t ↦
          let hit : find_task m (put_task (skipped_entry e) tasks) ≡ some (skipped_entry e) =
            ground (arith, put) in
          absurd (cc (skipped_closed e is, hit, found', is'))
      | inr f ↦ ground (arith, put, found')
    ]

-- One entry skipped that depends on the failed step.
skip_one :
    (failed n : String) (tasks : List TaskEntry) (e : TaskEntry) (after : List TaskEntry)
    → find_task n tasks ≡ some e
    → is_open e.status ≡ true
    → has failed e.step.depends_on ≡ true
    → Closes (key e) (put_task (skipped_entry e) tasks) after
    → OnlySkips failed tasks after
skip_one failed n tasks e after found is dep c m =
    let k = key_of_found n tasks e found in
    let put = find_task-put_task n m tasks e (skipped_entry e) found (key-skipped_entry e ∙ k) in
    elim (Bool-cases (str_eq n m)) [
      | inl t ↦
          let same : n ≡ m = (eq_iff n m).0 t in
          let hit : find_task m (put_task (skipped_entry e) tasks) ≡ some (skipped_entry e) =
            ground (arith, put) in
          elim (c.only m) [
            | inl q ↦ inr (record {
              entry = e;
              was = subst (λ x. find_task x tasks ≡ some e) same found;
              open_before = is;
              below = subst (IsDownstream tasks failed) same (direct e found is dep);
              now = q ∙ hit;
              free = subst (λ x. FreeOf x after) (k ∙ same) c.free;
            })
            | inr s ↦ absurd (cc (skipped_closed e is, hit, s.was, s.open_before))
          ]
      | inr f ↦
          let miss : find_task m (put_task (skipped_entry e) tasks) ≡ find_task m tasks =
            ground (arith, put) in
          elim (c.only m) [
            | inl q ↦ inl (q ∙ miss)
            | inr s ↦ inr (record {
              entry = s.entry;
              was = sym miss ∙ s.was;
              open_before = s.open_before;
              below = IsDownstream-trans tasks failed n (direct e found is dep) (
                  subst (λ x. IsDownstream tasks x m) k
                    (IsDownstream-before tasks (put_task (skipped_entry e) tasks) (key e)
                      (put-Shrinks n tasks e found is) s.below));
              now = s.now;
              free = s.free;
            })
          ]
    ]

-- It is still skipped after the nested call.
skip_one_stays :
    (n : String) (tasks : List TaskEntry) (e : TaskEntry) (after : List TaskEntry)
    → find_task n tasks ≡ some e
    → is_open e.status ≡ true
    → Closes (key e) (put_task (skipped_entry e) tasks) after
    → find_task n after ≡ some (skipped_entry e)
skip_one_stays n tasks e after found is c =
    let k = key_of_found n tasks e found in
    let put = find_task-put_task n n tasks e (skipped_entry e) found (key-skipped_entry e ∙ k) in
    let hit : find_task n (put_task (skipped_entry e) tasks) ≡ some (skipped_entry e) =
      ground (arith, put, eq_refl n) in
    elim (c.only n) [
      | inl q ↦ q ∙ hit
      | inr s ↦ absurd (cc (skipped_closed e is, hit, s.was, s.open_before))
    ]

-- The fuel left covers the entries that are still open.
module _ (fuel : ℕ) (recur : String → List TaskEntry × Queue → List TaskEntry × Queue)
    (closes : (step : String) (s : List TaskEntry × Queue)
      → open_count s.0 < fuel
      → Closes step s.0 (recur step s).0 × (open_count (recur step s).0 ≤ open_count s.0))
    (r : RunEntry) (failed : String) where
  skip_visit_lem :
      (n : String) (s : List TaskEntry × Queue)
      → open_count s.0 ≤ fuel
      → OnlySkips failed s.0 (skip_visit recur r failed n s).0
        × FreeAt failed (skip_visit recur r failed n s).0 n
        × (open_count (skip_visit recur r failed n s).0 ≤ open_count s.0)
  unfolding skip_visit skip_task
  skip_visit_lem n s few = elim (Option-cases (find_task n s.0)) [
    | inl p ↦ rw (p, skip_visit) (OnlySkips-refl failed s.0, (λ e found _. cc), le_refl _)
    | inr (e, p) ↦ elim (Bool-cases (is_open e.status && has failed e.step.depends_on)) [
      | inl t ↦
          let is : is_open e.status ≡ true = ground arith in
          let count =
            open_count-put_task n s.0 e (skipped_entry e) p
              (key-skipped_entry e ∙ key_of_found n s.0 e p) is (skipped_closed e is) in
          let (c, le) = closes (key e) (skip_task r failed e s) (omega (arith, count)) in
          let stays = skip_one_stays n s.0 e _ p is c in
          rw (p, t, skip_visit)
            (
              skip_one failed n s.0 e _ p is (ground arith) c,
              (λ e' found is'. absurd (cc (skipped_closed e is, stays, found, is'))),
              omega (arith, count, le),
            )
      | inr f ↦
          rw (p, f, skip_visit)
            (OnlySkips-refl failed s.0, (λ e' found is. ground arith), le_refl _)
    ]
  ]

  skip_each_lem :
      (ns : List String) (s : List TaskEntry × Queue)
      → open_count s.0 ≤ fuel
      → OnlySkips failed s.0 (skip_each recur r failed ns s).0
        × ((n : String) → has n ns ≡ true → FreeAt failed (skip_each recur r failed ns s).0 n)
        × (open_count (skip_each recur r failed ns s).0 ≤ open_count s.0)
  unfolding skip_each
  skip_each_lem [] s few = (OnlySkips-refl failed s.0, (λ n h. cc), le_refl _)
  skip_each_lem (n ∷ ns) s few =
      let (only, free, le) = skip_visit_lem n s few in
      let (only', free', le') =
        skip_each_lem ns (skip_visit recur r failed n s) (omega (arith, le)) in
      (
        OnlySkips-trans failed _ _ _ only only',
        (λ m h. elim (Bool-cases (str_eq n m)) [
          | inl t ↦ FreeAt-mono failed failed _ _ m only' (
              subst (λ x. FreeAt failed ((skip_visit recur r failed n s).0) x) ((eq_iff n m).0 t)
                free)
          | inr f ↦ free' m (ground arith)
        ]),
        omega (arith, le, le'),
      )

-- With fuel above the number of open entries, skipDownstream skips a closed set of entries: when it
-- returns, no open entry depends on the failed step or on an entry that was skipped, and an entry
-- that changed was pending or ready and is skipped.
skip_downstream_lem :
    (fuel : ℕ) (r : RunEntry) (failed : String) (s : List TaskEntry × Queue)
    → open_count s.0 < fuel
    → Closes failed s.0 (skip_downstream fuel r failed s).0
      × (open_count (skip_downstream fuel r failed s).0 ≤ open_count s.0)
unfolding skip_downstream
skip_downstream_lem zero r failed s few = absurd (omega arith)
skip_downstream_lem (suc fuel) r failed s few =
    let (only, free, le) =
      skip_each_lem fuel (skip_downstream fuel r) (skip_downstream_lem fuel r) r failed (names s.0)
        s (omega arith) in
    (
      record {
        free = λ n e found is. elim (only n) [
          | inl same ↦ free n (has-names n s.0 e (sym same ∙ found)) e found is
          | inr sk ↦ absurd (cc (skipped_closed sk.entry sk.open_before, sk.now, found, is))
        ];
        only = only;
      },
      le,
    )

-- The call that failOrRetryLocked makes, with more fuel than the run has steps: when it returns, no
-- pending or ready entry depends on the failed step; every entry is as it was, or is skipped, and then
-- it was pending or ready, depended on the failed step directly or by way of pending or ready entries,
-- and no pending or ready entry depends on it either.
pub skip_downstream_closed :
    (r : RunEntry) (failed : String) (tasks : List TaskEntry) (q : Queue)
    → FreeOf failed (skip_downstream (suc (length tasks)) r failed (tasks, q)).0
      × OnlySkips failed tasks (skip_downstream (suc (length tasks)) r failed (tasks, q)).0
skip_downstream_closed r failed tasks q =
    let (c, _) =
      skip_downstream_lem (suc (length tasks)) r failed (tasks, q)
        (omega (arith, open_count-le-length tasks)) in
    (c.free, c.only)
