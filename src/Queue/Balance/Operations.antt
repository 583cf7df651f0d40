-- ===== src/Queue/Balance/Operations.antt =====
-- internal/queue/queue.go: the wait group under each operation.
use piper.Prelude.{
  ℕ, suc, zero, String, Option, List, [], ◌∷◌, Bool-cases, inl, inr, ltb, ◌&&◌, Option-cases,
  str_eq, has,
}
use piper.Queue.Types.{Queue, TaskEntry, RunEntry, TaskResult}
use piper.Queue.Timers.{append_write, append_effect, call, emit}
use piper.Queue.Tasks.{find_task, all_terminal}
use piper.Queue.Finish.{
  skip_task, skip_visit, skip_each, skip_downstream, settle_run, retry_task, fail_task,
  fail_or_retry, is_open,
}
use piper.Queue.Complete.{complete_done, complete_entry, complete_cases, complete}
use piper.Queue.Balance.{
  IsBalanced, if-IsBalanced, stop_entry_timer-IsBalanced, promote_ready-IsBalanced,
  schedule_retry-IsBalanced, release_task_slot-IsBalanced, finalize_run-IsBalanced,
}

module _ (recur : String → List TaskEntry × Queue → List TaskEntry × Queue)
    (keeps : (name : String) (s : List TaskEntry × Queue)
      → IsBalanced s.1
      → IsBalanced (recur name s).1)
    (r : RunEntry) (failed : String) where
  skip_visit-IsBalanced :
      (name : String) (s : List TaskEntry × Queue)
      → IsBalanced s.1
      → IsBalanced (skip_visit recur r failed name s).1
  unfolding skip_visit skip_task append_effect append_write
  skip_visit-IsBalanced name s h = elim (Option-cases (find_task name s.0)) [
    | inl p ↦ rw (p, skip_visit) h
    | inr (e, p) ↦ elim (Bool-cases (is_open e.status && has failed e.step.depends_on)) [
      | inl t ↦ rw (p, t, skip_visit) (keeps _ _ h)
      | inr f ↦ rw (p, f, skip_visit) h
    ]
  ]

  skip_each-IsBalanced :
      (ns : List String) (s : List TaskEntry × Queue)
      → IsBalanced s.1
      → IsBalanced (skip_each recur r failed ns s).1
  unfolding skip_each
  skip_each-IsBalanced [] s h = h
  skip_each-IsBalanced (n ∷ ns) s h = skip_each-IsBalanced ns _ (skip_visit-IsBalanced n s h)

skip_downstream-IsBalanced :
    (fuel : ℕ) (r : RunEntry) (failed : String) (s : List TaskEntry × Queue)
    → IsBalanced s.1
    → IsBalanced (skip_downstream fuel r failed s).1
unfolding skip_downstream
skip_downstream-IsBalanced zero r failed s h = h
skip_downstream-IsBalanced (suc fuel) r failed s h =
    skip_each-IsBalanced (skip_downstream fuel r) (skip_downstream-IsBalanced fuel r) r failed _ s h

settle_run-IsBalanced :
    (now : ℕ) (r : RunEntry) (q : Queue) → IsBalanced q → IsBalanced (settle_run now r q)
unfolding settle_run
settle_run-IsBalanced now r q h =
    if-IsBalanced (all_terminal r.tasks) _ _ (finalize_run-IsBalanced now r _ _ _ h) h

pub fail_or_retry-IsBalanced :
    (now : ℕ) (error : String) (started_at : Option ℕ) (ended_at : ℕ) (r : RunEntry) (e : TaskEntry)
    (q : Queue)
    → IsBalanced q
    → IsBalanced (fail_or_retry now error started_at ended_at r e q)
unfolding fail_or_retry retry_task fail_task append_effect append_write
fail_or_retry-IsBalanced now error started_at ended_at r e q h =
    let k = stop_entry_timer-IsBalanced e q h in
    if-IsBalanced (ltb e.attempts e.max_attempts) _ _ (schedule_retry-IsBalanced now _ _ k)
      (settle_run-IsBalanced now _ _ (skip_downstream-IsBalanced _ r _ _ k))

complete_done-IsBalanced :
    (now : ℕ) (result : TaskResult) (r : RunEntry) (e : TaskEntry) (q : Queue)
    → IsBalanced q
    → IsBalanced (complete_done now result r e q)
unfolding complete_done append_effect append_write
complete_done-IsBalanced now result r e q h =
    settle_run-IsBalanced now _ _
      (promote_ready-IsBalanced now _ _ (stop_entry_timer-IsBalanced e q h))

complete_entry-IsBalanced :
    (now : ℕ) (result : TaskResult) (r : RunEntry) (e : TaskEntry) (q : Queue)
    → IsBalanced q
    → IsBalanced (complete_entry now result r e q)
unfolding complete_entry emit call
complete_entry-IsBalanced now result r e q h =
    let k = release_task_slot-IsBalanced result.task_id q h in
    if-IsBalanced (str_eq result.status "done") _ _ (complete_done-IsBalanced now result r _ _ k)
      (fail_or_retry-IsBalanced now _ _ _ r _ _ k)

pub complete-IsBalanced :
    (now : ℕ) (result : TaskResult) (q : Queue)
    → IsBalanced q
    → IsBalanced (complete now result q).1
complete-IsBalanced now result q h =
    complete_cases (λ _ p. IsBalanced p) now result q (λ _ _. h)
      (λ r e _. complete_entry-IsBalanced now result r e q h)
