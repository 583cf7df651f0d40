-- ===== src/Queue/Balance/Inputs.antt =====
-- internal/queue/queue.go: the wait group under sweeps, and under every interleaving of inputs.
use piper.Queue.Balance.Goroutines.{
  dispatch_returned-IsBalanced, end_dispatch-IsBalanced, fire-IsBalanced, end_callback-IsBalanced,
  start_callback-IsBalanced, recover_with_env-IsBalanced, add_with_env-IsBalanced,
}
use piper.Queue.Tasks.{find_run}
use piper.Queue.TaskId.{split_task_id}
use piper.Queue.Balance.Operations.{complete-IsBalanced}
use piper.Queue.Balance.{
  stop_entry_timer-IsBalanced, release_task_slot-IsBalanced, finalize_run-IsBalanced, if-IsBalanced,
  IsBalanced,
}
use piper.Queue.Types.{is_terminal}
use piper.Queue.Machine.{
  finished, find_dispatch, find_timer, add, recover, report, timer_due, callback, dispatched,
  cancel_run, renew, clean,
}
use piper.Queue.Callbacks.{finish, is_recovering}
use piper.Queue.Timers.{call, emit, append_effect, append_write}
use piper.Queue.Types.{TaskEntry, Queue, RunEntry}
use piper.Queue.Machine.{
  take_pending, set_recovery_grace_period, set_storage_config, set_backend, Input, set_retry_policy,
  step, run,
}
use piper.Queue.Sweep.{
  may_renew, renew_leases, cleanup, run_expired_locked, resume_entry, cancel_untracked, expire_run,
  cleanup_runs, expire_entries, expire_entry, cancel, renew_each, renew_lease, cancel_tasks,
  cancel_task, renew_entry,
}
use piper.Queue.Callbacks.{find_entry, store_entry}
use piper.Prelude.{arith, str_eq, Bool-cases, Option-cases, ℕ, String, List, [], ◌∷◌, inl, inr}

cancel_task-IsBalanced :
    (now : ℕ) (r : RunEntry) (e : TaskEntry) (q : Queue)
    → IsBalanced q
    → IsBalanced (cancel_task now r e q).1
unfolding cancel_task append_write
cancel_task-IsBalanced now r e q h = elim (Bool-cases (is_terminal e.status)) [
  | inl t ↦ rw t h
  | inr f ↦ rw f (release_task_slot-IsBalanced _ _ (stop_entry_timer-IsBalanced e q h))
]

cancel_tasks-IsBalanced :
    (now : ℕ) (r : RunEntry) (tasks : List TaskEntry) (q : Queue)
    → IsBalanced q
    → IsBalanced (cancel_tasks now r tasks q).1
unfolding cancel_tasks
cancel_tasks-IsBalanced now r [] q h = h
cancel_tasks-IsBalanced now r (e ∷ tasks) q h =
    cancel_tasks-IsBalanced now r tasks _ (cancel_task-IsBalanced now r e q h)

cancel-IsBalanced :
    (now : ℕ) (project_id run_id : String) (q : Queue)
    → IsBalanced q
    → IsBalanced (cancel now project_id run_id q)
unfolding cancel cancel_untracked append_effect append_write
cancel-IsBalanced now project_id run_id q h = elim (Option-cases (find_run run_id q.runs)) [
  | inl p ↦ rw (p, cancel) h
  | inr (r, p) ↦
      rw (p, cancel)
        (finalize_run-IsBalanced now _ _ _ _ (cancel_tasks-IsBalanced now r r.tasks q h))
]

renew_entry-IsBalanced :
    (now : ℕ) (runtime_id : String) (r : RunEntry) (e : TaskEntry) (q : Queue)
    → IsBalanced q
    → IsBalanced (renew_entry now runtime_id r e q)
unfolding renew_entry resume_entry store_entry emit call
renew_entry-IsBalanced now runtime_id r e q h = elim (Bool-cases (is_recovering e.status)) [
  | inl t ↦
      rw (t, renew_entry, resume_entry)
        (if-IsBalanced (may_renew runtime_id e) _ _ (stop_entry_timer-IsBalanced _ q h) h)
  | inr f ↦ rw (f, renew_entry, resume_entry) (if-IsBalanced (may_renew runtime_id e) _ _ h h)
]

renew_lease-IsBalanced :
    (now : ℕ) (runtime_id task_id : String) (q : Queue)
    → IsBalanced q
    → IsBalanced (renew_lease now runtime_id task_id q)
unfolding renew_lease
renew_lease-IsBalanced now runtime_id task_id q h = elim (Option-cases (split_task_id task_id)) [
  | inl p ↦ rw (p, renew_lease) h
  | inr ((run_id, step_name), p) ↦ elim (Option-cases (find_entry run_id step_name q)) [
    | inl p' ↦ rw (p, renew_lease) (rw (p', renew_lease) h)
    | inr ((r, e), p') ↦
        rw (p, renew_lease) (rw (p', renew_lease) (renew_entry-IsBalanced now runtime_id r e q h))
  ]
]

renew_each-IsBalanced :
    (now : ℕ) (runtime_id : String) (ids : List String) (q : Queue)
    → IsBalanced q
    → IsBalanced (renew_each now runtime_id ids q)
unfolding renew_each
renew_each-IsBalanced now runtime_id [] q h = h
renew_each-IsBalanced now runtime_id (id ∷ ids) q h =
    renew_each-IsBalanced now runtime_id ids _ (renew_lease-IsBalanced now runtime_id id q h)

expire_entry-IsBalanced :
    (now : ℕ) (r : RunEntry) (e : TaskEntry) (q : Queue)
    → IsBalanced q
    → IsBalanced (expire_entry now r e q).1
unfolding expire_entry append_write
expire_entry-IsBalanced now r e q h = elim (Bool-cases (is_terminal e.status)) [
  | inl t ↦ rw t h
  | inr f ↦ rw f (stop_entry_timer-IsBalanced e q h)
]

expire_entries-IsBalanced :
    (now : ℕ) (r : RunEntry) (tasks : List TaskEntry) (q : Queue)
    → IsBalanced q
    → IsBalanced (expire_entries now r tasks q).1
unfolding expire_entries
expire_entries-IsBalanced now r [] q h = h
expire_entries-IsBalanced now r (e ∷ tasks) q h =
    expire_entries-IsBalanced now r tasks _ (expire_entry-IsBalanced now r e q h)

cleanup_runs-IsBalanced :
    (now cutoff : ℕ) (runs : List RunEntry) (q : Queue)
    → IsBalanced q
    → IsBalanced (cleanup_runs now cutoff runs q)
unfolding cleanup_runs expire_run
cleanup_runs-IsBalanced now cutoff [] q h = h
cleanup_runs-IsBalanced now cutoff (r ∷ runs) q h = cleanup_runs-IsBalanced now cutoff runs _ (
    if-IsBalanced (run_expired_locked cutoff r) _ _
      (finalize_run-IsBalanced now _ _ _ _ (expire_entries-IsBalanced now r r.tasks q h)) h)

finish-IsBalanced : (q : Queue) → IsBalanced q → IsBalanced (finish q)
unfolding finish
finish-IsBalanced q h = ground arith

step-IsBalanced : (i : Input) (q : Queue) → IsBalanced q → IsBalanced (step i q)
unfolding step set_retry_policy set_backend set_storage_config set_recovery_grace_period
    take_pending cleanup renew_leases
step-IsBalanced (add now marshals sub) q h = add_with_env-IsBalanced now marshals sub q h
step-IsBalanced (recover now sub steps) q h = recover_with_env-IsBalanced now sub steps q h
step-IsBalanced (report now result) q h = complete-IsBalanced now result q h
step-IsBalanced (timer_due id) q h = elim (Option-cases (find_timer id q.armed)) [
  | inl p ↦ rw (p, step) h
  | inr (t, p) ↦ rw (p, step) (start_callback-IsBalanced t q h)
]
step-IsBalanced (callback now id) q h = elim (Option-cases (find_timer id q.firing)) [
  | inl p ↦ rw (p, step) h
  | inr (t, p) ↦ rw (p, step) (end_callback-IsBalanced t _ (fire-IsBalanced now t q h))
]
step-IsBalanced (dispatched now task_id attempt o) q h =
    elim (Option-cases (find_dispatch task_id attempt q.dispatching)) [
      | inl p ↦ rw (p, step) h
      | inr (t, p) ↦
          rw (p, step) (end_dispatch-IsBalanced t _ (dispatch_returned-IsBalanced now t o q h))
    ]
step-IsBalanced (cancel_run now project_id run_id) q h = cancel-IsBalanced now project_id run_id q h
step-IsBalanced (renew now runtime_id ids) q h =
    if-IsBalanced (str_eq runtime_id "") _ _ h (renew_each-IsBalanced now runtime_id ids q h)
step-IsBalanced (clean now ttl) q h = cleanup_runs-IsBalanced now _ q.runs q h
step-IsBalanced finished q h = finish-IsBalanced q h
step-IsBalanced _ q h = h

-- If the wait group counts exactly the armed timers and the callbacks and dispatch goroutines that
-- have not run their Done, then it does so after any interleaving of calls, timers, callbacks, dispatch
-- goroutines and Dones.
pub run-IsBalanced : (is : List Input) (q : Queue) → IsBalanced q → IsBalanced (run is q)
unfolding run
run-IsBalanced [] q h = h
run-IsBalanced (i ∷ is) q h = run-IsBalanced is _ (step-IsBalanced i q h)
