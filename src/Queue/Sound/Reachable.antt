-- ===== src/Queue/Sound/Reachable.antt =====
-- internal/queue/queue.go: soundness under cancellation, leases and cleanup, and the states that the
-- queue can reach.
use piper.Queue.Sound.Reports.{
  dispatch_returned-SoundQueue, fire-SoundQueue, complete-SoundQueue, store_entry-SoundQueue,
  found_entry,
}
use piper.Queue.TaskId.{split_task_id}
use piper.Queue.Tasks.{find_run}
use piper.Queue.Frame.{
  release_task_slot-Frame, note-Frame, stop_entry_timer-Frame, Frame-trans, Frame-refl, Frame,
}
use piper.Queue.Sound.{IsSound}
use piper.Queue.Sound.Runs.{Frame-SoundQueue, finalize_run-SoundQueue, AllSound, SoundQueue}
use piper.Queue.Sound.Submissions.{
  recover_with_env-SoundQueue, add_with_env-SoundQueue, FitsAttempts,
}
use piper.Queue.Timers.{
  is_armed, transition_task, call, append_effect, emit, append_write, stop_entry_timer,
}
use piper.Queue.Callbacks.{
  finish, is_recovering, find_entry, same_dispatch, end_dispatch, end_callback, start_callback,
}
use piper.Queue.Sweep.{
  renew_leases, cleanup, may_renew, run_expired_locked, expire_run, cancel_untracked, renew_lease,
  resume_entry, cancel_task, renew_entry, cleanup_runs, expire_entries, cancel, renew_each,
  expire_entry, cancel_tasks,
}
use piper.Queue.Types.{is_terminal, TaskEntry, RunEntry, Timer, Task, Queue}
use piper.Queue.Machine.{
  finished, find_dispatch, find_timer, take_pending, set_recovery_grace_period, set_storage_config,
  set_backend, set_retry_policy, new_queue, Input, step, add, recover, report, timer_due, callback,
  dispatched, cancel_run, renew, clean, set_policy,
}
use piper.Prelude.{
  ltb, str_eq, any, Bool-cases, Option-cases, some, refl, ℕ, String, ◌≡◌, List, [], ◌∷◌, arith, inl,
  inr,
}

cancel_task-Frame :
    (now : ℕ) (r : RunEntry) (e : TaskEntry) (q : Queue) → Frame q (cancel_task now r e q).1
unfolding cancel_task append_write
cancel_task-Frame now r e q = elim (Bool-cases (is_terminal e.status)) [
  | inl t ↦ rw t (Frame-refl q)
  | inr f ↦ rw f (
      Frame-trans (Frame-trans (stop_entry_timer-Frame e q) (note-Frame _ _ _ _))
        (release_task_slot-Frame _ _))
]

pub cancel_tasks-Frame :
    (now : ℕ) (r : RunEntry) (tasks : List TaskEntry) (q : Queue)
    → Frame q (cancel_tasks now r tasks q).1
unfolding cancel_tasks
cancel_tasks-Frame now r [] q = Frame-refl q
cancel_tasks-Frame now r (e ∷ tasks) q =
    Frame-trans (cancel_task-Frame now r e q) (cancel_tasks-Frame now r tasks _)

cancel-SoundQueue :
    (now : ℕ) (project_id run_id : String) (q : Queue)
    → SoundQueue q
    → SoundQueue (cancel now project_id run_id q)
unfolding cancel cancel_untracked append_effect append_write
cancel-SoundQueue now project_id run_id q h = elim (Option-cases (find_run run_id q.runs)) [
  | inl p ↦ rw (p, cancel) (record { entries = h.entries; attempts = h.attempts })
  | inr (r, p) ↦
      rw (p, cancel)
        (finalize_run-SoundQueue now _ _ _ _
          (Frame-SoundQueue (cancel_tasks-Frame now r r.tasks q) h))
]

expire_entry-Frame :
    (now : ℕ) (r : RunEntry) (e : TaskEntry) (q : Queue) → Frame q (expire_entry now r e q).1
unfolding expire_entry append_write
expire_entry-Frame now r e q = elim (Bool-cases (is_terminal e.status)) [
  | inl t ↦ rw t (Frame-refl q)
  | inr f ↦ rw f (Frame-trans (stop_entry_timer-Frame e q) (note-Frame _ _ _ _))
]

pub expire_entries-Frame :
    (now : ℕ) (r : RunEntry) (tasks : List TaskEntry) (q : Queue)
    → Frame q (expire_entries now r tasks q).1
unfolding expire_entries
expire_entries-Frame now r [] q = Frame-refl q
expire_entries-Frame now r (e ∷ tasks) q =
    Frame-trans (expire_entry-Frame now r e q) (expire_entries-Frame now r tasks _)

cleanup_runs-SoundQueue :
    (now cutoff : ℕ) (runs : List RunEntry) (q : Queue)
    → SoundQueue q
    → SoundQueue (cleanup_runs now cutoff runs q)
unfolding cleanup_runs expire_run
cleanup_runs-SoundQueue now cutoff [] q h = h
cleanup_runs-SoundQueue now cutoff (r ∷ runs) q h =
    cleanup_runs-SoundQueue now cutoff runs _ (elim (Bool-cases (run_expired_locked cutoff r)) [
      | inl t ↦ rw t (
          finalize_run-SoundQueue now _ _ _ _
            (Frame-SoundQueue (expire_entries-Frame now r r.tasks q) h))
      | inr f ↦ rw f h
    ])

-- A renewed lease keeps the entry sound, also where it ends the wait for the worker.
renewed-IsSound :
    (now : ℕ) (runtime_id : String) (r : RunEntry) (e : TaskEntry) (q : Queue)
    → IsSound e
    → IsSound (record ((resume_entry r (record e { assigned_runtime_id = runtime_id }) q).0) {
      lease_at = some now;
    })
unfolding resume_entry stop_entry_timer transition_task
renewed-IsSound now runtime_id r e q s = ground arith

resume_entry-Frame : (r : RunEntry) (e : TaskEntry) (q : Queue) → Frame q (resume_entry r e q).1
unfolding resume_entry emit call
resume_entry-Frame r e q = elim (Bool-cases (is_recovering e.status)) [
  | inl t ↦ rw t (Frame-trans (stop_entry_timer-Frame e q) (note-Frame _ _ _ _))
  | inr f ↦ rw f (Frame-refl q)
]

renew_entry-SoundQueue :
    (now : ℕ) (runtime_id : String) (r : RunEntry) (e : TaskEntry) (q : Queue)
    → IsSound e
    → AllSound r
    → SoundQueue q
    → SoundQueue (renew_entry now runtime_id r e q)
unfolding renew_entry
renew_entry-SoundQueue now runtime_id r e q s a h = elim (Bool-cases (may_renew runtime_id e)) [
  | inl t ↦ rw t (
      store_entry-SoundQueue r _ _ (renewed-IsSound now runtime_id r e q s) a
        (Frame-SoundQueue (resume_entry-Frame r _ q) h))
  | inr f ↦ rw f h
]

renew_lease-SoundQueue :
    (now : ℕ) (runtime_id task_id : String) (q : Queue)
    → SoundQueue q
    → SoundQueue (renew_lease now runtime_id task_id q)
unfolding renew_lease
renew_lease-SoundQueue now runtime_id task_id q h = elim (Option-cases (split_task_id task_id)) [
  | inl p ↦ rw (p, renew_lease) h
  | inr ((run_id, step_name), p) ↦ elim (Option-cases (find_entry run_id step_name q)) [
    | inl p' ↦ rw (p, renew_lease) (rw (p', renew_lease) h)
    | inr ((r, e), p') ↦
        let (s, a) = found_entry run_id step_name q h p' in
        rw (p, renew_lease)
          (rw (p', renew_lease) (renew_entry-SoundQueue now runtime_id r e q s a h))
  ]
]

renew_each-SoundQueue :
    (now : ℕ) (runtime_id : String) (ids : List String) (q : Queue)
    → SoundQueue q
    → SoundQueue (renew_each now runtime_id ids q)
unfolding renew_each
renew_each-SoundQueue now runtime_id [] q h = h
renew_each-SoundQueue now runtime_id (id ∷ ids) q h =
    renew_each-SoundQueue now runtime_id ids _ (renew_lease-SoundQueue now runtime_id id q h)

same-SoundQueue :
    {q : Queue} (p : Queue)
    → p.runs ≡ q.runs
    → p.max_attempts ≡ q.max_attempts
    → SoundQueue q
    → SoundQueue p
same-SoundQueue p a b h = record { entries = rw a h.entries; attempts = rw b h.attempts }

-- What the environment owes the queue: persisted attempts within the retry policy.
abbrev pub Fits : Input → Queue → Type 0
Fits (recover now sub recovered) q = FitsAttempts q.max_attempts recovered
Fits _ q = Unit

start_callback-SoundQueue : (t : Timer) (q : Queue) → SoundQueue q → SoundQueue (start_callback t q)
unfolding start_callback
start_callback-SoundQueue t q h = elim (Bool-cases (is_armed t.id q.armed)) [
  | inl b ↦ rw b (same-SoundQueue _ refl refl h)
  | inr b ↦ rw b h
]

end_callback-SoundQueue : (t : Timer) (q : Queue) → SoundQueue q → SoundQueue (end_callback t q)
unfolding end_callback
end_callback-SoundQueue t q h = elim (Bool-cases (is_armed t.id q.firing)) [
  | inl b ↦ rw b (same-SoundQueue _ refl refl h)
  | inr b ↦ rw b h
]

end_dispatch-SoundQueue : (t : Task) (q : Queue) → SoundQueue q → SoundQueue (end_dispatch t q)
unfolding end_dispatch
end_dispatch-SoundQueue t q h = elim (Bool-cases (any (λ x. same_dispatch x t) q.dispatching)) [
  | inl b ↦ rw b (same-SoundQueue _ refl refl h)
  | inr b ↦ rw b h
]

finish-SoundQueue : (q : Queue) → SoundQueue q → SoundQueue (finish q)
unfolding finish
finish-SoundQueue q h = elim (Bool-cases (ltb 0 q.finishing)) [
  | inl b ↦ rw b (same-SoundQueue _ refl refl h)
  | inr b ↦ rw b h
]

step-SoundQueue : (i : Input) (q : Queue) → Fits i q → SoundQueue q → SoundQueue (step i q)
unfolding step set_retry_policy set_backend set_storage_config set_recovery_grace_period
    take_pending cleanup renew_leases
step-SoundQueue (set_policy m d) q f h = record { entries = h.entries; attempts = ground arith }
step-SoundQueue (add now marshals sub) q f h = add_with_env-SoundQueue now marshals sub q h
step-SoundQueue (recover now sub steps) q f h = recover_with_env-SoundQueue now sub steps q f h
step-SoundQueue (report now result) q f h = complete-SoundQueue now result q h
step-SoundQueue (timer_due id) q f h = elim (Option-cases (find_timer id q.armed)) [
  | inl p ↦ rw (p, step) h
  | inr (t, p) ↦ rw (p, step) (start_callback-SoundQueue t q h)
]
step-SoundQueue (callback now id) q f h = elim (Option-cases (find_timer id q.firing)) [
  | inl p ↦ rw (p, step) h
  | inr (t, p) ↦ rw (p, step) (end_callback-SoundQueue t _ (fire-SoundQueue now t q h))
]
step-SoundQueue (dispatched now task_id attempt o) q f h =
    elim (Option-cases (find_dispatch task_id attempt q.dispatching)) [
      | inl p ↦ rw (p, step) h
      | inr (t, p) ↦
          rw (p, step) (end_dispatch-SoundQueue t _ (dispatch_returned-SoundQueue now t o q h))
    ]
step-SoundQueue (cancel_run now project_id run_id) q f h =
    cancel-SoundQueue now project_id run_id q h
step-SoundQueue (renew now runtime_id ids) q f h = elim (Bool-cases (str_eq runtime_id "")) [
  | inl b ↦ rw b h
  | inr b ↦ rw b (renew_each-SoundQueue now runtime_id ids q h)
]
step-SoundQueue (clean now ttl) q f h = cleanup_runs-SoundQueue now _ q.runs q h
step-SoundQueue finished q f h = finish-SoundQueue q h
step-SoundQueue _ q f h = same-SoundQueue _ refl refl h

-- The states that a new queue can come to, by any interleaving of inputs that fit.
pub data Reachable : Queue → Type 0 where
  start : Reachable new_queue
  next : {q : Queue} → (i : Input) → Reachable q → Fits i q → Reachable (step i q)

-- In every state that the queue can reach, if no recovered step ever brings more attempts than the
-- policy of that moment allows, each tracked entry has made at most its maximum of
-- attempts, one that waits to be started has an attempt left, and one that runs or recovers has a
-- lease; and the maximum is at least 1.
pub Reachable-SoundQueue : {q : Queue} → Reachable q → SoundQueue q
Reachable-SoundQueue start = unfold new_queue in record { entries = tt; attempts = omega arith }
Reachable-SoundQueue (next {q} i r f) = step-SoundQueue i q f (Reachable-SoundQueue r)
