-- ===== src/Queue/Balance/Goroutines.antt =====
-- internal/queue/queue.go: the wait group under callbacks, dispatch goroutines and submissions.
use piper.Pipeline.Defaults.{apply_defaults}
use piper.Queue.Balance.Operations.{complete-IsBalanced, fail_or_retry-IsBalanced}
use piper.Queue.Balance.{
  dispatch_if_needed-IsBalanced, arm_timer-IsBalanced, TimerKind, stop_entry_timer-IsBalanced,
  release_task_slot-IsBalanced, finalize_run-IsBalanced, if-IsBalanced, promote_ready-IsBalanced,
  length-remove_timer, IsBalanced,
}
use piper.Pipeline.{Step}
use piper.Queue.Callbacks.{withheld, accepted, busy, refused}
use piper.Queue.Timers.{call, emit}
use piper.Queue.Types.{TaskEntry, Task, Queue, Timer, RunEntry}
use piper.Queue.Callbacks.{
  is_running, retry_fired, find_entry, requeued_dispatch_fired, same_dispatch, recovery_grace_fired,
  store_entry, DispatchOutcome, requeue_entry, timeout_fired, end_dispatch, dispatch_returned,
  requeue_busy, end_callback, start_callback, fire, remove_dispatch, run_callback, expire_task,
}
use piper.Queue.Submit.{
  schedule_recovery_grace, RecoveredStep, recover_running, Submission, resume_run, recover_steps,
  recover_entry, add_with_env, recover_with_env,
}
use piper.Prelude.{
  none, some, some, Option, length, true, Bool-cases, Option-cases, any, ℕ, ◌+◌, String, ◌≡◌, Bool,
  List, [], ◌∷◌, arith, inl, inr,
}

pub length-remove_dispatch :
    (t : Task) (ts : List Task)
    → any (λ x. same_dispatch x t) ts ≡ true
    → length (remove_dispatch t ts) + 1 ≡ length ts
unfolding remove_dispatch
length-remove_dispatch t [] h = cc
length-remove_dispatch t (x ∷ ts) h = ground (arith, length-remove_dispatch t ts)

pub start_callback-IsBalanced :
    (t : Timer) (q : Queue) → IsBalanced q → IsBalanced (start_callback t q)
unfolding start_callback
start_callback-IsBalanced t q h = ground (arith, length-remove_timer t.id q.armed)

pub end_callback-IsBalanced : (t : Timer) (q : Queue) → IsBalanced q → IsBalanced (end_callback t q)
unfolding end_callback
end_callback-IsBalanced t q h = ground (arith, length-remove_timer t.id q.firing)

pub end_dispatch-IsBalanced : (t : Task) (q : Queue) → IsBalanced q → IsBalanced (end_dispatch t q)
unfolding end_dispatch
end_dispatch-IsBalanced t q h = ground (arith, length-remove_dispatch t q.dispatching)

pub expire_task-IsBalanced :
    (now : ℕ) (error : String) (r : RunEntry) (e : TaskEntry) (q : Queue)
    → IsBalanced q
    → IsBalanced (expire_task now error r e q)
unfolding expire_task
expire_task-IsBalanced now error r e q h =
    fail_or_retry-IsBalanced now error _ now r _ _ (release_task_slot-IsBalanced e.task.id q h)

pub run_callback-IsBalanced :
    (now : ℕ) (k : TimerKind) (r : RunEntry) (e : TaskEntry) (q : Queue)
    → IsBalanced q
    → IsBalanced (run_callback now k r e q)
unfolding run_callback timeout_fired recovery_grace_fired requeued_dispatch_fired retry_fired
    store_entry
run_callback-IsBalanced now TimerKind.timeout r e q h =
    if-IsBalanced _ _ _ h (expire_task-IsBalanced now _ r e q h)
run_callback-IsBalanced now TimerKind.recovery_grace r e q h =
    if-IsBalanced _ _ _ h (expire_task-IsBalanced now _ r e q h)
run_callback-IsBalanced now TimerKind.requeue r e q h =
    if-IsBalanced _ _ _ h (dispatch_if_needed-IsBalanced now _ q h)
run_callback-IsBalanced now TimerKind.retry r e q h =
    if-IsBalanced _ _ _ h (dispatch_if_needed-IsBalanced now _ q h)

pub fire-IsBalanced : (now : ℕ) (t : Timer) (q : Queue) → IsBalanced q → IsBalanced (fire now t q)
unfolding fire
fire-IsBalanced now t q h = elim (Option-cases (find_entry t.run_id t.step_name q)) [
  | inl p ↦ rw (p, fire) h
  | inr ((r, e), p) ↦ rw (p, fire) (run_callback-IsBalanced now t.kind r e q h)
]

pub requeue_busy-IsBalanced :
    (now : ℕ) (run_id step_name : String) (q : Queue)
    → IsBalanced q
    → IsBalanced (requeue_busy now run_id step_name q)
unfolding requeue_busy requeue_entry store_entry
requeue_busy-IsBalanced now run_id step_name q h =
    elim (Option-cases (find_entry run_id step_name q)) [
      | inl p ↦ rw (p, requeue_busy) h
      | inr ((r, e), p) ↦
          rw (p, requeue_busy)
            (if-IsBalanced (is_running e.status) _ _
              (arm_timer-IsBalanced _ _ _ _ _ (stop_entry_timer-IsBalanced _ q h)) h)
    ]

pub dispatch_returned-IsBalanced :
    (now : ℕ) (t : Task) (o : DispatchOutcome) (q : Queue)
    → IsBalanced q
    → IsBalanced (dispatch_returned now t o q)
unfolding dispatch_returned
dispatch_returned-IsBalanced now t withheld q h = h
dispatch_returned-IsBalanced now t accepted q h = h
dispatch_returned-IsBalanced now t busy q h = requeue_busy-IsBalanced now _ _ q h
dispatch_returned-IsBalanced now t (refused error owner) q h = complete-IsBalanced now _ q h

pub add_with_env-IsBalanced :
    (now : ℕ) (marshals : Step → Bool) (sub : Submission) (q : Queue)
    → IsBalanced q
    → IsBalanced (add_with_env now marshals sub q)
unfolding add_with_env
add_with_env-IsBalanced now marshals sub q h = promote_ready-IsBalanced now _ q h

pub recover_entry-IsBalanced :
    (now : ℕ) (sub : Submission) (o : Option RecoveredStep) (e : TaskEntry) (q : Queue)
    → IsBalanced q
    → IsBalanced (recover_entry now sub o e q).1
unfolding recover_entry recover_running schedule_recovery_grace emit call
recover_entry-IsBalanced now sub none e q h = h
recover_entry-IsBalanced now sub (some rs) e q h = elim (Bool-cases rs.done) [
  | inl d ↦ rw d h
  | inr d ↦ elim (Option-cases rs.started_at) [
    | inl p ↦ rw (d, p, recover_entry) h
    | inr (at, p) ↦
        rw (d, p, recover_entry)
          (arm_timer-IsBalanced _ _ _ _ _ (stop_entry_timer-IsBalanced _ _ h))
  ]
]

pub recover_steps-IsBalanced :
    (now : ℕ) (sub : Submission) (recovered : List RecoveredStep) (steps : List Step)
    (tasks : List TaskEntry) (q : Queue)
    → IsBalanced q
    → IsBalanced (recover_steps now sub recovered steps tasks q).1
unfolding recover_steps
recover_steps-IsBalanced now sub recovered [] tasks q h = h
recover_steps-IsBalanced now sub recovered (s ∷ steps) tasks q h =
    recover_steps-IsBalanced now sub recovered steps _ _ (recover_entry-IsBalanced now sub _ _ q h)

pub recover_with_env-IsBalanced :
    (now : ℕ) (sub : Submission) (recovered : List RecoveredStep) (q : Queue)
    → IsBalanced q
    → IsBalanced (recover_with_env now sub recovered q)
unfolding recover_with_env resume_run
recover_with_env-IsBalanced now sub recovered q h =
    let k = recover_steps-IsBalanced now sub recovered (apply_defaults sub.pl).steps [] q h in
    if-IsBalanced _ _ _ (finalize_run-IsBalanced now _ _ _ _ k) (promote_ready-IsBalanced now _ _ k)
