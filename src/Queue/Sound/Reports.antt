-- ===== src/Queue/Sound/Reports.antt =====
-- internal/queue/queue.go: soundness of the queue under reports, callbacks and dispatches.
use piper.Queue.Dispatch.{dispatch_if_needed}
use piper.Queue.Frame.{
  arm_timer-Frame, dispatch_if_needed-Frame, stop_entry_timer-Frame, promote_ready-Frame,
  note-Frame, release_task_slot-Frame,
}
use piper.Queue.Sound.{
  dispatch_if_needed-IsSound, stop_entry_timer-IsSound, end_entry-IsSound, promote_ready-IsSound,
  put_task-All, find_task-All, IsSound,
}
use piper.Queue.Sound.Runs.{
  Frame-SoundQueue, store_run-SoundQueue, find_run-All, settle_run-SoundQueue,
  fail_or_retry-SoundQueue, AllSound, SoundQueue,
}
use piper.Queue.Timers.{
  arm_timer, stop_entry_timer, transition_task, append_write, call, emit, append_effect,
}
use piper.Queue.Types.{
  Timer, Task, TimerKind, TaskStatus, is_terminal, TaskEntry, Queue, RunEntry, TaskResult,
}
use piper.Queue.Complete.{
  int_attempt, judge_attempts, complete_cases, complete, applied, result_attempt, complete_done,
  judge, complete_entry,
}
use piper.Queue.Callbacks.{
  DispatchOutcome, fire, requeue_busy, dispatch_returned, is_retrying, is_ready, is_recovering,
  is_running, requeued_dispatch_fired, requeue_entry, find_entry_inv, recovery_grace_fired,
  timeout_fired, run_callback, retry_fired, expire_task, store_entry, find_entry,
}
use piper.Queue.Callbacks.{withheld, accepted, busy, refused}
use piper.Prelude.{
  Option-cases, not, ◌||◌, true, str_eq, ◌==◌, Bool-cases, ◌<◌, some, none, false, refl, ℕ, String,
  ◌≡◌, arith, inl, inr,
}

-- A result is accepted for an entry that is not terminal and has begun an attempt.
judge-applied :
    (owner : String) (e : TaskEntry) (result : TaskResult)
    → judge owner e result ≡ applied
    → (is_terminal e.status ≡ false) × (0 < e.attempts)
unfolding judge judge_attempts int_attempt result_attempt
judge-applied owner e result h = (ground arith, ground arith)

complete_done-SoundQueue :
    (now : ℕ) (result : TaskResult) (r : RunEntry) (e : TaskEntry) (q : Queue)
    → IsSound e
    → AllSound r
    → SoundQueue q
    → SoundQueue (complete_done now result r e q)
unfolding complete_done append_effect append_write
complete_done-SoundQueue now result r e q s a h =
    settle_run-SoundQueue now _ _
      (promote_ready-IsSound now _ _ (
        put_task-All IsSound _ r.tasks
          (end_entry-IsSound TaskStatus.done _ refl (stop_entry_timer-IsSound e q s)) a))
      (Frame-SoundQueue (promote_ready-Frame now _ _)
        (Frame-SoundQueue (note-Frame _ _ _ _) (Frame-SoundQueue (stop_entry_timer-Frame e q) h)))

complete_entry-SoundQueue :
    (now : ℕ) (result : TaskResult) (r : RunEntry) (e : TaskEntry) (q : Queue)
    → is_terminal e.status ≡ false
    → 0 < e.attempts
    → IsSound e
    → AllSound r
    → SoundQueue q
    → SoundQueue (complete_entry now result r e q)
unfolding complete_entry emit call
complete_entry-SoundQueue now result r e q t pos s a h =
    let k =
      Frame-SoundQueue (note-Frame _ _ _ _)
        (Frame-SoundQueue (release_task_slot-Frame result.task_id q) h) in
    elim (Bool-cases (e.attempts == 0)) [
      | inl z ↦ absurd (ground arith)
      | inr nz ↦ rw nz (elim (Bool-cases (str_eq result.status "done")) [
        | inl d ↦ rw d (complete_done-SoundQueue now result r e _ s a k)
        | inr d ↦ rw d (fail_or_retry-SoundQueue now _ _ _ r e _ t s a k)
      ])
    ]

pub complete-SoundQueue :
    (now : ℕ) (result : TaskResult) (q : Queue)
    → SoundQueue q
    → SoundQueue (complete now result q).1
complete-SoundQueue now result q h =
    complete_cases (λ _ p. SoundQueue p) now result q (λ _ _. h)
      λ r e acc.
        let (t, pos) = judge-applied _ e result acc.judged in
        let a = find_run-All AllSound acc.run_id q.runs h.entries acc.tracked in
        complete_entry-SoundQueue now result r e q t pos
          (find_task-All IsSound acc.step_name r.tasks a acc.entry) a h

-- What find_entry finds is sound.
pub found_entry :
    (run_id step_name : String) (q : Queue) {r : RunEntry} {e : TaskEntry}
    → SoundQueue q
    → find_entry run_id step_name q ≡ some (r, e)
    → IsSound e × AllSound r
found_entry run_id step_name q h p =
    let (tracked, entry) = find_entry_inv run_id step_name q p in
    let a = find_run-All AllSound run_id q.runs h.entries tracked in
    (find_task-All IsSound step_name _ a entry, a)

expire_task-SoundQueue :
    (now : ℕ) (error : String) (r : RunEntry) (e : TaskEntry) (q : Queue)
    → is_terminal e.status ≡ false
    → IsSound e
    → AllSound r
    → SoundQueue q
    → SoundQueue (expire_task now error r e q)
unfolding expire_task
expire_task-SoundQueue now error r e q t s a h =
    fail_or_retry-SoundQueue now error _ now r (record e { timer = none }) _ t
      (record { allowed = s.allowed; capped = s.capped; room = s.room; leased = s.leased }) a
      (Frame-SoundQueue (release_task_slot-Frame e.task.id q) h)

pub store_entry-SoundQueue :
    (r : RunEntry) (e : TaskEntry) (q : Queue)
    → IsSound e
    → AllSound r
    → SoundQueue q
    → SoundQueue (store_entry r (e, q))
unfolding store_entry
store_entry-SoundQueue r e q s a h = store_run-SoundQueue _ q (put_task-All IsSound e r.tasks s a) h

store_dispatched-SoundQueue :
    (now : ℕ) (r : RunEntry) (e : TaskEntry) (q : Queue)
    → is_terminal e.status ≡ false
    → e.attempts < e.max_attempts
    → IsSound e
    → AllSound r
    → SoundQueue q
    → SoundQueue (store_entry r (dispatch_if_needed now e q))
store_dispatched-SoundQueue now r e q t lt s a h =
    store_entry-SoundQueue r _ _ (dispatch_if_needed-IsSound now e q t lt s) a
      (Frame-SoundQueue (dispatch_if_needed-Frame now e q) h)

untimed-IsSound : (e : TaskEntry) → IsSound e → IsSound (record e { timer = none })
untimed-IsSound e s = record {
  allowed = s.allowed;
  capped = s.capped;
  room = s.room;
  leased = s.leased;
}

requeued-IsSound :
    (now : ℕ) (e : TaskEntry) (q : Queue)
    → is_running e.status ≡ true
    → IsSound e
    → IsSound (requeue_entry now e q).0
unfolding requeue_entry transition_task stop_entry_timer arm_timer
requeued-IsSound now e q run s = ground arith

module _ (now : ℕ) (r : RunEntry) (e : TaskEntry) (q : Queue) (s : IsSound e) (a : AllSound r)
    (h : SoundQueue q) where
  timeout_fired-SoundQueue : SoundQueue (timeout_fired now r e q)
  unfolding timeout_fired
  timeout_fired-SoundQueue = elim (Bool-cases (q.shutdown || not (is_running e.status))) [
    | inl stop ↦ rw stop h
    | inr go ↦ rw go (expire_task-SoundQueue now _ r e q (ground arith) s a h)
  ]

  recovery_grace_fired-SoundQueue : SoundQueue (recovery_grace_fired now r e q)
  unfolding recovery_grace_fired
  recovery_grace_fired-SoundQueue = elim (Bool-cases (q.shutdown || not (is_recovering e.status))) [
    | inl stop ↦ rw stop h
    | inr go ↦ rw go (expire_task-SoundQueue now _ r e q (ground arith) s a h)
  ]

  requeued_dispatch_fired-SoundQueue : SoundQueue (requeued_dispatch_fired now r e q)
  unfolding requeued_dispatch_fired
  requeued_dispatch_fired-SoundQueue = elim (Bool-cases (q.shutdown || not (is_ready e.status))) [
    | inl stop ↦ rw stop (store_entry-SoundQueue r _ q (untimed-IsSound e s) a h)
    | inr go ↦ rw go (
        store_dispatched-SoundQueue now r (record e { timer = none }) q (ground arith)
          (ground arith) (untimed-IsSound e s) a h)
  ]

  retry_fired-SoundQueue : SoundQueue (retry_fired now r e q)
  unfolding retry_fired transition_task
  retry_fired-SoundQueue = elim (Bool-cases (not (is_retrying e.status))) [
    | inl stop ↦ rw stop h
    | inr go ↦
        rw go
          (store_dispatched-SoundQueue now r _ q (ground arith) (ground arith) (ground arith) a h)
  ]

  run_callback-SoundQueue : (k : TimerKind) → SoundQueue (run_callback now k r e q)
  unfolding run_callback
  run_callback-SoundQueue TimerKind.timeout = timeout_fired-SoundQueue
  run_callback-SoundQueue TimerKind.recovery_grace = recovery_grace_fired-SoundQueue
  run_callback-SoundQueue TimerKind.requeue = requeued_dispatch_fired-SoundQueue
  run_callback-SoundQueue TimerKind.retry = retry_fired-SoundQueue

  requeue_entry-SoundQueue :
      is_running e.status ≡ true → SoundQueue (store_entry r (requeue_entry now e q))
  unfolding requeue_entry transition_task
  requeue_entry-SoundQueue run = store_entry-SoundQueue r _ _ (requeued-IsSound now e q run s) a (
      Frame-SoundQueue (arm_timer-Frame _ _ _ _ _)
        (Frame-SoundQueue (stop_entry_timer-Frame _ q) h))

pub fire-SoundQueue : (now : ℕ) (t : Timer) (q : Queue) → SoundQueue q → SoundQueue (fire now t q)
unfolding fire
fire-SoundQueue now t q h = elim (Option-cases (find_entry t.run_id t.step_name q)) [
  | inl p ↦ rw (p, fire) h
  | inr ((r, e), p) ↦
      let (s, a) = found_entry t.run_id t.step_name q h p in
      rw (p, fire) (run_callback-SoundQueue now r e q s a h t.kind)
]

requeue_busy-SoundQueue :
    (now : ℕ) (run_id step_name : String) (q : Queue)
    → SoundQueue q
    → SoundQueue (requeue_busy now run_id step_name q)
unfolding requeue_busy
requeue_busy-SoundQueue now run_id step_name q h =
    elim (Option-cases (find_entry run_id step_name q)) [
      | inl p ↦ rw (p, requeue_busy) h
      | inr ((r, e), p) ↦
          let (s, a) = found_entry run_id step_name q h p in
          elim (Bool-cases (is_running e.status)) [
            | inl run ↦ rw (p, requeue_busy) (rw run (requeue_entry-SoundQueue now r e q s a h run))
            | inr idle ↦ rw (p, requeue_busy) (rw idle h)
          ]
    ]

pub dispatch_returned-SoundQueue :
    (now : ℕ) (t : Task) (o : DispatchOutcome) (q : Queue)
    → SoundQueue q
    → SoundQueue (dispatch_returned now t o q)
unfolding dispatch_returned
dispatch_returned-SoundQueue now t withheld q h = h
dispatch_returned-SoundQueue now t accepted q h = h
dispatch_returned-SoundQueue now t busy q h = requeue_busy-SoundQueue now _ _ q h
dispatch_returned-SoundQueue now t (refused error owner) q h = complete-SoundQueue now _ q h
