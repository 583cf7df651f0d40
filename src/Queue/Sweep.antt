-- ===== src/Queue/Sweep.antt =====
-- internal/queue/queue.go: Cancel, RenewLeases, Cleanup, and the questions that change nothing.
use piper.Prelude.{
  ℕ, suc, ◌+◌, ◌-◌, String, Bool, true, false, none, some, List, [], ◌∷◌, str_eq, ltb, ◌&&◌, ◌||◌,
  not, any, length, if◌then◌else◌,
}
use piper.Queue.Types.{
  Queue, TaskEntry, TaskStatus, RunEntry, RunStatus, is_terminal, upsert, finalize, always, publish,
  run_canceled, run_expired, run_cancel_remote_failed, step_recovered,
}
use piper.Queue.TaskId.{split_task_id}
use piper.Queue.Timers.{
  append_write, append_effect, emit, release_task_slot, stop_entry_timer, transition_task,
}
use piper.Queue.Tasks.{key, find_run}
use piper.Queue.Finish.{ended_row, end_entry, finalize_run}
use piper.Queue.Callbacks.{find_entry, store_entry, is_running, is_recovering}

-- One entry of a canceled run.
unfoldable pub cancel_task : ℕ → RunEntry → TaskEntry → Queue → TaskEntry × Queue
cancel_task now r e q =
    if is_terminal e.status
    then (e, q)
    else (let (e1, q1) = stop_entry_timer e q in
        let e2 = record (transition_task TaskStatus.canceled e1) { started_at = none } in
        (
          e2,
          release_task_slot e2.task.id
              (append_write (upsert (ended_row r e2 TaskStatus.canceled e.started_at now "")) q1),
        ))

unfoldable pub cancel_tasks : ℕ → RunEntry → List TaskEntry → Queue → List TaskEntry × Queue
cancel_tasks now r [] q = ([], q)
cancel_tasks now r (e ∷ tasks) q =
    let (e', q') = cancel_task now r e q in
    let (tasks', q'') = cancel_tasks now r tasks q' in (e' ∷ tasks', q'')

-- A run that is not tracked: the write is tried all the same, and the event does not wait for it.
unfoldable pub cancel_untracked : ℕ → String → String → Queue → Queue
cancel_untracked now project_id run_id q =
    append_effect (always (publish project_id (run_canceled run_id RunStatus.canceled))) (
      append_write (finalize q.next_id project_id run_id RunStatus.canceled now)
        (record q { next_id = suc q.next_id }))

-- Cancel, as far as the lock is held.
unfoldable pub cancel : ℕ → String → String → Queue → Queue
cancel now project_id run_id q = elim (find_run run_id q.runs) [
  | none ↦ cancel_untracked now project_id run_id q
  | some r ↦
      let (tasks, q') = cancel_tasks now r r.tasks q in
      finalize_run now (record r { tasks = tasks }) RunStatus.canceled
        (run_canceled run_id RunStatus.canceled) q'
]

-- The call of CancelRun after the flush, when it fails.
unfoldable pub cancel_remote : Bool → String → String → Queue → Queue
cancel_remote ok project_id run_id q = elim q.backend [
  | none ↦ q
  | some b ↦
      if b.cancelable && not ok then emit project_id (run_cancel_remote_failed run_id) q else q
]

abbrev pub is_live : TaskStatus → Bool
is_live s = is_running s || is_recovering s

-- Whether the runtime may renew the lease of this entry: it is assigned to it, or to nobody.
unfoldable pub may_renew : String → TaskEntry → Bool
may_renew runtime_id e =
    is_live e.status
    && (if str_eq e.assigned_runtime_id ""
        then str_eq e.task.runtime_id "" || str_eq e.task.runtime_id runtime_id
        else str_eq e.assigned_runtime_id runtime_id)

-- The reconnected worker ends the wait.
unfoldable pub resume_entry : RunEntry → TaskEntry → Queue → TaskEntry × Queue
resume_entry r e q =
    if is_recovering e.status
    then (let (e', q') = stop_entry_timer e q in
        (
          transition_task TaskStatus.running e',
          emit r.project_id (step_recovered r.run_id (key e)) q',
        ))
    else (e, q)

unfoldable pub renew_entry : ℕ → String → RunEntry → TaskEntry → Queue → Queue
renew_entry now runtime_id r e q =
    if may_renew runtime_id e
    then (let (e', q') = resume_entry r (record e { assigned_runtime_id = runtime_id }) q in
        store_entry r (record e' { lease_at = some now }, q'))
    else q

unfoldable pub renew_lease : ℕ → String → String → Queue → Queue
renew_lease now runtime_id task_id q = elim (split_task_id task_id) [
  | none ↦ q
  | some (run_id, step_name) ↦ elim (find_entry run_id step_name q) [
    | none ↦ q
    | some (r, e) ↦ renew_entry now runtime_id r e q
  ]
]

unfoldable pub renew_each : ℕ → String → List String → Queue → Queue
renew_each now runtime_id [] q = q
renew_each now runtime_id (id ∷ ids) q =
    renew_each now runtime_id ids (renew_lease now runtime_id id q)

-- RenewLeases
unfoldable pub renew_leases : ℕ → String → List String → Queue → Queue
renew_leases now runtime_id ids q =
    if str_eq runtime_id "" then q else renew_each now runtime_id ids q

-- runExpiredLocked
unfoldable pub lease_expired : ℕ → TaskEntry → Bool
lease_expired cutoff e = elim e.lease_at [
  | none ↦ false
  | some at ↦ is_live e.status && ltb at cutoff
]

unfoldable pub run_expired_locked : ℕ → RunEntry → Bool
run_expired_locked cutoff r = any (lease_expired cutoff) r.tasks

-- One entry of an expired run.
unfoldable pub expire_entry : ℕ → RunEntry → TaskEntry → Queue → TaskEntry × Queue
expire_entry now r e q =
    if is_terminal e.status
    then (e, q)
    else (let (e1, q1) = stop_entry_timer e q in
        let e2 = end_entry TaskStatus.failed e1 in
        (
          e2,
          append_write (upsert (ended_row r e2 TaskStatus.failed none now "task lease expired")) q1,
        ))

unfoldable pub expire_entries : ℕ → RunEntry → List TaskEntry → Queue → List TaskEntry × Queue
expire_entries now r [] q = ([], q)
expire_entries now r (e ∷ tasks) q =
    let (e', q') = expire_entry now r e q in
    let (tasks', q'') = expire_entries now r tasks q' in (e' ∷ tasks', q'')

unfoldable pub expire_run : ℕ → RunEntry → Queue → Queue
expire_run now r q =
    let (tasks, q') = expire_entries now r r.tasks q in
    finalize_run now (record r { tasks = tasks }) RunStatus.failed
      (run_expired r.run_id RunStatus.failed) q'

unfoldable pub cleanup_runs : ℕ → ℕ → List RunEntry → Queue → Queue
cleanup_runs now cutoff [] q = q
cleanup_runs now cutoff (r ∷ runs) q =
    cleanup_runs now cutoff runs (if run_expired_locked cutoff r then expire_run now r q else q)

-- cleanupLocked: a cutoff before time 0 expires nothing, as does the cutoff 0.
unfoldable pub cleanup : ℕ → ℕ → Queue → Queue
cleanup now ttl q = cleanup_runs now (now - ttl) q.runs q

-- IsTracking
unfoldable pub is_tracking : String → Queue → Bool
is_tracking run_id q = elim (find_run run_id q.runs) [ none ↦ false | some r ↦ true ]

-- IsTrackingTask
unfoldable pub is_tracking_task : String → Queue → Bool
is_tracking_task task_id q = elim (split_task_id task_id) [
  | none ↦ false
  | some (run_id, step_name) ↦ elim (find_entry run_id step_name q) [
    | none ↦ false
    | some (r, e) ↦ is_live e.status
  ]
]

pub record Stats : Type 0 where
  pub runs : ℕ
  pub pending : ℕ
  pub ready : ℕ
  pub running : ℕ

unfoldable pub count_task : TaskStatus → Stats → Stats
count_task TaskStatus.pending s = record s { pending = s.pending + 1 }
count_task TaskStatus.ready s = record s { ready = s.ready + 1 }
count_task TaskStatus.running s = record s { running = s.running + 1 }
count_task _ s = s

unfoldable pub count_tasks : List TaskEntry → Stats → Stats
count_tasks [] s = s
count_tasks (e ∷ tasks) s = count_tasks tasks (count_task e.status s)

unfoldable pub count_runs : List RunEntry → Stats → Stats
count_runs [] s = s
count_runs (r ∷ runs) s = count_runs runs (count_tasks r.tasks s)

-- Stats
unfoldable pub stats : Queue → Stats
stats q = count_runs q.runs (record { runs = length q.runs; pending = 0; ready = 0; running = 0 })
