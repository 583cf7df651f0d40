-- ===== src/Queue/Complete.antt =====
-- internal/queue/queue.go: completeLocked, which Complete and CompleteApplied call.
use piper.Prelude.{
  eq_ℤ, ltb_ℤ, if◌then◌else◌, some, none, refl, pos, ℤ, inr, inl, Option-cases, ◌≢◌, ◌≡◌, ℕ, String,
  Option, str_eq, ◌==◌, ◌&&◌, not,
}
use piper.Queue.Types.{
  Queue, TaskEntry, TaskStatus, TaskResult, RunEntry, is_terminal, upsert, always, publish,
  step_reported, step_done,
}
use piper.Queue.TaskId.{split_task_id}
use piper.Queue.Timers.{append_write, append_effect, emit, release_task_slot, stop_entry_timer}
use piper.Queue.Tasks.{key, find_task, put_task, find_run}
use piper.Queue.Dispatch.{promote_ready}
use piper.Queue.Finish.{ended_row, end_entry, fail_or_retry, settle_run}

-- The errors of a completion, in the order of their tests.
pub data Rejection : Type 0 where
  bad_task_id unknown_step missing_runtime wrong_runtime future_attempt : Rejection

-- `(nil, true)`, `(nil, false)`, and an error.
pub data Completion : Type 0 where
  applied ignored : Completion
  rejected : Rejection → Completion

abbrev pub or_else : String → String → String
or_else a b = if str_eq a "" then b else a

-- The owner that the backend names, if it is a TaskOwner.
unfoldable pub backend_owner : String → Queue → String
backend_owner task_id q = elim q.backend [
  | none ↦ ""
  | some b ↦ if b.task_owner then b.owner_for_task task_id else ""
]

unfoldable pub owner_of : String → TaskEntry → Queue → String
owner_of task_id e q =
    or_else e.assigned_runtime_id (or_else e.task.runtime_id (backend_owner task_id q))

-- A missing attempt number counts as the first attempt.
unfoldable pub int_attempt : ℤ → ℤ
int_attempt attempt = if eq_ℤ attempt (pos 0) then pos 1 else attempt

unfoldable pub result_attempt : TaskResult → ℕ
result_attempt result = if result.attempt == 0 then 1 else result.attempt

-- What a result from a runtime comes to, for an entry with this status and these attempts, before
-- anything is changed. The attempts are Go's signed integers.
unfoldable pub judge_attempts :
    (owner runtime_id : String) → TaskStatus → (attempts attempt : ℤ) → Completion
judge_attempts owner runtime_id status attempts attempt =
    if not (str_eq owner "") && str_eq runtime_id ""
    then rejected missing_runtime
    else if not (str_eq runtime_id "") && (not (str_eq owner "") && not (str_eq runtime_id owner))
    then rejected wrong_runtime
    else if is_terminal status
    then ignored
    else if ltb_ℤ (pos 0) attempts && ltb_ℤ (int_attempt attempt) attempts
    then ignored
    else if ltb_ℤ attempts (int_attempt attempt)
    then rejected future_attempt
    else applied

-- The same for an entry and a result.
unfoldable pub judge : String → TaskEntry → TaskResult → Completion
judge owner e result =
    judge_attempts owner result.runtime_id e.status (pos e.attempts) (pos result.attempt)

-- The step is done: its row, its event, the steps that it makes ready, and maybe the run's end.
unfoldable pub complete_done : ℕ → TaskResult → RunEntry → TaskEntry → Queue → Queue
complete_done now result r e q =
    let (e1, q1) = stop_entry_timer e q in
    let e2 = end_entry TaskStatus.done e1 in
    let q2 =
      append_effect (always (publish r.project_id (step_done r.run_id (key e2) e2.attempts))) q1 in
    let q3 =
      append_write
        (upsert
          (ended_row r e2 TaskStatus.done (some result.started_at) result.ended_at result.error))
        q2 in
    let (r', q4) = promote_ready now (record r { tasks = put_task e2 r.tasks }) q3 in
    settle_run now r' q4

-- An accepted result.
unfoldable pub complete_entry : ℕ → TaskResult → RunEntry → TaskEntry → Queue → Queue
complete_entry now result r e q =
    let e' = if e.attempts == 0 then record e { attempts = result_attempt result } else e in
    let q' =
      emit r.project_id (step_reported r.run_id (key e) result.status)
        (release_task_slot result.task_id q) in
    if str_eq result.status "done"
    then complete_done now result r e' q'
    else fail_or_retry now result.error (some result.started_at) result.ended_at r e' q'

unfoldable pub complete_judged :
    ℕ → TaskResult → RunEntry → TaskEntry → Queue → Completion → Completion × Queue
complete_judged now result r e q applied = (applied, complete_entry now result r e q)
complete_judged now result r e q c = (c, q)

unfoldable pub complete_task :
    ℕ → TaskResult → RunEntry → Option TaskEntry → Queue → Completion × Queue
complete_task now result r none q = (rejected unknown_step, q)
complete_task now result r (some e) q =
    complete_judged now result r e q (judge (owner_of result.task_id e q) e result)

-- A run that is no longer tracked makes the result a late one.
unfoldable pub complete_run : ℕ → TaskResult → String → Option RunEntry → Queue → Completion × Queue
complete_run now result step_name none q = (ignored, q)
complete_run now result step_name (some r) q =
    complete_task now result r (find_task step_name r.tasks) q

unfoldable pub complete_split :
    ℕ → TaskResult → Option (String × String) → Queue → Completion × Queue
complete_split now result none q = (rejected bad_task_id, q)
complete_split now result (some (run_id, step_name)) q =
    complete_run now result step_name (find_run run_id q.runs) q

-- completeLocked
unfoldable pub complete : ℕ → TaskResult → Queue → Completion × Queue
complete now result q = complete_split now result (split_task_id result.task_id) q

-- What an accepted result knows of the queue.
pub record IsAccepted (result : TaskResult) (q : Queue) (r : RunEntry) (e : TaskEntry)
    : Type 0 where
  pub run_id : String
  pub step_name : String
  pub splits : split_task_id result.task_id ≡ some (run_id, step_name)
  pub tracked : find_run run_id q.runs ≡ some r
  pub entry : find_task step_name r.tasks ≡ some e
  pub judged : judge (owner_of result.task_id e q) e result ≡ applied

-- Every completion leaves the queue as it was, or is `complete_entry` at the entry of the result.
pub complete_cases {ℓ} :
    (P : Completion → Queue → Type ℓ) (now : ℕ) (result : TaskResult) (q : Queue)
    → ((c : Completion) → c ≢ applied → P c q)
    → ((r : RunEntry) (e : TaskEntry)
        → IsAccepted result q r e
        → P applied (complete_entry now result r e q))
    → P (complete now result q).0 (complete now result q).1
unfolding complete complete_split complete_run complete_task complete_judged
complete_cases P now result q refuses accepts = elim (Option-cases (split_task_id result.task_id)) [
  | inl p ↦ rw (p, complete_split) (refuses _ cc)
  | inr ((run_id, step_name), p) ↦ elim (Option-cases (find_run run_id q.runs)) [
    | inl p' ↦ rw (p, complete_split) (rw (p', complete_run) (refuses _ cc))
    | inr (r, p') ↦ elim (Option-cases (find_task step_name r.tasks)) [
      | inl p'' ↦
          rw (p, complete_split) (rw (p', complete_run) (rw (p'', complete_task) (refuses _ cc)))
      | inr (e, p'') ↦
          rw (p, complete_split)
            (rw (p', complete_run)
              (rw (p'', complete_task)
                (judged r e (judge (owner_of result.task_id e q) e result) λ j. record {
                  run_id = run_id;
                  step_name = step_name;
                  splits = p;
                  tracked = p';
                  entry = p'';
                  judged = j;
                })))
    ]
  ]
]
  where
    judged :
        (r : RunEntry) (e : TaskEntry) (c : Completion)
        → (c ≡ applied → IsAccepted result q r e)
        → P (complete_judged now result r e q c).0 (complete_judged now result r e q c).1
    judged r e applied a = accepts r e (a refl)
    judged r e ignored a = refuses ignored cc
    judged r e (rejected x) a = refuses (rejected x) cc
