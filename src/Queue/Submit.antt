-- ===== src/Queue/Submit.antt =====
-- internal/queue/queue.go: addWithEnvLocked and recoverWithEnvLocked.
-- `marshals` says for which steps json.Marshal succeeds, `env_by_step` gives a step's environment.
use piper.Prelude.{
  ℕ, ◌+◌, String, Bool, Option, none, some, List, [], ◌∷◌, str_eq, ◌==◌, if◌then◌else◌,
}
use piper.Pipeline.{Step, Pipeline}
use piper.Pipeline.Defaults.{apply_defaults}
use piper.Queue.Types.{
  Queue, TaskEntry, TaskStatus, Task, TimerKind, RunEntry, step_recovering, run_completed,
}
use piper.Queue.TaskId.{make_task_id}
use piper.Queue.Timers.{emit, stop_entry_timer, arm_timer, transition_task}
use piper.Queue.Tasks.{key, set_task, store_run, all_terminal, run_outcome}
use piper.Queue.Dispatch.{promote_ready}
use piper.Queue.Finish.{finalize_run}

-- What a submission hands to the queue.
pub record Submission : Type 0 where
  pub project_id : String
  pub pl : Pipeline
  pub run_id : String
  pub env_by_step : String → List String

unfoldable pub new_task : ℕ → Submission → Step → Queue → Task
new_task now sub s q = record {
  project_id = sub.project_id;
  id = make_task_id sub.run_id s.name;
  run_id = sub.run_id;
  step_name = s.name;
  created_at = now;
  runtime_id = "";
  attempt = 0;
  env = sub.env_by_step s.name;
  storage_url = q.storage_url;
  storage_token = q.storage_token;
  deadline = none;
}

unfoldable pub new_entry : ℕ → Submission → Step → Queue → TaskEntry
new_entry now sub s q = record {
  task = new_task now sub s q;
  step = s;
  status = TaskStatus.pending;
  attempts = 0;
  max_attempts = q.max_attempts;
  assigned_runtime_id = "";
  started_at = none;
  lease_at = none;
  deadline = none;
  timer = none;
}

unfoldable pub new_run : ℕ → Submission → List TaskEntry → RunEntry
new_run now sub tasks = record {
  project_id = sub.project_id;
  run_id = sub.run_id;
  pl = apply_defaults sub.pl;
  tasks = tasks;
  added_at = now;
}

-- The loop of addWithEnvLocked: a step that cannot be marshalled gets no entry.
unfoldable pub add_steps :
    ℕ → (Step → Bool) → Submission → Queue → List Step → List TaskEntry → List TaskEntry
add_steps now marshals sub q [] tasks = tasks
add_steps now marshals sub q (s ∷ steps) tasks =
    add_steps now marshals sub q steps
      (if marshals s then set_task (new_entry now sub s q) tasks else tasks)

-- addWithEnvLocked
unfoldable pub add_with_env : ℕ → (Step → Bool) → Submission → Queue → Queue
add_with_env now marshals sub q =
    let tasks = add_steps now marshals sub q (apply_defaults sub.pl).steps [] in
    let (r, q') = promote_ready now (new_run now sub tasks) q in store_run r q'

-- The persisted state of a step; a `started_at` of none is Go's zero time.
pub record RecoveredStep : Type 0 where
  pub name : String
  pub done : Bool
  pub started_at : Option ℕ
  pub attempts : ℕ

-- recoveredByName[name]: the last one of that name.
unfoldable pub find_recovered : String → List RecoveredStep → Option RecoveredStep
find_recovered name [] = none
find_recovered name (rs ∷ rest) =
    let later = find_recovered name rest in
    elim later [ some x ↦ some x | none ↦ if str_eq rs.name name then some rs else none ]

abbrev pub default_recovery_grace : ℕ
default_recovery_grace = 45

abbrev pub grace_period : Queue → ℕ
grace_period q = if q.recovery_grace == 0 then default_recovery_grace else q.recovery_grace

-- scheduleRecoveryGraceLocked
unfoldable pub schedule_recovery_grace : ℕ → String → TaskEntry → Queue → TaskEntry × Queue
schedule_recovery_grace now run_id e q =
    let (e', q') = stop_entry_timer e q in
    arm_timer TimerKind.recovery_grace run_id (now + grace_period q) e' q'

-- An entry that was running when the server went down waits for its worker.
unfoldable pub recover_running :
    ℕ → Submission → RecoveredStep → ℕ → TaskEntry → Queue → TaskEntry × Queue
recover_running now sub rs started e q =
    schedule_recovery_grace now sub.run_id
      (record (transition_task TaskStatus.recovering e) {
        attempts = rs.attempts;
        started_at = some started;
        lease_at = some now;
      })
      (emit sub.project_id (step_recovering sub.run_id (key e)) q)

unfoldable pub recover_entry :
    ℕ → Submission → Option RecoveredStep → TaskEntry → Queue → TaskEntry × Queue
recover_entry now sub none e q = (e, q)
recover_entry now sub (some rs) e q =
    if rs.done then (transition_task TaskStatus.done e, q) else elim rs.started_at [
      | none ↦ (e, q)
      | some started ↦ recover_running now sub rs started e q
    ]

-- The loop of recoverWithEnvLocked, which ignores the error of json.Marshal.
unfoldable pub recover_steps :
    ℕ
    → Submission
    → List RecoveredStep
    → List Step
    → List TaskEntry
    → Queue
    → List TaskEntry × Queue
recover_steps now sub recovered [] tasks q = (tasks, q)
recover_steps now sub recovered (s ∷ steps) tasks q =
    let (e, q') =
      recover_entry now sub (find_recovered s.name recovered) (new_entry now sub s q) q in
    recover_steps now sub recovered steps (set_task e tasks) q'

-- The end of recoverWithEnvLocked: a run with nothing left to do is finalized at once.
unfoldable pub resume_run : ℕ → RunEntry → Queue → Queue
resume_run now r q =
    if all_terminal r.tasks
    then finalize_run now r (run_outcome r.tasks) (run_completed r.run_id (run_outcome r.tasks)) q
    else (let (r', q') = promote_ready now r q in store_run r' q')

-- recoverWithEnvLocked
unfoldable pub recover_with_env : ℕ → Submission → List RecoveredStep → Queue → Queue
recover_with_env now sub recovered q =
    let (tasks, q') = recover_steps now sub recovered (apply_defaults sub.pl).steps [] q in
    resume_run now (new_run now sub tasks) q'
