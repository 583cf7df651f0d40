-- ===== src/Queue/Duplicates.antt =====
-- internal/queue/queue.go: a failure that is reported again while its step waits for the retry.
use piper.Queue.Races.{find_entry-store_entry}
use piper.Queue.Reports.{judge_iff, FromOwner}
use piper.Queue.Frame.{stop_entry_timer-Frame, release_task_slot-Frame}
use piper.Queue.Timers.{
  append_write, emit, call, release_task_slot, stop_entry_timer, arm_timer, transition_task,
}
use piper.Queue.Tasks.{key, put_task}
use piper.Queue.Finish.{retry_task, retry_entry, schedule_retry, fail_or_retry, ended_row}
use piper.Queue.Callbacks.{find_entry, find_entry_inv, store_entry}
use piper.Queue.TaskId.{split_task_id}
use piper.Queue.Complete.{
  complete, complete_split, complete_run, complete_task, complete_judged, complete_entry, applied,
  judge, int_attempt, result_attempt, owner_of, or_else, backend_owner,
}
use piper.Queue.Types.{
  Queue, RunEntry, TaskEntry, TaskStatus, TaskResult, Timer, TimerKind, is_terminal, upsert,
  step_reported,
}
use piper.Prelude.{
  ℕ, ◌+◌, ◌<◌, ◌==◌, String, some, true, false, List, ◌∷◌, ◌≡◌, refl, ap, ◌∙◌, sym, arith, str_eq,
  pos, inl, inr, ltb, Bool-cases, subst,
}

-- The step waits for its retry since this time, in the attempt that it was in.
pub record Waits (run_id step_name : String) (now : ℕ) (e : TaskEntry) (q p : Queue) : Type 0 where
  pub run : RunEntry
  pub entry : TaskEntry
  pub found : find_entry run_id step_name p ≡ some (run, entry)
  pub status : entry.status ≡ TaskStatus.retrying
  pub attempts : entry.attempts ≡ e.attempts
  pub max_attempts : entry.max_attempts ≡ e.max_attempts
  pub task : entry.task ≡ e.task
  pub unassigned : entry.assigned_runtime_id ≡ ""
  pub backend : p.backend ≡ q.backend
  pub retry_delay : p.retry_delay ≡ q.retry_delay
  pub timer : Timer
  pub rest : List Timer
  pub armed : p.armed ≡ timer ∷ rest
  pub kind : timer.kind ≡ TimerKind.retry
  pub at : timer.at ≡ now + q.retry_delay
  pub slot : entry.timer ≡ some timer.id

-- The entry and the queue that retry_task stores.
abbrev rearmed : ℕ → TaskResult → RunEntry → TaskEntry → Queue → TaskEntry × Queue
rearmed now result r e p = schedule_retry now (retry_entry (stop_entry_timer e p).0) (
    append_write
      (upsert (
        ended_row r (retry_entry (stop_entry_timer e p).0) TaskStatus.running
          (some result.started_at) result.ended_at result.error))
      (stop_entry_timer e p).1)

stopped_fields :
    (e : TaskEntry) (p : Queue)
    → ((stop_entry_timer e p).0.status ≡ e.status)
      × ((stop_entry_timer e p).0.attempts ≡ e.attempts)
      × ((stop_entry_timer e p).0.max_attempts ≡ e.max_attempts)
      × ((stop_entry_timer e p).0.task ≡ e.task)
      × ((stop_entry_timer e p).0.step ≡ e.step)
      × ((stop_entry_timer e p).0.assigned_runtime_id ≡ e.assigned_runtime_id)
unfolding stop_entry_timer
stopped_fields e p =
    (ground arith, ground arith, ground arith, ground arith, ground arith, ground arith)

retry_fields :
    (e : TaskEntry)
    → is_terminal e.status ≡ false
    → ((retry_entry e).status ≡ TaskStatus.retrying)
      × ((retry_entry e).attempts ≡ e.attempts)
      × ((retry_entry e).max_attempts ≡ e.max_attempts)
      × ((retry_entry e).task ≡ e.task)
      × ((retry_entry e).step ≡ e.step)
      × ((retry_entry e).assigned_runtime_id ≡ "")
unfolding retry_entry transition_task
retry_fields e h = rw h (refl, refl, refl, refl, refl, refl)

module _ (now : ℕ) (e : TaskEntry) (p : Queue) (later : (p.retry_delay == 0) ≡ false) where
  schedule_retry_lem :
      schedule_retry now e p
      ≡ arm_timer TimerKind.retry e.task.run_id
          (now + p.retry_delay)
          (stop_entry_timer e p).0
          (stop_entry_timer e p).1
  unfolding schedule_retry
  schedule_retry_lem = rw later refl

module _ (now : ℕ) (result : TaskResult) (run_id step_name : String) (q p : Queue) (r : RunEntry)
    (e : TaskEntry) (found : find_entry run_id step_name q ≡ some (r, e))
    (open' : is_terminal e.status ≡ false) (later : (q.retry_delay == 0) ≡ false)
    (back : p.backend ≡ q.backend) (delay : p.retry_delay ≡ q.retry_delay) where
  abbrev ended : TaskEntry
  ended = retry_entry (stop_entry_timer e p).0

  abbrev noted : Queue
  noted =
      append_write
        (upsert (
          ended_row r ended TaskStatus.running (some result.started_at) result.ended_at
            result.error))
        (stop_entry_timer e p).1

  abbrev armed_entry : TaskEntry × Queue
  armed_entry =
      arm_timer TimerKind.retry ended.task.run_id (now + noted.retry_delay)
        (stop_entry_timer ended noted).0 (stop_entry_timer ended noted).1

  noted_delay : noted.retry_delay ≡ q.retry_delay
  unfolding append_write
  noted_delay = (stop_entry_timer-Frame e p).retry_delay ∙ delay

  noted_backend : noted.backend ≡ q.backend
  unfolding append_write
  noted_backend = (stop_entry_timer-Frame e p).backend ∙ back

  rearmed_lem : rearmed now result r e p ≡ armed_entry
  rearmed_lem = schedule_retry_lem now ended noted (ap (λ d. d == 0) noted_delay ∙ later)

  armed-Waits : Waits run_id step_name now e q (store_entry r armed_entry)
  unfolding arm_timer store_entry
  armed-Waits =
      let (s, a, m, t, st, o) = stopped_fields e p in
      let (s', a', m', t', st', o') =
        retry_fields (stop_entry_timer e p).0 (ap (λ x. is_terminal x) s ∙ open') in
      let (s'', a'', m'', t'', st'', o'') = stopped_fields ended noted in
      record {
        run = record r { tasks = put_task armed_entry.0 r.tasks };
        entry = armed_entry.0;
        found =
            find_entry-store_entry run_id step_name q armed_entry.1 r e armed_entry.0 found
              (ap (λ x. x.name) (st'' ∙ st' ∙ st));
        status = s'' ∙ s';
        attempts = a'' ∙ a' ∙ a;
        max_attempts = m'' ∙ m' ∙ m;
        task = t'' ∙ t' ∙ t;
        unassigned = o'' ∙ o';
        backend = (stop_entry_timer-Frame ended noted).backend ∙ noted_backend;
        retry_delay = (stop_entry_timer-Frame ended noted).retry_delay ∙ noted_delay;
        timer = record {
          id = (stop_entry_timer ended noted).1.next_id;
          kind = TimerKind.retry;
          run_id = ended.task.run_id;
          step_name = (stop_entry_timer ended noted).0.step.name;
          at = now + noted.retry_delay;
        };
        rest = (stop_entry_timer ended noted).1.armed;
        armed = refl;
        kind = refl;
        at = ap (λ d. now + d) noted_delay;
        slot = refl;
      }

  retry_task-Waits :
      Waits run_id step_name now e q
        (retry_task now result.error (some result.started_at) result.ended_at r e p)
  unfolding retry_task store_entry
  retry_task-Waits =
      subst (λ s. Waits run_id step_name now e q (store_entry r s)) (sym rearmed_lem) armed-Waits

int_attempt_lem :
    (result : TaskResult) (n : ℕ)
    → result_attempt result ≡ n
    → int_attempt (pos result.attempt) ≡ pos n
unfolding result_attempt int_attempt
int_attempt_lem result n h = elim (Bool-cases (result.attempt == 0)) [
  | inl t ↦ rw t (ap pos (rw t at h))
  | inr f ↦ rw f (ap pos (rw f at h))
]

attempt_counts : (result : TaskResult) (n : ℕ) → result_attempt result ≡ n → (n == 0) ≡ false
unfolding result_attempt
attempt_counts result n h = ground arith

-- A failure that is accepted for an attempt which is not the last.
complete-Waits :
    (now : ℕ) (result : TaskResult) (run_id step_name : String) (q : Queue) (r : RunEntry)
    (e : TaskEntry)
    → split_task_id result.task_id ≡ some (run_id, step_name)
    → find_entry run_id step_name q ≡ some (r, e)
    → is_terminal e.status ≡ false
    → result_attempt result ≡ e.attempts
    → FromOwner (owner_of result.task_id e q) result.runtime_id
    → str_eq result.status "done" ≡ false
    → e.attempts < e.max_attempts
    → (q.retry_delay == 0) ≡ false
    → ((complete now result q).0 ≡ applied)
      × Waits run_id step_name now e q (complete now result q).1
unfolding complete complete_split complete_run complete_task complete_judged complete_entry judge
    fail_or_retry emit call
complete-Waits now result run_id step_name q r e splits found open' attempt own fails left later =
    let (tracked, entry) = find_entry_inv run_id step_name q found in
    let judged =
      (judge_iff (owner_of result.task_id e q) result.runtime_id e.status (pos e.attempts)
          (pos result.attempt)).1
        (open', inl (int_attempt_lem result e.attempts attempt), own) in
    let frame = release_task_slot-Frame result.task_id q in
    let again : ltb e.attempts e.max_attempts ≡ true = ground (arith, left) in
    rw (splits, complete_split)
      (rw (tracked, complete_run)
        (rw (entry, complete_task)
          (rw (judged, complete_judged)
            (rw (attempt_counts result e.attempts attempt, fails, again)
              (
                refl,
                retry_task-Waits now result run_id step_name q
                    (emit r.project_id (step_reported r.run_id (key e) result.status)
                      (release_task_slot result.task_id q))
                    r e found open' later frame.backend frame.retry_delay,
              )))))

owner_of-unassigned :
    (id : String) (e e' : TaskEntry) (q p : Queue)
    → e'.assigned_runtime_id ≡ ""
    → e'.task ≡ e.task
    → p.backend ≡ q.backend
    → owner_of id e' p ≡ or_else e.task.runtime_id (backend_owner id q)
unfolding owner_of backend_owner
owner_of-unassigned id e e' q p a t b = rw (a, t, b) refl

-- A failure is reported for an attempt that is not the step's last, and there is a delay before a retry:
-- the report is accepted and the step waits for its retry. If the same report comes again, from the
-- owner that the task has without an assigned runtime, it is accepted too, and the step waits anew: its
-- timer is now armed for the delay after the second report.
pub complete-twice :
    (now again : ℕ) (result : TaskResult) (run_id step_name : String) (q : Queue) (r : RunEntry)
    (e : TaskEntry)
    → split_task_id result.task_id ≡ some (run_id, step_name)
    → find_entry run_id step_name q ≡ some (r, e)
    → is_terminal e.status ≡ false
    → result_attempt result ≡ e.attempts
    → FromOwner (owner_of result.task_id e q) result.runtime_id
    → FromOwner (or_else e.task.runtime_id (backend_owner result.task_id q)) result.runtime_id
    → str_eq result.status "done" ≡ false
    → e.attempts < e.max_attempts
    → (q.retry_delay == 0) ≡ false
    → ((complete now result q).0 ≡ applied)
      × Waits run_id step_name now e q (complete now result q).1
      × ((complete again result (complete now result q).1).0 ≡ applied)
      × Waits run_id step_name again e q (complete again result (complete now result q).1).1
complete-twice now again result run_id step_name q r e splits found open' attempt own own' fails
      left later =
    let (first, w) =
      complete-Waits now result run_id step_name q r e splits found open' attempt own fails left
        later in
    let q1 : Queue = (complete now result q).1 in
    let owner = owner_of-unassigned result.task_id e w.entry q q1 w.unassigned w.task w.backend in
    let (second, w') =
      complete-Waits again result run_id step_name q1 w.run w.entry splits w.found
        (rw w.status refl) (attempt ∙ sym w.attempts) (rw owner own') fails
        (rw (w.attempts, w.max_attempts) left) (rw w.retry_delay later) in
    (
      first,
      w,
      second,
      record {
        run = w'.run;
        entry = w'.entry;
        found = w'.found;
        status = w'.status;
        attempts = w'.attempts ∙ w.attempts;
        max_attempts = w'.max_attempts ∙ w.max_attempts;
        task = w'.task ∙ w.task;
        unassigned = w'.unassigned;
        backend = w'.backend ∙ w.backend;
        retry_delay = w'.retry_delay ∙ w.retry_delay;
        timer = w'.timer;
        rest = w'.rest;
        armed = w'.armed;
        kind = w'.kind;
        at = w'.at ∙ ap (λ d. again + d) w.retry_delay;
        slot = w'.slot;
      },
    )
