-- ===== src/Queue/Frame.antt =====
-- internal/queue/queue.go: the map of runs and the configuration, under the functions on one entry
-- and the sweeps over the entries of one run.
use piper.Queue.Tasks.{delete_run, find_task, deps_all_done}
use piper.Queue.Dispatch.{
  begin_attempt, is_pending, schedule_timeout, with_deadline, promote_ready, start_task,
  dispatch_if_needed, promote_tasks, promote_task,
}
use piper.Queue.Timers.{
  release_run_slot, append_effect, is_armed, append_write, call, emit, stop_timer, arm_timer,
  stop_entry_timer, release_task_slot,
}
use piper.Queue.Finish.{
  append_success, finalize_run, is_open, skip_task, skip_each, skip_visit, schedule_retry,
  skip_downstream,
}
use piper.Queue.Types.{
  finalize, Event, RunStatus, Call, Effect, TimerKind, Write, RunEntry, Queue, TaskEntry,
}
use piper.Prelude.{
  ◌++◌, arith, false, true, refl, has, ◌&&◌, ltb, ◌==◌, ◌∙◌, if◌then◌else◌, Bool-cases,
  Option-cases, ℕ, suc, zero, String, ◌≡◌, Bool, List, [], ◌∷◌, inl, inr,
}

pub record Frame (q p : Queue) : Type 0 where
  pub runs : p.runs ≡ q.runs
  pub backend : p.backend ≡ q.backend
  pub max_attempts : p.max_attempts ≡ q.max_attempts
  pub retry_delay : p.retry_delay ≡ q.retry_delay
  pub shutdown : p.shutdown ≡ q.shutdown

pub Frame-refl : (q : Queue) → Frame q q
Frame-refl q = record {
  runs = refl;
  backend = refl;
  max_attempts = refl;
  retry_delay = refl;
  shutdown = refl;
}

pub Frame-trans : {q p o : Queue} → Frame q p → Frame p o → Frame q o
Frame-trans a b = record {
  runs = b.runs ∙ a.runs;
  backend = b.backend ∙ a.backend;
  max_attempts = b.max_attempts ∙ a.max_attempts;
  retry_delay = b.retry_delay ∙ a.retry_delay;
  shutdown = b.shutdown ∙ a.shutdown;
}

pub if-Frame :
    (b : Bool) {q : Queue} (p o : Queue) → Frame q p → Frame q o → Frame q (if b then p else o)
if-Frame true p o hp ho = hp
if-Frame false p o hp ho = ho

pub stop_entry_timer-Frame : (e : TaskEntry) (q : Queue) → Frame q (stop_entry_timer e q).1
unfolding stop_entry_timer stop_timer
stop_entry_timer-Frame e q = elim (Option-cases e.timer) [
  | inl p ↦ rw (p, stop_entry_timer) (Frame-refl q)
  | inr (id, p) ↦
      rw (p, stop_entry_timer, stop_timer)
        (if-Frame (is_armed id q.armed) _ _
          (record {
            runs = refl;
            backend = refl;
            max_attempts = refl;
            retry_delay = refl;
            shutdown = refl;
          })
          (Frame-refl q))
]

pub arm_timer-Frame :
    (k : TimerKind) (run_id : String) (at : ℕ) (e : TaskEntry) (q : Queue)
    → Frame q (arm_timer k run_id at e q).1
unfolding arm_timer
arm_timer-Frame k run_id at e q = record {
  runs = refl;
  backend = refl;
  max_attempts = refl;
  retry_delay = refl;
  shutdown = refl;
}

-- A call, a deferred write or a deferred effect.
pub note-Frame :
    (q : Queue) (ws : List Write) (fs : List Effect) (cs : List Call)
    → Frame q (record q { pending_writes = ws; pending_effects = fs; calls = cs })
note-Frame q ws fs cs = record {
  runs = refl;
  backend = refl;
  max_attempts = refl;
  retry_delay = refl;
  shutdown = refl;
}

pub release_task_slot-Frame : (id : String) (q : Queue) → Frame q (release_task_slot id q)
unfolding release_task_slot call
release_task_slot-Frame id q = ground arith

with_deadline-Frame :
    (now : ℕ) (run_id : String) (e : TaskEntry) (q : Queue)
    → Frame q (with_deadline now run_id e q).1
unfolding with_deadline schedule_timeout
with_deadline-Frame now run_id e q = elim (Bool-cases (ltb 0 e.step.timeout)) [
  | inl t ↦ rw t (Frame-trans (stop_entry_timer-Frame _ q) (arm_timer-Frame _ _ _ _ _))
  | inr f ↦ rw f (Frame-refl q)
]

start_task-Frame :
    (now : ℕ) (run_id : String) (e : TaskEntry) (q : Queue) → Frame q (start_task now run_id e q).1
unfolding start_task emit call append_write
start_task-Frame now run_id e q =
    Frame-trans (with_deadline-Frame now run_id (begin_attempt now e) q) (note-Frame _ _ _ _)

pub dispatch_if_needed-Frame :
    (now : ℕ) (e : TaskEntry) (q : Queue) → Frame q (dispatch_if_needed now e q).1
unfolding dispatch_if_needed
dispatch_if_needed-Frame now e q = ground (arith, start_task-Frame now e.task.run_id e q)

pub promote_task-Frame :
    (now : ℕ) (project_id run_id : String) (done : List String) (e : TaskEntry) (q : Queue)
    → Frame q (promote_task now project_id run_id done e q).1
unfolding promote_task emit call
promote_task-Frame now project_id run_id done e q =
    elim (Bool-cases (is_pending e.status && deps_all_done e.step.depends_on done)) [
      | inl t ↦ rw t (Frame-trans (note-Frame q _ _ _) (dispatch_if_needed-Frame now _ _))
      | inr f ↦ rw f (Frame-refl q)
    ]

promote_tasks-Frame :
    (now : ℕ) (project_id run_id : String) (done : List String) (tasks : List TaskEntry) (q : Queue)
    → Frame q (promote_tasks now project_id run_id done tasks q).1
unfolding promote_tasks
promote_tasks-Frame now project_id run_id done [] q = Frame-refl q
promote_tasks-Frame now project_id run_id done (e ∷ tasks) q =
    Frame-trans (promote_task-Frame now project_id run_id done e q)
      (promote_tasks-Frame now project_id run_id done tasks _)

pub promote_ready-Frame : (now : ℕ) (r : RunEntry) (q : Queue) → Frame q (promote_ready now r q).1
unfolding promote_ready
promote_ready-Frame now r q = promote_tasks-Frame now _ _ _ r.tasks q

pub schedule_retry-Frame :
    (now : ℕ) (e : TaskEntry) (q : Queue) → Frame q (schedule_retry now e q).1
unfolding schedule_retry
schedule_retry-Frame now e q = elim (Bool-cases (q.retry_delay == 0)) [
  | inl t ↦ rw t (dispatch_if_needed-Frame now _ q)
  | inr f ↦ rw f (Frame-trans (stop_entry_timer-Frame e q) (arm_timer-Frame _ _ _ _ _))
]

module _ (recur : String → List TaskEntry × Queue → List TaskEntry × Queue)
    (keeps : (name : String) (s : List TaskEntry × Queue) → Frame s.1 (recur name s).1)
    (r : RunEntry) (failed : String) where
  skip_visit-Frame :
      (name : String) (s : List TaskEntry × Queue) → Frame s.1 (skip_visit recur r failed name s).1
  unfolding skip_visit skip_task append_effect append_write
  skip_visit-Frame name s = elim (Option-cases (find_task name s.0)) [
    | inl p ↦ rw (p, skip_visit) (Frame-refl s.1)
    | inr (e, p) ↦ elim (Bool-cases (is_open e.status && has failed e.step.depends_on)) [
      | inl t ↦ rw (p, t, skip_visit) (Frame-trans (note-Frame s.1 _ _ _) (keeps _ _))
      | inr f ↦ rw (p, f, skip_visit) (Frame-refl s.1)
    ]
  ]

  skip_each-Frame :
      (ns : List String) (s : List TaskEntry × Queue) → Frame s.1 (skip_each recur r failed ns s).1
  unfolding skip_each
  skip_each-Frame [] s = Frame-refl s.1
  skip_each-Frame (n ∷ ns) s = Frame-trans (skip_visit-Frame n s) (skip_each-Frame ns _)

pub skip_downstream-Frame :
    (fuel : ℕ) (r : RunEntry) (failed : String) (s : List TaskEntry × Queue)
    → Frame s.1 (skip_downstream fuel r failed s).1
unfolding skip_downstream
skip_downstream-Frame zero r failed s = Frame-refl s.1
skip_downstream-Frame (suc fuel) r failed s =
    skip_each-Frame (skip_downstream fuel r) (skip_downstream-Frame fuel r) r failed _ s

release_run_slot-Frame : (run_id : String) (q : Queue) → Frame q (release_run_slot run_id q)
unfolding release_run_slot call
release_run_slot-Frame run_id q = ground arith

append_success-Frame :
    (cell : ℕ) (r : RunEntry) (status : RunStatus) (q : Queue)
    → Frame q (append_success cell r status q)
unfolding append_success append_effect
append_success-Frame cell r RunStatus.success q =
    if-Frame q.has_on_run_success _ _ (note-Frame q _ _ _) (Frame-refl q)
append_success-Frame cell r RunStatus.failed q = Frame-refl q
append_success-Frame cell r RunStatus.canceled q = Frame-refl q

-- Finalizing a run takes it out of the map, and does nothing else to the map or the configuration.
pub finalize_run-Frame :
    (now : ℕ) (r : RunEntry) (status : RunStatus) (event : Event) (q : Queue)
    → Frame (record q { runs = delete_run r.run_id q.runs }) (finalize_run now r status event q)
unfolding finalize_run append_effect append_write
finalize_run-Frame now r status event q =
    Frame-trans (Frame-trans bare (release_run_slot-Frame r.run_id _)) (
      Frame-trans
        (Frame-trans (note-Frame _ _ _ _) (if-Frame _ _ _ (note-Frame _ _ _ _) (Frame-refl _)))
        (append_success-Frame _ r status _))
  where
    bare :
        Frame
          (record q { runs = delete_run r.run_id q.runs })
          (record q {
            next_id = suc q.next_id;
            pending_writes =
                q.pending_writes ++ finalize q.next_id r.project_id r.run_id status now ∷ [];
            runs = delete_run r.run_id q.runs;
          })
    bare = record {
      runs = refl;
      backend = refl;
      max_attempts = refl;
      retry_delay = refl;
      shutdown = refl;
    }
