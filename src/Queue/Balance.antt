-- ===== src/Queue/Balance.antt =====
-- internal/queue/queue.go: the wait group, the timers and the goroutines.
pub mod Operations
pub mod Goroutines
pub mod Inputs
use piper.Prelude.{
  ℕ, ◌+◌, String, ◌≡◌, Bool, true, false, Option, none, some, List, [], ◌∷◌, arith, length, any,
  ◌==◌, if◌then◌else◌, Bool-cases, inl, inr, ltb, ◌&&◌, Option-cases,
}
use piper.Queue.Types.{
  Queue, TaskEntry, Timer, TimerKind, RunEntry, RunStatus, Event, Task, TaskStatus, is_terminal,
}
use piper.Queue.Timers.{
  append_write, append_effect, call, emit, release_task_slot, release_run_slot, is_armed,
  remove_timer, stop_timer, stop_entry_timer, arm_timer,
}
use piper.Queue.Dispatch.{
  schedule_timeout, with_deadline, begin_attempt, start_task, dispatch_if_needed, is_pending,
  promote_task, promote_tasks, promote_ready,
}
use piper.Queue.Tasks.{deps_all_done}
use piper.Queue.Finish.{schedule_retry, append_success, finalize_run}

abbrev pub IsBalanced : Queue → Type 0
IsBalanced q = q.wg ≡ length q.armed + length q.firing + length q.dispatching + q.finishing

pub length-remove_timer :
    (id : ℕ) (ts : List Timer) → is_armed id ts ≡ true → length (remove_timer id ts) + 1 ≡ length ts
unfolding remove_timer
length-remove_timer id [] h = cc
length-remove_timer id (t ∷ ts) h = ground (arith, length-remove_timer id ts)

pub if-IsBalanced :
    (b : Bool) (p q : Queue) → IsBalanced p → IsBalanced q → IsBalanced (if b then p else q)
if-IsBalanced true p q hp hq = hp
if-IsBalanced false p q hp hq = hq

stop_timer-IsBalanced : (id : ℕ) (q : Queue) → IsBalanced q → IsBalanced (stop_timer id q)
unfolding stop_timer
stop_timer-IsBalanced id q h = ground (arith, length-remove_timer id q.armed)

pub stop_entry_timer-IsBalanced :
    (e : TaskEntry) (q : Queue) → IsBalanced q → IsBalanced (stop_entry_timer e q).1
unfolding stop_entry_timer
stop_entry_timer-IsBalanced e q h = elim (Option-cases e.timer) [
  | inl p ↦ rw (p, stop_entry_timer) h
  | inr (id, p) ↦ rw (p, stop_entry_timer) (stop_timer-IsBalanced id q h)
]

pub arm_timer-IsBalanced :
    (k : TimerKind) (run_id : String) (at : ℕ) (e : TaskEntry) (q : Queue)
    → IsBalanced q
    → IsBalanced (arm_timer k run_id at e q).1
unfolding arm_timer
arm_timer-IsBalanced k run_id at e q h = omega arith

with_deadline-IsBalanced :
    (now : ℕ) (run_id : String) (e : TaskEntry) (q : Queue)
    → IsBalanced q
    → IsBalanced (with_deadline now run_id e q).1
unfolding with_deadline schedule_timeout arm_timer
with_deadline-IsBalanced now run_id e q h = elim (Bool-cases (ltb 0 e.step.timeout)) [
  | inl t ↦ rw t (
      let k =
        stop_entry_timer-IsBalanced
          (record e {
            deadline = some (now + e.step.timeout);
            task = record (e.task) { deadline = some (now + e.step.timeout) };
          })
          q h in
      omega arith)
  | inr f ↦ rw f h
]

start_task-IsBalanced :
    (now : ℕ) (run_id : String) (e : TaskEntry) (q : Queue)
    → IsBalanced q
    → IsBalanced (start_task now run_id e q).1
unfolding start_task emit call append_write
start_task-IsBalanced now run_id e q h =
    with_deadline-IsBalanced now run_id (begin_attempt now e) q h

pub dispatch_if_needed-IsBalanced :
    (now : ℕ) (e : TaskEntry) (q : Queue) → IsBalanced q → IsBalanced (dispatch_if_needed now e q).1
unfolding dispatch_if_needed
dispatch_if_needed-IsBalanced now e q h =
    ground (arith, start_task-IsBalanced now e.task.run_id e q h)

promote_task-IsBalanced :
    (now : ℕ) (project_id run_id : String) (done : List String) (e : TaskEntry) (q : Queue)
    → IsBalanced q
    → IsBalanced (promote_task now project_id run_id done e q).1
unfolding promote_task emit call
promote_task-IsBalanced now project_id run_id done e q h =
    elim (Bool-cases (is_pending e.status && deps_all_done e.step.depends_on done)) [
      | inl t ↦ rw t (dispatch_if_needed-IsBalanced now _ _ h)
      | inr f ↦ rw f h
    ]

promote_tasks-IsBalanced :
    (now : ℕ) (project_id run_id : String) (done : List String) (tasks : List TaskEntry) (q : Queue)
    → IsBalanced q
    → IsBalanced (promote_tasks now project_id run_id done tasks q).1
unfolding promote_tasks
promote_tasks-IsBalanced now project_id run_id done [] q h = h
promote_tasks-IsBalanced now project_id run_id done (e ∷ tasks) q h =
    promote_tasks-IsBalanced now project_id run_id done tasks _
      (promote_task-IsBalanced now project_id run_id done e q h)

pub promote_ready-IsBalanced :
    (now : ℕ) (r : RunEntry) (q : Queue) → IsBalanced q → IsBalanced (promote_ready now r q).1
unfolding promote_ready
promote_ready-IsBalanced now r q h = promote_tasks-IsBalanced now _ _ _ r.tasks q h

schedule_retry-IsBalanced :
    (now : ℕ) (e : TaskEntry) (q : Queue) → IsBalanced q → IsBalanced (schedule_retry now e q).1
unfolding schedule_retry
schedule_retry-IsBalanced now e q h = elim (Bool-cases (q.retry_delay == 0)) [
  | inl t ↦ rw t (dispatch_if_needed-IsBalanced now _ q h)
  | inr f ↦ rw f (arm_timer-IsBalanced _ _ _ _ _ (stop_entry_timer-IsBalanced e q h))
]

release_run_slot-IsBalanced :
    (run_id : String) (q : Queue) → IsBalanced q → IsBalanced (release_run_slot run_id q)
unfolding release_run_slot call
release_run_slot-IsBalanced run_id q h = ground arith

pub release_task_slot-IsBalanced :
    (id : String) (q : Queue) → IsBalanced q → IsBalanced (release_task_slot id q)
unfolding release_task_slot call
release_task_slot-IsBalanced id q h = ground arith

append_success-IsBalanced :
    (cell : ℕ) (r : RunEntry) (status : RunStatus) (q : Queue)
    → IsBalanced q
    → IsBalanced (append_success cell r status q)
unfolding append_success append_effect
append_success-IsBalanced cell r RunStatus.success q h = ground arith
append_success-IsBalanced cell r RunStatus.failed q h = h
append_success-IsBalanced cell r RunStatus.canceled q h = h

pub finalize_run-IsBalanced :
    (now : ℕ) (r : RunEntry) (status : RunStatus) (event : Event) (q : Queue)
    → IsBalanced q
    → IsBalanced (finalize_run now r status event q)
unfolding finalize_run append_effect append_write
finalize_run-IsBalanced now r status event q h =
    append_success-IsBalanced _ r status _
      (let k = release_run_slot-IsBalanced r.run_id _ h in if-IsBalanced _ _ _ k k)
