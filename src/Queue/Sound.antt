-- ===== src/Queue/Sound.antt =====
-- internal/queue/queue.go: soundness of an entry, under the functions on one entry and the sweeps
-- over the entries of one run.
pub mod Runs
pub mod Reports
pub mod Submissions
pub mod Reachable
use piper.Queue.Tasks.{key, deps_all_done, put_task, find_task, set_task}
use piper.Queue.Finish.{schedule_retry, end_entry, retry_entry}
use piper.Queue.Sweep.{is_live}
use piper.Queue.Types.{RunEntry, is_terminal, Queue, TaskStatus, TaskEntry}
use piper.Queue.Dispatch.{
  is_pending, start_task, promote_ready, dispatch_if_needed, promote_tasks, promote_task,
  schedule_timeout, with_deadline, begin_attempt,
}
use piper.Queue.Timers.{arm_timer, transition_task, stop_entry_timer}
use piper.Prelude.{
  none, [], subst, inr, str_eq, ◌&&◌, inl, ◌∷◌, ◌==◌, All, Option-cases, List, Bool-cases, some,
  is_some, ◌<◌, ◌≤◌, false, true, ℕ, String, ◌≡◌, Bool, arith,
}

-- The statuses from which an entry may still be started.
abbrev pub is_waiting : TaskStatus → Bool
is_waiting TaskStatus.pending = true
is_waiting TaskStatus.ready = true
is_waiting TaskStatus.retrying = true
is_waiting _ = false

-- Every entry may make an attempt, none has made more attempts than it may, one that waits has an attempt left, and one that
-- runs or recovers has a lease, without which Cleanup would never see it.
pub record IsSound (e : TaskEntry) : Type 0 where
  pub allowed : 1 ≤ e.max_attempts
  pub capped : e.attempts ≤ e.max_attempts
  pub room : is_waiting e.status ≡ true → e.attempts < e.max_attempts
  pub leased : is_live e.status ≡ true → is_some e.lease_at ≡ true

pub stop_entry_timer-IsSound :
    (e : TaskEntry) (q : Queue) → IsSound e → IsSound (stop_entry_timer e q).0
unfolding stop_entry_timer
stop_entry_timer-IsSound e q h = ground arith

-- The timer slot is the only field of the entry that stopping or arming changes.
pub status-stop_entry_timer :
    (e : TaskEntry) (q : Queue) → (stop_entry_timer e q).0.status ≡ e.status
unfolding stop_entry_timer
status-stop_entry_timer e q = ground arith

-- An entry that is not terminal and has an attempt left is started soundly.
begin_attempt-IsSound :
    (now : ℕ) (e : TaskEntry)
    → is_terminal e.status ≡ false
    → e.attempts < e.max_attempts
    → IsSound (begin_attempt now e)
unfolding begin_attempt transition_task
begin_attempt-IsSound now e t h = ground arith

with_deadline-IsSound :
    (now : ℕ) (run_id : String) (e : TaskEntry) (q : Queue)
    → IsSound e
    → IsSound (with_deadline now run_id e q).0
unfolding with_deadline schedule_timeout stop_entry_timer arm_timer
with_deadline-IsSound now run_id e q h = ground arith

-- A ready or retrying entry with an attempt left stays sound, dispatched or not.
pub dispatch_if_needed-IsSound :
    (now : ℕ) (e : TaskEntry) (q : Queue)
    → is_terminal e.status ≡ false
    → e.attempts < e.max_attempts
    → IsSound e
    → IsSound (dispatch_if_needed now e q).0
unfolding dispatch_if_needed start_task
dispatch_if_needed-IsSound now e q t h s = elim (Option-cases q.backend) [
  | inl p ↦ rw (p, dispatch_if_needed) s
  | inr (b, p) ↦
      rw (p, dispatch_if_needed)
        (with_deadline-IsSound now e.task.run_id (begin_attempt now e) q
          (begin_attempt-IsSound now e t h))
]

promote_task-IsSound :
    (now : ℕ) (project_id run_id : String) (done : List String) (e : TaskEntry) (q : Queue)
    → IsSound e
    → IsSound (promote_task now project_id run_id done e q).0
unfolding promote_task
promote_task-IsSound now project_id run_id done e q h =
    elim (Bool-cases (is_pending e.status && deps_all_done e.step.depends_on done)) [
      | inl t ↦ rw t (
          dispatch_if_needed-IsSound now (transition_task TaskStatus.ready e) _
            (unfold transition_task in ground arith) (unfold transition_task in ground arith)
            (unfold transition_task in ground arith))
      | inr f ↦ rw f h
    ]

promote_tasks-IsSound :
    (now : ℕ) (project_id run_id : String) (done : List String) (tasks : List TaskEntry) (q : Queue)
    → All IsSound tasks
    → All IsSound (promote_tasks now project_id run_id done tasks q).0
unfolding promote_tasks
promote_tasks-IsSound now project_id run_id done [] q h = tt
promote_tasks-IsSound now project_id run_id done (e ∷ tasks) q h = (
  promote_task-IsSound now project_id run_id done e q h.0,
  promote_tasks-IsSound now project_id run_id done tasks _ h.1,
)

pub promote_ready-IsSound :
    (now : ℕ) (r : RunEntry) (q : Queue)
    → All IsSound r.tasks
    → All IsSound (promote_ready now r q).0.tasks
unfolding promote_ready
promote_ready-IsSound now r q h = promote_tasks-IsSound now _ _ _ r.tasks q h

pub schedule_retry-IsSound :
    (now : ℕ) (e : TaskEntry) (q : Queue)
    → is_terminal e.status ≡ false
    → e.attempts < e.max_attempts
    → IsSound e
    → IsSound (schedule_retry now e q).0
unfolding schedule_retry transition_task arm_timer
schedule_retry-IsSound now e q t h s = elim (Bool-cases (q.retry_delay == 0)) [
  | inl z ↦ rw z (dispatch_if_needed-IsSound now _ q (ground arith) (ground arith) (ground arith))
  | inr z ↦ rw z (unfold stop_entry_timer in ground arith)
]

-- An entry that leaves the live statuses for good.
pub end_entry-IsSound :
    (status : TaskStatus) (e : TaskEntry)
    → is_terminal status ≡ true
    → IsSound e
    → IsSound (end_entry status e)
unfolding end_entry transition_task
end_entry-IsSound status e t h = ground arith

pub retry_entry-IsSound :
    (e : TaskEntry) → e.attempts < e.max_attempts → IsSound e → IsSound (retry_entry e)
unfolding retry_entry transition_task
retry_entry-IsSound e lt h = ground arith

-- Access to the map of tasks.
pub find_task-All {ℓ} :
    (P : TaskEntry → Type ℓ) (name : String) (tasks : List TaskEntry) {e : TaskEntry}
    → All P tasks
    → find_task name tasks ≡ some e
    → P e
unfolding find_task
find_task-All P name [] h p = cc
find_task-All P name (x ∷ tasks) h p = elim (Bool-cases (str_eq (key x) name)) [
  | inl t ↦ subst P (ground arith) h.0
  | inr f ↦ find_task-All P name tasks h.1 (ground arith)
]

pub put_task-All {ℓ} :
    (P : TaskEntry → Type ℓ) (e : TaskEntry) (tasks : List TaskEntry)
    → P e
    → All P tasks
    → All P (put_task e tasks)
unfolding put_task
put_task-All P e [] pe h = tt
put_task-All P e (x ∷ tasks) pe h = elim (Bool-cases (str_eq (key x) (key e))) [
  | inl t ↦ rw t (pe, h.1)
  | inr f ↦ rw f (h.0, put_task-All P e tasks pe h.1)
]

pub set_task-All {ℓ} :
    (P : TaskEntry → Type ℓ) (e : TaskEntry) (tasks : List TaskEntry)
    → P e
    → All P tasks
    → All P (set_task e tasks)
unfolding set_task
set_task-All P e [] pe h = (pe, tt)
set_task-All P e (x ∷ tasks) pe h = elim (Bool-cases (str_eq (key x) (key e))) [
  | inl t ↦ rw t (pe, h.1)
  | inr f ↦ rw f (h.0, set_task-All P e tasks pe h.1)
]
