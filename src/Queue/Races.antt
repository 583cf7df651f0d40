-- ===== src/Queue/Races.antt =====
-- internal/queue/queue.go: dispatch goroutines that outlive their attempt.
use piper.Queue.Downstream.{find_task-put_task, key_of_found}
use piper.Queue.Timers.{arm_timer, stop_entry_timer, transition_task}
use piper.Queue.Tasks.{put_task, key, set_run, find_task, find_run}
use piper.Queue.Types.{TaskStatus, Queue, Task, RunEntry, TaskEntry}
use piper.Queue.Callbacks.{
  busy, find_entry_inv, is_running, store_entry, requeue_busy, dispatch_returned, requeue_entry,
  find_entry,
}
use piper.Prelude.{
  eq_refl, ◌∙◌, ◌<◌, eq_iff, arith, some, true, ℕ, String, ◌+◌, ◌-◌, ◌≡◌, List, [], ◌∷◌,
}

find_task_self :
    (n : String) (tasks : List TaskEntry) (e e' : TaskEntry)
    → find_task n tasks ≡ some e
    → key e' ≡ n
    → find_task n (put_task e' tasks) ≡ some e'
find_task_self n tasks e e' h k = ground (arith, find_task-put_task n n tasks e e' h k, eq_refl n)

pub run_id_of_found :
    (n : String) (runs : List RunEntry) (r : RunEntry) → find_run n runs ≡ some r → r.run_id ≡ n
unfolding find_run
run_id_of_found n [] r h = cc
run_id_of_found n (x ∷ runs) r h = ground (arith, eq_iff x.run_id n, run_id_of_found n runs r)

find_run-set_run :
    (n : String) (runs : List RunEntry) (r : RunEntry)
    → r.run_id ≡ n
    → find_run n (set_run r runs) ≡ some r
unfolding find_run set_run
find_run-set_run n [] r h = ground (arith, eq_iff r.run_id n)
find_run-set_run n (x ∷ runs) r h = ground (
  arith,
  eq_iff r.run_id n,
  eq_iff x.run_id n,
  eq_iff x.run_id r.run_id,
  find_run-set_run n runs r,
)

-- An entry that was stored is found again.
pub find_entry-store_entry :
    (run_id step_name : String) (q p : Queue) (r : RunEntry) (e e' : TaskEntry)
    → find_entry run_id step_name q ≡ some (r, e)
    → key e' ≡ key e
    → find_entry run_id step_name (store_entry r (e', p))
      ≡ some (record r { tasks = put_task e' r.tasks }, e')
unfolding find_entry store_entry
find_entry-store_entry run_id step_name q p r e e' h k =
    let (tracked, entry) = find_entry_inv run_id step_name q h in
    let r' : RunEntry = record r { tasks = put_task e' r.tasks } in
    let a = find_run-set_run run_id p.runs r' (run_id_of_found run_id q.runs r tracked) in
    let b =
      find_task_self step_name r.tasks e e' entry (k ∙ key_of_found step_name r.tasks e entry) in
    ground (arith, a, b)

requeued_fields :
    (now : ℕ) (e : TaskEntry) (q : Queue)
    → is_running e.status ≡ true
    → ((requeue_entry now e q).0.status ≡ TaskStatus.ready)
      × ((requeue_entry now e q).0.attempts ≡ e.attempts - 1)
      × (key (requeue_entry now e q).0 ≡ key e)
unfolding requeue_entry transition_task stop_entry_timer arm_timer
requeued_fields now e q h = (ground arith, ground arith, ground arith)

-- A dispatch goroutine that is told that its worker is busy takes back whatever attempt the entry is
-- in: if the step has gone on to a later attempt that is running, that attempt is put back to ready
-- and its number is given out again.
pub stale_busy_requeues :
    (now : ℕ) (t : Task) (q : Queue) (r : RunEntry) (e : TaskEntry)
    → find_entry t.run_id t.step_name q ≡ some (r, e)
    → is_running e.status ≡ true
    → t.attempt < e.attempts
    → (r' : RunEntry) × (e' : TaskEntry) × (find_entry t.run_id t.step_name
          (dispatch_returned now t busy q)
        ≡ some (r', e'))
      × (e'.status ≡ TaskStatus.ready)
      × (e'.attempts + 1 ≡ e.attempts)
unfolding dispatch_returned requeue_busy
stale_busy_requeues now t q r e h run stale =
    let (s, a, k) = requeued_fields now e q run in
    let e' = (requeue_entry now e q).0 in
    (
      record r { tasks = put_task e' r.tasks },
      e',
      rw (h, requeue_busy)
          (rw run
            (find_entry-store_entry t.run_id t.step_name q (requeue_entry now e q).1 r e e' h k)),
      s,
      omega (arith, a),
    )
