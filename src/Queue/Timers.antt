-- ===== src/Queue/Timers.antt =====
-- internal/queue/queue.go: what every locked function is built from, namely the deferred writes and
-- effects, events, the timer slot of an entry, and the status transition. time.AfterFunc and
-- Timer.Stop are modelled by the list of armed timers: Stop is true exactly for an armed timer.
use piper.Prelude.{
  ℕ, suc, ◌+◌, ◌-◌, String, Bool, none, some, List, [], ◌∷◌, ◌++◌, ◌==◌, any, if◌then◌else◌,
}
use piper.Queue.Types.{
  Queue, TaskEntry, TaskStatus, is_terminal, Timer, TimerKind, Write, Effect, Call, Event, emitted,
  release_task, release_run,
}

unfoldable pub append_write : Write → Queue → Queue
append_write w q = record q { pending_writes = q.pending_writes ++ w ∷ [] }

unfoldable pub append_effect : Effect → Queue → Queue
append_effect f q = record q { pending_effects = q.pending_effects ++ f ∷ [] }

unfoldable pub call : Call → Queue → Queue
call c q = record q { calls = q.calls ++ c ∷ [] }

-- An event that is published at once.
unfoldable pub emit : String → Event → Queue → Queue
emit project_id e q = call (emitted project_id e) q

-- `if owner, ok := q.backend.(TaskOwner); ok { owner.ReleaseTask(id) }`
unfoldable pub release_task_slot : String → Queue → Queue
release_task_slot id q = elim q.backend [
  | none ↦ q
  | some b ↦ if b.task_owner then call (release_task id) q else q
]

unfoldable pub release_run_slot : String → Queue → Queue
release_run_slot run_id q = elim q.backend [
  | none ↦ q
  | some b ↦ if b.run_owner then call (release_run run_id) q else q
]

abbrev pub is_armed : ℕ → List Timer → Bool
is_armed id ts = any (λ t. t.id == id) ts

unfoldable pub remove_timer : ℕ → List Timer → List Timer
remove_timer id [] = []
remove_timer id (t ∷ ts) = if t.id == id then ts else t ∷ remove_timer id ts

unfoldable pub stop_timer : ℕ → Queue → Queue
stop_timer id q =
    if is_armed id q.armed then record q { armed = remove_timer id q.armed; wg = q.wg - 1 } else q

unfoldable pub stop_entry_timer : TaskEntry → Queue → TaskEntry × Queue
stop_entry_timer e q = elim e.timer [
  | none ↦ (e, q)
  | some id ↦ (record e { timer = none }, stop_timer id q)
]

-- `q.wg.Add(1)` and time.AfterFunc, into the entry's slot.
unfoldable pub arm_timer : TimerKind → String → ℕ → TaskEntry → Queue → TaskEntry × Queue
arm_timer kind run_id at e q = (
  record e { timer = some q.next_id },
  record q {
    wg = q.wg + 1;
    next_id = suc q.next_id;
    armed =
        record { id = q.next_id; kind = kind; run_id = run_id; step_name = e.step.name; at = at }
        ∷ q.armed;
  },
)

-- A terminal entry refuses to move.
unfoldable pub transition_task : TaskStatus → TaskEntry → TaskEntry
transition_task to e = if is_terminal e.status then e else record e { status = to }
