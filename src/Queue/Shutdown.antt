-- ===== src/Queue/Shutdown.antt =====
-- internal/queue/queue.go: the timer callbacks after the shutdown.
use piper.Queue.Timers.{
  append_write, arm_timer, call, stop_timer, emit, stop_entry_timer, transition_task,
}
use piper.Queue.Dispatch.{
  begin_attempt, start_task, schedule_timeout, with_deadline, dispatch_if_needed,
}
use piper.Queue.Callbacks.{
  store_entry, retry_fired, requeued_dispatch_fired, recovery_grace_fired, timeout_fired,
}
use piper.Queue.Types.{TaskStatus, Backend, TaskEntry, Queue, RunEntry}
use piper.Prelude.{none, length, arith, some, true, refl, ℕ, suc, String, ◌≡◌}

dispatching-with_deadline :
    (now : ℕ) (run_id : String) (e : TaskEntry) (q : Queue)
    → (with_deadline now run_id e q).1.dispatching ≡ q.dispatching
unfolding with_deadline schedule_timeout stop_entry_timer stop_timer arm_timer
dispatching-with_deadline now run_id e q = ground arith

length-dispatching :
    (now : ℕ) (e : TaskEntry) (q : Queue) (b : Backend)
    → q.backend ≡ some b
    → length (dispatch_if_needed now e q).1.dispatching ≡ suc (length q.dispatching)
unfolding dispatch_if_needed start_task emit call append_write
length-dispatching now e q b back =
    ground (arith, dispatching-with_deadline now e.task.run_id (begin_attempt now e) q)

-- Once the server context is canceled and there is a backend: for every entry, whatever its status, the
-- timeout and the recovery callback leave the queue as it is, and the requeue callback starts no
-- dispatch goroutine; for an entry that waits for its retry, the retry callback still starts one.
pub callbacks_after_shutdown :
    (now : ℕ) (r : RunEntry) (e waiting : TaskEntry) (q : Queue) (b : Backend)
    → q.shutdown ≡ true
    → q.backend ≡ some b
    → waiting.status ≡ TaskStatus.retrying
    → (timeout_fired now r e q ≡ q)
      × (recovery_grace_fired now r e q ≡ q)
      × ((requeued_dispatch_fired now r e q).dispatching ≡ q.dispatching)
      × (length (retry_fired now r waiting q).dispatching ≡ suc (length q.dispatching))
unfolding timeout_fired recovery_grace_fired requeued_dispatch_fired retry_fired store_entry
callbacks_after_shutdown now r e waiting q b down back h = (
  rw down refl,
  rw down refl,
  rw down refl,
  ground (
    arith,
    length-dispatching now (transition_task TaskStatus.ready (record waiting { timer = none })) q b
        back,
  ),
)
