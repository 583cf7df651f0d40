-- ===== src/Queue/Sound/Runs.antt =====
-- internal/queue/queue.go: soundness of the whole queue under the ends of attempts and of runs.
use piper.Queue.Timers.{transition_task, stop_entry_timer, append_effect, append_write}
use piper.Queue.Frame.{
  stop_entry_timer-Frame, skip_downstream-Frame, note-Frame, schedule_retry-Frame,
  finalize_run-Frame, Frame,
}
use piper.Queue.Sound.{
  stop_entry_timer-IsSound, schedule_retry-IsSound, end_entry-IsSound, find_task-All, put_task-All,
  IsSound,
}
use piper.Queue.Types.{TaskStatus, is_terminal, Event, RunStatus, Queue, TaskEntry, RunEntry}
use piper.Queue.Finish.{
  retry_entry, is_open, finalize_run, skip_task, skip_visit, skip_each, fail_task, retry_task,
  fail_or_retry, settle_run, skip_downstream,
}
use piper.Queue.Tasks.{find_task, all_terminal, store_run, set_run, delete_run, find_run}
use piper.Prelude.{
  has, refl, ◌&&◌, ltb→lt, ltb, ◌<◌, Option-cases, subst, str_eq, Option, Bool-cases, ◌≤◌, suc,
  zero, some, false, ℕ, String, ◌≡◌, List, [], ◌∷◌, arith, inl, inr, All,
}

abbrev pub AllSound : RunEntry → Type 0
AllSound r = All IsSound r.tasks

-- Every entry of every run is sound, and a new entry is given at least one attempt.
pub record SoundQueue (q : Queue) : Type 0 where
  pub entries : All AllSound q.runs
  pub attempts : 1 ≤ q.max_attempts

pub find_run-All {ℓ} :
    (P : RunEntry → Type ℓ) (run_id : String) (runs : List RunEntry) {r : RunEntry}
    → All P runs
    → find_run run_id runs ≡ some r
    → P r
unfolding find_run
find_run-All P run_id [] h p = cc
find_run-All P run_id (x ∷ runs) h p = elim (Bool-cases (str_eq x.run_id run_id)) [
  | inl t ↦ subst P (ground arith) h.0
  | inr f ↦ find_run-All P run_id runs h.1 (ground arith)
]

pub set_run-All {ℓ} :
    (P : RunEntry → Type ℓ) (r : RunEntry) (runs : List RunEntry)
    → P r
    → All P runs
    → All P (set_run r runs)
unfolding set_run
set_run-All P r [] pr h = (pr, tt)
set_run-All P r (x ∷ runs) pr h = elim (Bool-cases (str_eq x.run_id r.run_id)) [
  | inl t ↦ rw t (pr, h.1)
  | inr f ↦ rw f (h.0, set_run-All P r runs pr h.1)
]

pub delete_run-All {ℓ} :
    (P : RunEntry → Type ℓ) (run_id : String) (runs : List RunEntry)
    → All P runs
    → All P (delete_run run_id runs)
unfolding delete_run
delete_run-All P run_id [] h = tt
delete_run-All P run_id (x ∷ runs) h = elim (Bool-cases (str_eq x.run_id run_id)) [
  | inl t ↦ rw t (delete_run-All P run_id runs h.1)
  | inr f ↦ rw f (h.0, delete_run-All P run_id runs h.1)
]

-- What keeps the map and the configuration keeps the queue sound.
pub Frame-SoundQueue : {q p : Queue} → Frame q p → SoundQueue q → SoundQueue p
Frame-SoundQueue f h = record {
  entries = rw f.runs h.entries;
  attempts = rw f.max_attempts h.attempts;
}

pub store_run-SoundQueue :
    (r : RunEntry) (q : Queue) → AllSound r → SoundQueue q → SoundQueue (store_run r q)
store_run-SoundQueue r q s h = record {
  entries = set_run-All AllSound r q.runs s h.entries;
  attempts = h.attempts;
}

pub finalize_run-SoundQueue :
    (now : ℕ) (r : RunEntry) (status : RunStatus) (event : Event) (q : Queue)
    → SoundQueue q
    → SoundQueue (finalize_run now r status event q)
finalize_run-SoundQueue now r status event q h =
    Frame-SoundQueue (finalize_run-Frame now r status event q) (record {
      entries = delete_run-All AllSound r.run_id q.runs h.entries;
      attempts = h.attempts;
    })

pub settle_run-SoundQueue :
    (now : ℕ) (r : RunEntry) (q : Queue)
    → AllSound r
    → SoundQueue q
    → SoundQueue (settle_run now r q)
unfolding settle_run
settle_run-SoundQueue now r q s h = elim (Bool-cases (all_terminal r.tasks)) [
  | inl t ↦ rw t (finalize_run-SoundQueue now r _ _ _ (store_run-SoundQueue r q s h))
  | inr f ↦ rw f (store_run-SoundQueue r q s h)
]

module _ (recur : String → List TaskEntry × Queue → List TaskEntry × Queue)
    (keeps : (name : String) (s : List TaskEntry × Queue)
      → All IsSound s.0
      → All IsSound (recur name s).0)
    (r : RunEntry) (failed : String) where
  skip_visit-IsSound :
      (name : String) (s : List TaskEntry × Queue)
      → All IsSound s.0
      → All IsSound (skip_visit recur r failed name s).0
  unfolding skip_visit skip_task
  skip_visit-IsSound name s h = elim (Option-cases (find_task name s.0)) [
    | inl p ↦ rw (p, skip_visit) h
    | inr (e, p) ↦ elim (Bool-cases (is_open e.status && has failed e.step.depends_on)) [
      | inl t ↦
          let sound = find_task-All IsSound name s.0 h p in
          rw (p, t, skip_visit)
            (keeps _ _ (
              put_task-All IsSound (transition_task TaskStatus.skipped e) s.0
                (unfold transition_task in ground arith) h))
      | inr f ↦ rw (p, f, skip_visit) h
    ]
  ]

  skip_each-IsSound :
      (ns : List String) (s : List TaskEntry × Queue)
      → All IsSound s.0
      → All IsSound (skip_each recur r failed ns s).0
  unfolding skip_each
  skip_each-IsSound [] s h = h
  skip_each-IsSound (n ∷ ns) s h = skip_each-IsSound ns _ (skip_visit-IsSound n s h)

pub skip_downstream-IsSound :
    (fuel : ℕ) (r : RunEntry) (failed : String) (s : List TaskEntry × Queue)
    → All IsSound s.0
    → All IsSound (skip_downstream fuel r failed s).0
unfolding skip_downstream
skip_downstream-IsSound zero r failed s h = h
skip_downstream-IsSound (suc fuel) r failed s h =
    skip_each-IsSound (skip_downstream fuel r) (skip_downstream-IsSound fuel r) r failed _ s h

-- The entry that goes back to wait for its next attempt.
retried :
    (e : TaskEntry) (q : Queue)
    → is_terminal e.status ≡ false
    → e.attempts < e.max_attempts
    → IsSound e
    → (is_terminal (retry_entry (stop_entry_timer e q).0).status ≡ false)
      × ((retry_entry (stop_entry_timer e q).0).attempts
          < (retry_entry (stop_entry_timer e q).0).max_attempts)
      × IsSound (retry_entry (stop_entry_timer e q).0)
unfolding retry_entry stop_entry_timer transition_task
retried e q t lt s = (ground arith, ground arith, ground arith)

retry_task-SoundQueue :
    (now : ℕ) (error : String) (started_at : Option ℕ) (ended_at : ℕ) (r : RunEntry) (e : TaskEntry)
    (q : Queue)
    → is_terminal e.status ≡ false
    → e.attempts < e.max_attempts
    → IsSound e
    → AllSound r
    → SoundQueue q
    → SoundQueue (retry_task now error started_at ended_at r e q)
unfolding retry_task append_write
retry_task-SoundQueue now error started_at ended_at r e q t lt s a h =
    let (t', lt', s') = retried e q t lt s in
    store_run-SoundQueue _ _
      (put_task-All IsSound _ r.tasks (schedule_retry-IsSound now _ _ t' lt' s') a)
      (Frame-SoundQueue (schedule_retry-Frame now _ _)
        (Frame-SoundQueue (note-Frame _ _ _ _) (Frame-SoundQueue (stop_entry_timer-Frame e q) h)))

pub fail_or_retry-SoundQueue :
    (now : ℕ) (error : String) (started_at : Option ℕ) (ended_at : ℕ) (r : RunEntry) (e : TaskEntry)
    (q : Queue)
    → is_terminal e.status ≡ false
    → IsSound e
    → AllSound r
    → SoundQueue q
    → SoundQueue (fail_or_retry now error started_at ended_at r e q)
unfolding fail_or_retry fail_task append_effect append_write
fail_or_retry-SoundQueue now error started_at ended_at r e q t s a h =
    elim (Bool-cases (ltb e.attempts e.max_attempts)) [
      | inl more ↦
          rw more
            (retry_task-SoundQueue now error started_at ended_at r e q t (ltb→lt _ _ more) s a h)
      | inr last ↦ rw last (
          settle_run-SoundQueue now _ _
            (skip_downstream-IsSound _ r _ _ (
              put_task-All IsSound _ r.tasks
                (end_entry-IsSound TaskStatus.failed _ refl (stop_entry_timer-IsSound e q s)) a))
            (Frame-SoundQueue (skip_downstream-Frame _ r _ _) (
              Frame-SoundQueue (note-Frame _ _ _ _)
                (Frame-SoundQueue (stop_entry_timer-Frame e q) h))))
    ]
