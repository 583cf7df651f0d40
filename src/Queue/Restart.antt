-- ===== src/Queue/Restart.antt =====
-- internal/runlifecycle/recovery.go: which rows of the table of steps RecoverInterruptedRuns hands to
-- the queue.
use piper.Queue.Timers.{append_write, call, emit, arm_timer, stop_entry_timer, transition_task}
use piper.Queue.Tasks.{deps_all_done}
use piper.Queue.Dispatch.{
  begin_attempt, schedule_timeout, with_deadline, start_task, dispatch_if_needed, promote_task,
}
use piper.Pipeline.{Step}
use piper.Queue.Types.{TaskEntry, Backend, StepRow, TaskStatus, Queue}
use piper.Queue.Submit.{new_entry, find_recovered, recover_entry, RecoveredStep, Submission}
use piper.Prelude.{
  length, suc, Option-cases, inr, inl, Bool-cases, str_eq, All, ◌∷◌, [], arith, ℕ, String, Option,
  List, ◌≡◌, refl, some, none, true, false,
}

-- The started time of a row, or the time of the recovery where it has none.
unfoldable pub start_of : ℕ → Option ℕ → ℕ
start_of now none = now
start_of now (some at) = at

-- The loop body: `none` for a row that is passed over.
unfoldable pub recover_row : ℕ → StepRow → TaskStatus → Option RecoveredStep
recover_row now row TaskStatus.done =
    some (record { name = row.step_name; done = true; started_at = none; attempts = 0 })
recover_row now row TaskStatus.skipped =
    some (record { name = row.step_name; done = true; started_at = none; attempts = 0 })
recover_row now row TaskStatus.running = some (record {
  name = row.step_name;
  done = false;
  started_at = some (start_of now row.started_at);
  attempts = row.attempts;
})
recover_row now row _ = none

unfoldable pub recover_rows : ℕ → List StepRow → List RecoveredStep
recover_rows now [] = []
recover_rows now (row ∷ rows) =
    let rest = recover_rows now rows in
    elim (recover_row now row row.status) [ none ↦ rest | some rs ↦ rs ∷ rest ]

-- Every row of the step says that it failed.
abbrev pub AllFailed : String → List StepRow → Type 0
AllFailed n rows = All (λ row. str_eq row.step_name n ≡ true → row.status ≡ TaskStatus.failed) rows

other_row :
    (now : ℕ) (n : String) (row : StepRow) (s : TaskStatus) (rs : RecoveredStep)
    → recover_row now row s ≡ some rs
    → rs.name ≡ row.step_name
unfolding recover_row
other_row now n row s rs h = ground arith

failed-not_recovered :
    (now : ℕ) (n : String) (rows : List StepRow)
    → AllFailed n rows
    → find_recovered n (recover_rows now rows) ≡ none
unfolding recover_rows find_recovered recover_row
failed-not_recovered now n [] h = refl
failed-not_recovered now n (row ∷ rows) h = elim (Bool-cases (str_eq row.step_name n)) [
  | inl t ↦ rw (h.0 t, recover_row) (failed-not_recovered now n rows h.1)
  | inr f ↦ elim (Option-cases (recover_row now row row.status)) [
    | inl p ↦ rw (p, find_recovered) (failed-not_recovered now n rows h.1)
    | inr (rs, p) ↦
        let named = other_row now n row row.status rs p in
        rw (p, find_recovered) (rw (failed-not_recovered now n rows h.1, named, f) refl)
  ]
]

-- The promotion of a new entry.
started_new :
    (now : ℕ) (sub : Submission) (s : Step) (done : List String) (q : Queue) (b : Backend)
    → q.backend ≡ some b
    → deps_all_done s.depends_on done ≡ true
    → ((promote_task now sub.project_id sub.run_id done (new_entry now sub s q) q).0.status
        ≡ TaskStatus.running)
      × ((promote_task now sub.project_id sub.run_id done (new_entry now sub s q) q).0.attempts ≡ 1)
      × (length
            (promote_task now sub.project_id sub.run_id done
              (new_entry now sub s q)
              q).1.dispatching
          ≡ suc (length q.dispatching))
unfolding promote_task new_entry transition_task dispatch_if_needed start_task with_deadline
    schedule_timeout stop_entry_timer arm_timer begin_attempt emit call append_write
started_new now sub s done q b back ready = rw ready (ground arith, ground arith, ground arith)

-- What recovery makes of the entry, and then promoteReady, with these names done.
abbrev pub restarted :
    (now at : ℕ) → Submission → Step → List StepRow → List String → Queue → TaskEntry × Queue
restarted now at sub s rows done q =
    let (e, q') =
      recover_entry now sub (find_recovered s.name (recover_rows at rows)) (new_entry now sub s q)
        q in
    promote_task now sub.project_id sub.run_id done e q'

-- A step of which every persisted row says that it failed, and whose dependencies are all done or
-- skipped after the recovery: where there is a backend, the promotion that ends the recovery starts it
-- again, with one more dispatch goroutine, and it is running in attempt 1.
pub failed_step_restarts :
    (now at : ℕ) (sub : Submission) (s : Step) (rows : List StepRow) (done : List String)
    (q : Queue) (b : Backend)
    → AllFailed s.name rows
    → q.backend ≡ some b
    → deps_all_done s.depends_on done ≡ true
    → ((restarted now at sub s rows done q).0.status ≡ TaskStatus.running)
      × ((restarted now at sub s rows done q).0.attempts ≡ 1)
      × (length (restarted now at sub s rows done q).1.dispatching ≡ suc (length q.dispatching))
failed_step_restarts now at sub s rows done q b h back ready =
    rw (failed-not_recovered at s.name rows h)
      (unfold recover_entry in started_new now sub s done q b back ready)
