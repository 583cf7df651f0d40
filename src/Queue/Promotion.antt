-- ===== src/Queue/Promotion.antt =====
-- internal/queue/queue.go: promoteReady, entry by entry.
use piper.Pipeline.{Step}
use piper.Queue.Frame.{promote_task-Frame}
use piper.Queue.Tasks.{done_names, key, find_task, deps_all_done}
use piper.Queue.Timers.{call, emit, transition_task, arm_timer, stop_entry_timer}
use piper.Queue.Types.{RunEntry, step_ready, TaskStatus, Queue, TaskEntry}
use piper.Queue.Dispatch.{
  promote_ready, promote_tasks, begin_attempt, schedule_timeout, is_pending, start_task,
  dispatch_if_needed, with_deadline, promote_task,
}
use piper.Prelude.{
  subst, str_eq, ap, some, ◌∙◌, ◌&&◌, Option-cases, is_some, Bool-cases, if◌then◌else◌, false, true,
  refl, ℕ, suc, String, ◌≡◌, Bool, List, [], ◌∷◌, arith, inl, inr, ◌⊎◌,
}

-- The step may start: it is pending, and each of its dependencies is done or skipped.
abbrev pub can_start : List String → TaskEntry → Bool
can_start done e = is_pending e.status && deps_all_done e.step.depends_on done

-- The status in which a step that may start is left, and the attempts that it has made.
abbrev pub started_status : Queue → TaskStatus
started_status q = if is_some q.backend then TaskStatus.running else TaskStatus.ready

abbrev pub started_attempts : Queue → TaskEntry → ℕ
started_attempts q e = if is_some q.backend then suc e.attempts else e.attempts

abbrev pub Promoted : List String → Queue → TaskEntry → TaskEntry → Type 0
Promoted done q e e' =
    ((can_start done e ≡ true)
      × (e'.status ≡ started_status q)
      × (e'.attempts ≡ started_attempts q e)
      × (e'.step ≡ e.step))
    ⊎ ((can_start done e ≡ false) × (e' ≡ e))

with_deadline_keeps :
    (now : ℕ) (run_id : String) (e : TaskEntry) (q : Queue)
    → ((with_deadline now run_id e q).0.status ≡ e.status)
      × ((with_deadline now run_id e q).0.attempts ≡ e.attempts)
      × ((with_deadline now run_id e q).0.step ≡ e.step)
unfolding with_deadline schedule_timeout stop_entry_timer arm_timer
with_deadline_keeps now run_id e q = (ground arith, ground arith, ground arith)

dispatched_entry :
    (now : ℕ) (e : TaskEntry) (q : Queue)
    → e.status ≡ TaskStatus.ready
    → ((dispatch_if_needed now e q).0.status ≡ started_status q)
      × ((dispatch_if_needed now e q).0.attempts ≡ started_attempts q e)
      × ((dispatch_if_needed now e q).0.step ≡ e.step)
unfolding dispatch_if_needed start_task
dispatched_entry now e q h = elim (Option-cases q.backend) [
  | inl p ↦ rw (p, dispatch_if_needed) (h, refl, refl)
  | inr (b, p) ↦
      let (s, a, st) = with_deadline_keeps now e.task.run_id (begin_attempt now e) q in
      rw (p, dispatch_if_needed)
        (unfold begin_attempt transition_task in
          (s ∙ ground arith, a ∙ ground arith, st ∙ ground arith))
]

promote_task_lem :
    (now : ℕ) (project_id run_id : String) (done : List String) (e : TaskEntry) (q : Queue)
    → Promoted done q e (promote_task now project_id run_id done e q).0
unfolding promote_task emit call
promote_task_lem now project_id run_id done e q = elim (Bool-cases (can_start done e)) [
  | inl t ↦
      let ready_entry = transition_task TaskStatus.ready e in
      let is_ready : ready_entry.status ≡ TaskStatus.ready =
        unfold transition_task in ground arith in
      let (s, a, st) =
        dispatched_entry now ready_entry (emit project_id (step_ready run_id (key e)) q) is_ready in
      let same_attempts : ready_entry.attempts ≡ e.attempts =
        unfold transition_task in ground arith in
      let same_step : ready_entry.step ≡ e.step = unfold transition_task in ground arith in
      rw t (
        inl (
          refl,
          s,
          a ∙ ap (λ n. if is_some q.backend then suc n else n) same_attempts,
          st ∙ same_step,
        ))
  | inr f ↦ rw f (inr (refl, refl))
]

step-Promoted :
    (done : List String) (q : Queue) (e e' : TaskEntry) → Promoted done q e e' → e'.step ≡ e.step
step-Promoted done q e e' (inl p) = p.3
step-Promoted done q e e' (inr p) = ap (λ x. x.step) p.1

promote_tasks_lem :
    (now : ℕ) (project_id run_id : String) (done : List String) (tasks : List TaskEntry) (q : Queue)
    (n : String) (e : TaskEntry)
    → find_task n tasks ≡ some e
    → (e' : TaskEntry) × (find_task n (promote_tasks now project_id run_id done tasks q).0
        ≡ some e')
      × Promoted done q e e'
unfolding promote_tasks find_task
promote_tasks_lem now project_id run_id done [] q n e h = cc
promote_tasks_lem now project_id run_id done (x ∷ tasks) q n e h =
    let x' = (promote_task now project_id run_id done x q).0 in
    let step = promote_task_lem now project_id run_id done x q in
    let same = step-Promoted done q x x' step in
    elim (Bool-cases (str_eq (key x) n)) [
      | inl t ↦
          let is : x ≡ e = ground arith in
          (
            x',
            rw (ap (λ (s : Step). str_eq s.name n) same ∙ t) refl,
            subst (λ y. Promoted done q y x') is step,
          )
      | inr f ↦
          let (e', found, p) =
            promote_tasks_lem now project_id run_id done tasks
              (promote_task now project_id run_id done x q).1 n e (ground arith) in
          let b = (promote_task-Frame now project_id run_id done x q).backend in
          (e', rw (ap (λ (s : Step). str_eq s.name n) same ∙ f) found, rw b at p)
    ]

-- promoteReady, entry by entry: a pending step whose dependencies are all done or skipped is started,
-- that is left running with one more attempt where a backend is set, and ready where none is; every
-- other entry is left as it was.
pub promote_ready_exact :
    (now : ℕ) (r : RunEntry) (q : Queue) (n : String) (e : TaskEntry)
    → find_task n r.tasks ≡ some e
    → (e' : TaskEntry) × (find_task n (promote_ready now r q).0.tasks ≡ some e')
      × Promoted (done_names r.tasks) q e e'
unfolding promote_ready
promote_ready_exact now r q n e h =
    promote_tasks_lem now r.project_id r.run_id (done_names r.tasks) r.tasks q n e h
