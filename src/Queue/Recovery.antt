-- ===== src/Queue/Recovery.antt =====
-- internal/queue/queue.go: recoverWithEnvLocked for a run that has nothing left to do.
use piper.Queue.Sound.{set_task-All}
use piper.Pipeline.Defaults.{apply_defaults}
use piper.Queue.Timers.{arm_timer, stop_entry_timer, transition_task}
use piper.Pipeline.{Step}
use piper.Queue.Types.{RunStatus, Queue, TaskEntry}
use piper.Queue.Submit.{
  new_entry, RecoveredStep, schedule_recovery_grace, recover_running, Submission, recover_entry,
  recover_steps,
}
use piper.Queue.Tasks.{is_failed, run_outcome}
use piper.Prelude.{any, All, arith, some, none, false, refl, ℕ, ◌≡◌, List, [], ◌∷◌, Option}

abbrev NotFailed : TaskEntry → Type 0
NotFailed e = is_failed e.status ≡ false

recover_entry-NotFailed :
    (now : ℕ) (sub : Submission) (s : Step) (o : Option RecoveredStep) (q : Queue)
    → NotFailed (recover_entry now sub o (new_entry now sub s q) q).0
unfolding recover_entry recover_running schedule_recovery_grace new_entry transition_task
    stop_entry_timer arm_timer
recover_entry-NotFailed now sub s none q = refl
recover_entry-NotFailed now sub s (some rs) q = ground arith

recover_steps-NotFailed :
    (now : ℕ) (sub : Submission) (recovered : List RecoveredStep) (steps : List Step)
    (tasks : List TaskEntry) (q : Queue)
    → All NotFailed tasks
    → All NotFailed (recover_steps now sub recovered steps tasks q).0
unfolding recover_steps
recover_steps-NotFailed now sub recovered [] tasks q h = h
recover_steps-NotFailed now sub recovered (s ∷ steps) tasks q h =
    recover_steps-NotFailed now sub recovered steps _ _
      (set_task-All NotFailed _ tasks (recover_entry-NotFailed now sub s _ q) h)

none_failed :
    (tasks : List TaskEntry) → All NotFailed tasks → any (λ e. is_failed e.status) tasks ≡ false
none_failed [] h = refl
none_failed (e ∷ tasks) h = rw h.0 (none_failed tasks h.1)

-- Whatever was persisted, the status that RecoverWithEnv computes for the recovered tasks is
-- success: no recovered entry is failed, so its loop over failed entries never finds one.
pub recover_outcome :
    (now : ℕ) (sub : Submission) (recovered : List RecoveredStep) (q : Queue)
    → run_outcome (recover_steps now sub recovered (apply_defaults sub.pl).steps [] q).0
      ≡ RunStatus.success
unfolding run_outcome
recover_outcome now sub recovered q =
    rw
      (none_failed _
        (recover_steps-NotFailed now sub recovered (apply_defaults sub.pl).steps [] q tt))
      refl
