-- ===== src/Queue/Cancellation.antt =====
-- internal/queue/queue.go: Cancel, and the reports that come after it.
use piper.Queue.Frame.{finalize_run-Frame}
use piper.Queue.Sound.Reachable.{cancel_tasks-Frame}
use piper.Queue.Races.{run_id_of_found}
use piper.Queue.TaskId.{split_task_id}
use piper.Queue.Timers.{append_write, append_effect}
use piper.Queue.Tasks.{delete_run, find_run}
use piper.Queue.Sweep.{cancel_tasks, cancel_untracked, cancel}
use piper.Queue.Complete.{complete_run, complete_split, complete, ignored}
use piper.Queue.Types.{TaskResult, RunEntry, Queue}
use piper.Prelude.{
  sym, subst, ◌∙◌, ap, inr, inl, str_eq, Option-cases, Bool-cases, ◌∷◌, [], some, none, ℕ, String,
  List, ◌≡◌, refl,
}

find_run-delete_run :
    (run_id : String) (runs : List RunEntry) → find_run run_id (delete_run run_id runs) ≡ none
unfolding find_run delete_run
find_run-delete_run run_id [] = refl
find_run-delete_run run_id (r ∷ runs) = elim (Bool-cases (str_eq r.run_id run_id)) [
  | inl t ↦ rw t (find_run-delete_run run_id runs)
  | inr n ↦ rw (n, n) (find_run-delete_run run_id runs)
]

-- The run is out of the map, whether it was in it or not.
cancel-untracks :
    (now : ℕ) (project_id run_id : String) (q : Queue)
    → find_run run_id (cancel now project_id run_id q).runs ≡ none
unfolding cancel cancel_untracked append_effect append_write
cancel-untracks now project_id run_id q = elim (Option-cases (find_run run_id q.runs)) [
  | inl p ↦ rw (p, cancel) p
  | inr (r, p) ↦
      let named = run_id_of_found run_id q.runs r p in
      let framed = cancel_tasks-Frame now r r.tasks q in
      let gone = finalize_run-Frame now _ _ _ (cancel_tasks now r r.tasks q).1 in
      rw (p, cancel)
        (ap (find_run run_id) (gone.runs ∙ ap (delete_run r.run_id) framed.runs)
          ∙ subst (λ n. find_run run_id (delete_run n q.runs) ≡ none) (sym named)
              (find_run-delete_run run_id q.runs))
]

-- After Cancel, a report for any step of the run is ignored without an error and changes nothing,
-- whatever it says and whoever sends it, and whether or not the run was tracked.
pub complete-cancel :
    (now later : ℕ) (project_id run_id step_name : String) (result : TaskResult) (q : Queue)
    → split_task_id result.task_id ≡ some (run_id, step_name)
    → complete later result (cancel now project_id run_id q)
      ≡ (ignored, cancel now project_id run_id q)
unfolding complete complete_split complete_run
complete-cancel now later project_id run_id step_name result q h =
    rw (h, complete_split, cancel-untracks now project_id run_id q, complete_run) refl
