-- ===== src/Tests/Direct.antt =====
-- internal/directruntime/runtime.go: the theorems at a task that is canceled while it starts.
use piper.Direct.Cancel.{cancel_run-start_done, Leaves, key_of}
use piper.Direct.Entries.{starts_for}
use piper.Direct.Slots.{run_actions-Counted, Counted}
use piper.Direct.{
  Handle, TrackedTask, Runtime, new_runtime, reserve, cancel_run, RuntimeAction, dispatch,
  start_done, observed, recovered, runtime_step, run_actions, find_tracked, set_tracked,
  delete_tracked,
}
use piper.Prelude.{true, false, none, some, List, [], ◌∷◌, ◌≡◌, refl, ◌-◌, pick}

abbrev trained : Handle
trained = record { runtime_key = "rt-r1-train-a1"; task_id = "r1:train"; run_id = "r1" }

-- One task starts, with one slot of two in use.
abbrev starting_task : TrackedTask
starting_task = record {
  run_id = "r1";
  handle = none;
  starting = true;
  canceled = false;
  is_done = false;
}

abbrev busy : Runtime
busy = record {
  active = ("rt-r1-train-a1", starting_task) ∷ [];
  in_flight = 1;
  draining = false;
  launching = "rt-r1-train-a1" ∷ [];
  observing = [];
  stopped = [];
}

busy-reached : run_actions 2 (dispatch "rt-r1-train-a1" "r1" ∷ []) new_runtime ≡ busy
unfolding run_actions runtime_step reserve set_tracked
busy-reached = refl

-- Between the cancellation and the driver's answer another run starts a task.
abbrev between : List RuntimeAction
between = dispatch "rt-r2-load-a1" "r2" ∷ []

starts : starts_for "r1" (find_tracked "rt-r1-train-a1" busy.active) ≡ true
unfolding find_tracked
starts = refl

leaves : Leaves 2 "rt-r1-train-a1" between (cancel_run "r1" busy)
unfolding Leaves key_of
leaves = (refl, tt)

picked :
    pick 1 (run_actions 2 between (cancel_run "r1" busy)).launching
    ≡ some ("rt-r1-train-a1", "rt-r2-load-a1" ∷ [])
unfolding run_actions runtime_step reserve cancel_run
picked = refl

cancel_run-start_done_example :
    runtime_step 2 (start_done 1 trained) (run_actions 2 between (cancel_run "r1" busy))
    ≡ record (run_actions 2 between (cancel_run "r1" busy)) {
      active =
          delete_tracked "rt-r1-train-a1" (run_actions 2 between (cancel_run "r1" busy)).active;
      in_flight = (run_actions 2 between (cancel_run "r1" busy)).in_flight - 1;
      launching = "rt-r2-load-a1" ∷ [];
      stopped = trained ∷ (run_actions 2 between (cancel_run "r1" busy)).stopped;
    }
cancel_run-start_done_example =
    cancel_run-start_done 2 "rt-r1-train-a1" "r1" between busy 1 trained ("rt-r2-load-a1" ∷ []) refl
      starts leaves picked

run_actions-Counted_example :
    Counted 3 (run_actions 2 (recovered trained ∷ observed 0 ∷ []) new_runtime)
run_actions-Counted_example = run_actions-Counted 2 (recovered trained ∷ observed 0 ∷ [])
