-- ===== src/Direct.antt =====
-- internal/directruntime/runtime.go: the tasks that run on the server's own host. A critical section
-- of w.mu is one action; a dispatch is two, around the call of the driver.
pub mod Entries
pub mod Slots
pub mod Cancel
use piper.Prelude.{
  zero, pick, ◌++◌, ℕ, suc, ◌-◌, String, Bool, true, false, Option, none, some, List, [], ◌∷◌, leb,
  str_eq, if◌then◌else◌,
}

-- pdriver.Handle, of which the runtime reads these fields.
pub record Handle : Type 0 where
  pub runtime_key : String
  pub task_id : String
  pub run_id : String

-- trackedTask; `handle` is none for the zero value, and `is_done` tells whether cancel was called.
pub record TrackedTask : Type 0 where
  pub run_id : String
  pub handle : Option Handle
  pub starting : Bool
  pub canceled : Bool
  pub is_done : Bool

-- w.active[key], a write to it and delete.
unfoldable pub find_tracked : String → List (String × TrackedTask) → Option TrackedTask
find_tracked key [] = none
find_tracked key ((k, t) ∷ active) = if str_eq k key then some t else find_tracked key active

unfoldable pub set_tracked :
    String → TrackedTask → List (String × TrackedTask) → List (String × TrackedTask)
set_tracked key t [] = (key, t) ∷ []
set_tracked key t ((k, u) ∷ active) =
    let rest = set_tracked key t active in if str_eq k key then (k, t) ∷ active else (k, u) ∷ rest

unfoldable pub delete_tracked : String → List (String × TrackedTask) → List (String × TrackedTask)
delete_tracked key [] = []
delete_tracked key ((k, t) ∷ active) =
    let rest = delete_tracked key active in if str_eq k key then rest else (k, t) ∷ rest

-- Runtime, and its goroutines: `launching` has the keys of the dispatches whose driver is starting,
-- `observing` the handles of the running observers, `stopped` the handles given to Driver.Stop.
pub record Runtime : Type 0 where
  pub active : List (String × TrackedTask)
  pub in_flight : ℕ
  pub draining : Bool
  pub launching : List String
  pub observing : List Handle
  pub stopped : List Handle

-- New
abbrev pub new_runtime : Runtime
new_runtime = record {
  active = [];
  in_flight = 0;
  draining = false;
  launching = [];
  observing = [];
  stopped = [];
}

-- The reservation of Dispatch.
unfoldable pub reserve : (concurrency : ℕ) → (key run_id : String) → Runtime → Runtime
reserve concurrency key run_id w =
    if w.draining then w else if leb concurrency w.in_flight then w else record w {
      in_flight = suc w.in_flight;
      active =
          set_tracked key
            (record {
              run_id = run_id;
              handle = none;
              starting = true;
              canceled = false;
              is_done = false;
            })
            w.active;
      launching = key ∷ w.launching;
    }

-- rollback
unfoldable pub rollback : String → Runtime → Runtime
rollback key w = record w { active = delete_tracked key w.active; in_flight = w.in_flight - 1 }

-- `!stillTracked || tt.canceled`
unfoldable pub canceled_mid_start : Option TrackedTask → Bool
canceled_mid_start none = true
canceled_mid_start (some t) = t.canceled

-- The entry of a task that has started.
unfoldable pub started_task : Handle → TrackedTask → TrackedTask
started_task handle t = record t { handle = some handle; starting = false }

unfoldable pub publish_handle : String → Handle → Option TrackedTask → Runtime → Runtime
publish_handle key handle none w = w
publish_handle key handle (some t) w = record w {
  active = set_tracked key (started_task handle t) w.active;
  observing = handle ∷ w.observing;
}

-- The rest of Dispatch after the driver has started the task.
unfoldable pub after_start : String → Handle → Runtime → Runtime
after_start key handle w =
    if canceled_mid_start (find_tracked key w.active)
    then record (rollback key w) { stopped = handle ∷ w.stopped }
    else publish_handle key handle (find_tracked key w.active) w

-- CancelRun on one entry.
unfoldable pub cancel_entry : String → TrackedTask → TrackedTask
cancel_entry run_id t =
    if str_eq t.run_id run_id
    then record t { is_done = true; canceled = if t.starting then true else t.canceled }
    else t

unfoldable pub cancel_entries : String → List (String × TrackedTask) → List (String × TrackedTask)
cancel_entries run_id [] = []
cancel_entries run_id ((k, t) ∷ active) = (k, cancel_entry run_id t) ∷ cancel_entries run_id active

-- The handles that CancelRun stops after its critical section.
unfoldable pub handles_of : String → List (String × TrackedTask) → List Handle
handles_of run_id [] = []
handles_of run_id ((k, t) ∷ active) =
    let rest = handles_of run_id active in
    if str_eq t.run_id run_id
    then (if t.starting then rest else elim t.handle [ none ↦ rest | some h ↦ h ∷ rest ])
    else rest

unfoldable pub cancel_run : String → Runtime → Runtime
cancel_run run_id w = if str_eq run_id "" then w else record w {
  active = cancel_entries run_id w.active;
  stopped = handles_of run_id w.active ++ w.stopped;
}

-- The end of observe.
unfoldable pub end_observe : Handle → Runtime → Runtime
end_observe handle w = rollback handle.runtime_key w

-- Observe on one recovered handle.
unfoldable pub recover_handle : Handle → Runtime → Runtime
recover_handle handle w = record w {
  active =
      set_tracked handle.runtime_key
        (record {
          run_id = handle.run_id;
          handle = some handle;
          starting = false;
          canceled = false;
          is_done = false;
        })
        w.active;
  in_flight = suc w.in_flight;
  observing = handle ∷ w.observing;
}

pub data RuntimeAction : Type 0 where
  dispatch : (key run_id : String) → RuntimeAction
  start_failed : (n : ℕ) → RuntimeAction
  start_done : (n : ℕ) → Handle → RuntimeAction
  cancel : (run_id : String) → RuntimeAction
  observed : (n : ℕ) → RuntimeAction
  recovered : Handle → RuntimeAction

-- What a goroutine does when it has been picked out of those that run.
unfoldable pub fail_start : Option (String × List String) → Runtime → Runtime
fail_start none w = w
fail_start (some (key, rest)) w = rollback key (record w { launching = rest })

unfoldable pub finish_start : Handle → Option (String × List String) → Runtime → Runtime
finish_start handle none w = w
finish_start handle (some (key, rest)) w = after_start key handle (record w { launching = rest })

unfoldable pub finish_observe : Option (Handle × List Handle) → Runtime → Runtime
finish_observe none w = w
finish_observe (some (handle, rest)) w = end_observe handle (record w { observing = rest })

module _ (concurrency : ℕ) where
  unfoldable pub runtime_step : RuntimeAction → Runtime → Runtime
  runtime_step (dispatch key run_id) w = reserve concurrency key run_id w
  runtime_step (start_failed n) w = fail_start (pick n w.launching) w
  runtime_step (start_done n handle) w = finish_start handle (pick n w.launching) w
  runtime_step (cancel run_id) w = cancel_run run_id w
  runtime_step (observed n) w = finish_observe (pick n w.observing) w
  runtime_step (recovered handle) w = recover_handle handle w

  unfoldable pub run_actions : List RuntimeAction → Runtime → Runtime
  run_actions [] w = w
  run_actions (a ∷ rest) w = run_actions rest (runtime_step a w)
