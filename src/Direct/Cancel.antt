-- ===== src/Direct/Cancel.antt =====
-- internal/directruntime/runtime.go: a cancellation that comes while the driver starts a task.
use piper.Direct.{
  Handle, TrackedTask, Runtime, reserve, rollback, canceled_mid_start, publish_handle, after_start,
  cancel_run, end_observe, recover_handle, RuntimeAction, dispatch, start_failed, start_done,
  cancel, observed, recovered, fail_start, finish_start, finish_observe, runtime_step, run_actions,
  find_tracked, set_tracked, delete_tracked,
}
use piper.Direct.Entries.{
  find-set_tracked, find-delete_tracked, is_marked, starts_for, cancel_entries-is_marked,
  cancel_entries-starts_for,
}
use piper.Prelude.{
  ◌∙◌, ap, not, ℕ, ◌-◌, String, Bool, true, false, Option, none, some, List, [], ◌∷◌, leb, str_eq,
  ◌≡◌, refl, arith, Bool-cases, inl, inr, pick,
}

-- The key of the goroutine that an action ends, or that it starts.
unfoldable pub picked_key : Option (String × List String) → Option String
picked_key none = none
picked_key (some (key, rest)) = some key

unfoldable pub picked_handle : Option (Handle × List Handle) → Option String
picked_handle none = none
picked_handle (some (handle, rest)) = some handle.runtime_key

unfoldable pub key_of : RuntimeAction → Runtime → Option String
key_of (dispatch key run_id) w = some key
key_of (start_failed n) w = picked_key (pick n w.launching)
key_of (start_done n handle) w = picked_key (pick n w.launching)
key_of (cancel run_id) w = none
key_of (observed n) w = picked_handle (pick n w.observing)
key_of (recovered handle) w = some handle.runtime_key

abbrev pub is_other : String → Option String → Bool
is_other k none = true
is_other k (some j) = not (str_eq j k)

-- No action of the sequence is one of the key.
unfoldable pub Leaves : ℕ → String → List RuntimeAction → Runtime → Type 0
Leaves concurrency k [] w = Unit
Leaves concurrency k (a ∷ rest) w =
    (is_other k (key_of a w) ≡ true) × Leaves concurrency k rest (runtime_step concurrency a w)

module _ (concurrency : ℕ) (k : String) where
  -- The task of the key is marked in the runtime.
  abbrev Marked : Runtime → Type 0
  Marked w = is_marked (find_tracked k w.active) ≡ true

  set_tracked-Marked :
      (j : String) (t : TrackedTask) (w : Runtime)
      → str_eq j k ≡ false
      → Marked w
      → is_marked (find_tracked k (set_tracked j t w.active)) ≡ true
  set_tracked-Marked j t w o h = ap is_marked (find-set_tracked k j t w.active o) ∙ h

  delete_tracked-Marked :
      (j : String) (w : Runtime)
      → str_eq j k ≡ false
      → Marked w
      → is_marked (find_tracked k (delete_tracked j w.active)) ≡ true
  delete_tracked-Marked j w o h = ap is_marked (find-delete_tracked k j w.active o) ∙ h

  reserve-Marked :
      (j run_id : String) (w : Runtime)
      → str_eq j k ≡ false
      → Marked w
      → Marked (reserve concurrency j run_id w)
  unfolding reserve
  reserve-Marked j run_id w o h = elim (Bool-cases w.draining) [
    | inl t ↦ rw t h
    | inr f ↦ elim (Bool-cases (leb concurrency w.in_flight)) [
      | inl t ↦ rw (f, t) h
      | inr n ↦ rw (f, n) (set_tracked-Marked j _ w o h)
    ]
  ]

  fail_start-Marked :
      (p : Option (String × List String)) (w : Runtime)
      → is_other k (picked_key p) ≡ true
      → Marked w
      → Marked (fail_start p w)
  unfolding fail_start rollback picked_key
  fail_start-Marked none w o h = h
  fail_start-Marked (some (j, rest)) w o h = delete_tracked-Marked j w (ground (arith, o)) h

  publish_handle-Marked :
      (j : String) (handle : Handle) (t : Option TrackedTask) (w : Runtime)
      → str_eq j k ≡ false
      → Marked w
      → Marked (publish_handle j handle t w)
  unfolding publish_handle
  publish_handle-Marked j handle none w o h = h
  publish_handle-Marked j handle (some t) w o h = set_tracked-Marked j _ w o h

  finish_start-Marked :
      (handle : Handle) (p : Option (String × List String)) (w : Runtime)
      → is_other k (picked_key p) ≡ true
      → Marked w
      → Marked (finish_start handle p w)
  unfolding finish_start after_start rollback picked_key
  finish_start-Marked handle none w o h = h
  finish_start-Marked handle (some (j, rest)) w o h =
      elim (Bool-cases (canceled_mid_start (find_tracked j w.active))) [
        | inl t ↦ rw t (delete_tracked-Marked j w (ground (arith, o)) h)
        | inr f ↦ rw f (
            publish_handle-Marked j handle (find_tracked j w.active) (record w { launching = rest })
              (ground (arith, o)) h)
      ]

  finish_observe-Marked :
      (p : Option (Handle × List Handle)) (w : Runtime)
      → is_other k (picked_handle p) ≡ true
      → Marked w
      → Marked (finish_observe p w)
  unfolding finish_observe end_observe rollback picked_handle
  finish_observe-Marked none w o h = h
  finish_observe-Marked (some (handle, rest)) w o h =
      delete_tracked-Marked handle.runtime_key w (ground (arith, o)) h

  runtime_step-Marked :
      (a : RuntimeAction) (w : Runtime)
      → is_other k (key_of a w) ≡ true
      → Marked w
      → Marked (runtime_step concurrency a w)
  unfolding runtime_step key_of
  runtime_step-Marked (dispatch key run_id) w o h =
      reserve-Marked key run_id w (ground (arith, o)) h
  runtime_step-Marked (start_failed n) w o h = fail_start-Marked (pick n w.launching) w o h
  runtime_step-Marked (start_done n handle) w o h =
      finish_start-Marked handle (pick n w.launching) w o h
  runtime_step-Marked (cancel run_id) w o h =
      unfold cancel_run in
      elim (Bool-cases (str_eq run_id "")) [
        | inl t ↦ rw t h
        | inr f ↦ rw f (cancel_entries-is_marked k run_id w.active h)
      ]
  runtime_step-Marked (observed n) w o h = finish_observe-Marked (pick n w.observing) w o h
  runtime_step-Marked (recovered handle) w o h =
      unfold recover_handle in set_tracked-Marked handle.runtime_key _ w (ground (arith, o)) h

  run_actions-Marked :
      (actions : List RuntimeAction) (w : Runtime)
      → Leaves concurrency k actions w
      → Marked w
      → Marked (run_actions concurrency actions w)
  unfolding run_actions Leaves
  run_actions-Marked [] w o h = h
  run_actions-Marked (a ∷ rest) w o h =
      run_actions-Marked rest (runtime_step concurrency a w) o.1 (runtime_step-Marked a w o.0 h)

  -- A cancellation of a run is not lost while the driver still starts one of its tasks: whatever the
  -- runtime does between, apart from actions on the key of the task, the task is stopped as soon as the
  -- driver has started it, its slot is free again, its entry is gone and nothing observes it.
  pub cancel_run-start_done :
      (run_id : String) (actions : List RuntimeAction) (w : Runtime) (n : ℕ) (handle : Handle)
      (rest : List String)
      → str_eq run_id "" ≡ false
      → starts_for run_id (find_tracked k w.active) ≡ true
      → Leaves concurrency k actions (cancel_run run_id w)
      → pick n (run_actions concurrency actions (cancel_run run_id w)).launching ≡ some (k, rest)
      → let end = run_actions concurrency actions (cancel_run run_id w) in
        runtime_step concurrency (start_done n handle) end ≡ record end {
          active = delete_tracked k end.active;
          in_flight = end.in_flight - 1;
          launching = rest;
          stopped = handle ∷ end.stopped;
        }
  cancel_run-start_done run_id actions w n handle rest named starts leaves picked =
      stopped (run_actions concurrency actions (cancel_run run_id w))
        (run_actions-Marked actions (cancel_run run_id w) leaves marked) picked
    where
      marked : Marked (cancel_run run_id w)
      marked = unfold cancel_run in rw named (cancel_entries-starts_for k run_id w.active starts)

      mid_start : (t : Option TrackedTask) → is_marked t ≡ true → canceled_mid_start t ≡ true
      mid_start none h = cc h
      mid_start (some t) h = unfold canceled_mid_start in h

      stopped :
          (end : Runtime)
          → Marked end
          → pick n end.launching ≡ some (k, rest)
          → runtime_step concurrency (start_done n handle) end ≡ record end {
            active = delete_tracked k end.active;
            in_flight = end.in_flight - 1;
            launching = rest;
            stopped = handle ∷ end.stopped;
          }
      stopped end h e =
          unfold runtime_step finish_start after_start rollback in
          rw (e, mid_start (find_tracked k end.active) h) refl
