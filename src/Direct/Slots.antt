-- ===== src/Direct/Slots.antt =====
-- internal/directruntime/runtime.go: the count of the slots in use.
use piper.Direct.{
  Handle, TrackedTask, Runtime, new_runtime, reserve, rollback, canceled_mid_start, publish_handle,
  after_start, cancel_run, end_observe, recover_handle, RuntimeAction, dispatch, start_failed,
  start_done, cancel, observed, recovered, fail_start, finish_start, finish_observe, runtime_step,
  run_actions, find_tracked,
}
use piper.Prelude.{
  ℕ, suc, ◌+◌, ◌≤◌, String, Option, none, some, List, [], ◌∷◌, leb, str_eq, if◌then◌else◌, length,
  ◌≡◌, refl, arith, Bool-cases, inl, inr, pick, LeavesOneLess, pick-LeavesOneLess,
}

-- How many handles of an earlier process are taken over.
abbrev pub recovers : List RuntimeAction → ℕ
recovers [] = 0
recovers (recovered handle ∷ actions) = suc (recovers actions)
recovers (a ∷ actions) = recovers actions

-- inFlight counts the goroutines that hold a slot, and stays within its bound.
pub record Counted (bound : ℕ) (w : Runtime) : Type 0 where
  pub slots : w.in_flight ≡ length w.launching + length w.observing
  pub bounded : w.in_flight ≤ bound

finish_start-Counted :
    (bound : ℕ) (handle : Handle) (o : Option (String × List String)) (w : Runtime)
    → LeavesOneLess w.launching o
    → Counted bound w
    → Counted bound (finish_start handle o w)
unfolding finish_start after_start rollback canceled_mid_start publish_handle
finish_start-Counted bound handle none w one c = c
finish_start-Counted bound handle (some (key, rest)) w one c = entered (find_tracked key w.active)
  where
    entered :
        (t : Option TrackedTask)
        → Counted bound (
            if canceled_mid_start t
            then record (rollback key (record w { launching = rest })) {
              stopped = handle ∷ w.stopped;
            }
            else publish_handle key handle t (record w { launching = rest }))
    entered none = record {
      slots = omega (arith, one, c.slots);
      bounded = omega (arith, c.bounded);
    }
    entered (some t) = elim (Bool-cases t.canceled) [
      | inl y ↦
          rw y (record { slots = omega (arith, one, c.slots); bounded = omega (arith, c.bounded) })
      | inr n ↦ rw n (record { slots = omega (arith, one, c.slots); bounded = c.bounded })
    ]

fail_start-Counted :
    (bound : ℕ) (o : Option (String × List String)) (w : Runtime)
    → LeavesOneLess w.launching o
    → Counted bound w
    → Counted bound (fail_start o w)
unfolding fail_start rollback
fail_start-Counted bound none w one c = c
fail_start-Counted bound (some (key, rest)) w one c = record {
  slots = omega (arith, one, c.slots);
  bounded = omega (arith, c.bounded);
}

finish_observe-Counted :
    (bound : ℕ) (o : Option (Handle × List Handle)) (w : Runtime)
    → LeavesOneLess w.observing o
    → Counted bound w
    → Counted bound (finish_observe o w)
unfolding finish_observe end_observe rollback
finish_observe-Counted bound none w one c = c
finish_observe-Counted bound (some (handle, rest)) w one c = record {
  slots = omega (arith, one, c.slots);
  bounded = omega (arith, c.bounded);
}

reserve-Counted :
    (concurrency bound : ℕ) (key run_id : String) (w : Runtime)
    → concurrency ≤ bound
    → Counted bound w
    → Counted bound (reserve concurrency key run_id w)
unfolding reserve
reserve-Counted concurrency bound key run_id w le c = elim (Bool-cases w.draining) [
  | inl t ↦ rw t (record { slots = c.slots; bounded = c.bounded })
  | inr f ↦ elim (Bool-cases (leb concurrency w.in_flight)) [
    | inl t ↦ rw (f, t) (record { slots = c.slots; bounded = c.bounded })
    | inr n ↦ rw (f, n) (record { slots = omega (arith, c.slots); bounded = ground (arith, n, le) })
  ]
]

-- The bound after an action.
abbrev raised : RuntimeAction → ℕ → ℕ
raised (recovered handle) bound = suc bound
raised a bound = bound

runtime_step-Counted :
    (concurrency bound : ℕ) (a : RuntimeAction) (w : Runtime)
    → concurrency ≤ bound
    → Counted bound w
    → Counted (raised a bound) (runtime_step concurrency a w)
unfolding runtime_step
runtime_step-Counted concurrency bound (dispatch key run_id) w le c =
    reserve-Counted concurrency bound key run_id w le c
runtime_step-Counted concurrency bound (start_failed n) w le c =
    fail_start-Counted bound (pick n w.launching) w (pick-LeavesOneLess n w.launching) c
runtime_step-Counted concurrency bound (start_done n handle) w le c =
    finish_start-Counted bound handle (pick n w.launching) w (pick-LeavesOneLess n w.launching) c
runtime_step-Counted concurrency bound (cancel run_id) w le c =
    unfold cancel_run in
    elim (Bool-cases (str_eq run_id "")) [
      | inl t ↦ rw t c
      | inr f ↦ rw f (record { slots = c.slots; bounded = c.bounded })
    ]
runtime_step-Counted concurrency bound (observed n) w le c =
    finish_observe-Counted bound (pick n w.observing) w (pick-LeavesOneLess n w.observing) c
runtime_step-Counted concurrency bound (recovered handle) w le c =
    unfold recover_handle in
    record { slots = omega (arith, c.slots); bounded = omega (arith, c.bounded) }

run_actions-from :
    (concurrency bound : ℕ) (actions : List RuntimeAction) (w : Runtime)
    → concurrency ≤ bound
    → Counted bound w
    → Counted (recovers actions + bound) (run_actions concurrency actions w)
unfolding run_actions
run_actions-from concurrency bound [] w le c = record {
  slots = c.slots;
  bounded = omega (arith, c.bounded);
}
run_actions-from concurrency bound (a ∷ rest) w le c =
    let r =
      run_actions-from concurrency (raised a bound) rest (runtime_step concurrency a w)
        (raised-le a) (runtime_step-Counted concurrency bound a w le c) in
    record { slots = r.slots; bounded = omega (arith, r.bounded, recovers-cons a) }
  where
    raised-le : (a : RuntimeAction) → concurrency ≤ raised a bound
    raised-le (recovered handle) = omega (arith, le)
    raised-le (dispatch key run_id) = le
    raised-le (start_failed n) = le
    raised-le (start_done n handle) = le
    raised-le (cancel run_id) = le
    raised-le (observed n) = le

    recovers-cons :
        (a : RuntimeAction) → recovers rest + raised a bound ≡ recovers (a ∷ rest) + bound
    recovers-cons (recovered handle) = omega arith
    recovers-cons (dispatch key run_id) = refl
    recovers-cons (start_failed n) = refl
    recovers-cons (start_done n handle) = refl
    recovers-cons (cancel run_id) = refl
    recovers-cons (observed n) = refl

-- In every state that a new runtime reaches by any interleaving of dispatches, answers of the driver,
-- cancellations, ends of tasks and recoveries, inFlight is exactly the number of dispatches that wait
-- for the driver and of running observers, so no slot leaks, and it is at most the concurrency and the
-- number of recovered handles.
pub run_actions-Counted :
    (concurrency : ℕ) (actions : List RuntimeAction)
    → Counted (recovers actions + concurrency) (run_actions concurrency actions new_runtime)
run_actions-Counted concurrency actions =
    run_actions-from concurrency concurrency actions new_runtime (omega arith)
      (record { slots = refl; bounded = omega arith })
