-- ===== src/Schedules/Ticks.antt =====
-- internal/runlifecycle/schedule.go: the ticks for which a cron schedule starts a run.
use piper.Schedules.{set_max_runs, set_enabled, Schedule, is_schedule, get_schedule}
use piper.Schedules.Rows.{delete-OnRow, update-OnRow, OnRow}
use piper.Schedules.Views.{row, past, ticks}
use piper.Schedules.Kinds.{take_callback-Taken, Taken, schedule_step-Kind, Kind}
use piper.Schedules.Firing.{
  begin_callback, restart, delete, limit_runs, enable, take_callback, finish_callback, finish,
  begin, resume_callback, schedule_step, ScheduleInput, run, next_schedule_time, Manager, Reply,
}
use piper.Schedules.Claims.{IsAhead, schedule_fired-IsAhead, Descending}
use piper.Prelude.{
  ◌+◌, none, some, ℕ, String, true, Option, List, [], ◌∷◌, ◌≡◌, refl, arith, Bool-cases, inl, inr,
  All, ◌≤◌, ◌<◌,
}

module _ (p id : String) where
  -- The claimed ticks of the schedule come in order, and the next tick after all of them.
  pub record Progressing (m : Manager) : Type 0 where
    pub kind : Kind p id "cron" m
    pub ahead : OnRow (λ r. All (λ u. u < r.next_run_at) (past p id m)) (row p id m)
    pub in_order : Descending (past p id m)

  -- Everything that may happen to the table and to the callbacks.
  schedule_step-Progressing :
      (parse : String → Option (ℕ → ℕ))
      → ((expr : String) (now next : ℕ)
          → next_schedule_time parse expr now ≡ some next
          → now < next)
      → (i : ScheduleInput) (m : Manager) → Progressing m
      → Progressing (schedule_step parse i m)
  schedule_step-Progressing parse later i m r = record {
    kind = schedule_step-Kind p id "cron" parse i m r.kind;
    ahead = (ahead-schedule_step i).0;
    in_order = (ahead-schedule_step i).1;
  }
    where
      now_ahead : IsAhead (row p id m) (past p id m)
      now_ahead = (r.ahead, r.in_order)

      resumed :
          (reply : Reply) (stamp now : ℕ) (o : Option (Schedule × List Schedule))
          → m.started_at ≤ now
          → Taken (λ c. is_schedule p id c ≡ true → c.schedule_type ≡ "cron") o
          → IsAhead
              (row p id (resume_callback parse reply stamp now o m))
              (past p id (resume_callback parse reply stamp now o m))
      resumed reply stamp now none started t = unfold resume_callback in now_ahead
      resumed reply stamp now (some (sc, others)) started t =
          unfold resume_callback in
          schedule_fired-IsAhead p id parse later reply stamp now sc
            (record m { callbacks = others }) started t.0 now_ahead

      begun :
          (o : Option Schedule)
          → IsAhead (row p id (begin_callback o m)) (past p id (begin_callback o m))
      begun none = unfold begin_callback in now_ahead
      begun (some sc) =
          unfold begin_callback in
          elim (Bool-cases sc.enabled) [ inl t ↦ rw t now_ahead | inr f ↦ rw f now_ahead ]

      ahead-schedule_step :
          (i : ScheduleInput)
          → IsAhead (row p id (schedule_step parse i m)) (past p id (schedule_step parse i m))
      ahead-schedule_step (begin q j) = unfold schedule_step in begun (get_schedule q j m.rows)
      ahead-schedule_step (finish reply stamp elapsed n) =
          unfold schedule_step finish_callback in
          resumed reply stamp (m.started_at + elapsed) (take_callback n m.callbacks) (omega arith)
            (take_callback-Taken _ n m.callbacks r.kind.snapshot_kind)
      ahead-schedule_step (enable stamp q j b) =
          unfold schedule_step set_enabled is_schedule in
          (update-OnRow q j _ _ (λ q i x. refl) _ p id m.rows (λ x w a. a) r.ahead, r.in_order)
      ahead-schedule_step (limit_runs stamp q j n) =
          unfold schedule_step set_max_runs is_schedule in
          (update-OnRow q j _ _ (λ q i x. refl) _ p id m.rows (λ x w a. a) r.ahead, r.in_order)
      ahead-schedule_step (delete q j) =
          unfold schedule_step in (delete-OnRow _ p id q j m.rows r.ahead, r.in_order)
      ahead-schedule_step (restart t) = unfold schedule_step in now_ahead

  run-Progressing :
      (parse : String → Option (ℕ → ℕ))
      → ((expr : String) (now next : ℕ)
          → next_schedule_time parse expr now ≡ some next
          → now < next)
      → (inputs : List ScheduleInput) (m : Manager) → Progressing m
      → Progressing (run parse inputs m)
  unfolding run
  run-Progressing parse later [] m r = r
  run-Progressing parse later (i ∷ is) m r =
      run-Progressing parse later is (schedule_step parse i m)
        (schedule_step-Progressing parse later i m r)

  -- Whatever callbacks overlap, whichever statements fail or lose their answer, and however often the
  -- process restarts: the ticks for which a cron schedule starts runs are in strictly ascending order
  -- (the latest stands first), so none is started twice, and each is before the schedule's next tick.
  -- It is assumed that a tick that the cron expression gives after a time is later than that time.
  pub ticks-Descending :
      (parse : String → Option (ℕ → ℕ))
      → ((expr : String) (now next : ℕ)
          → next_schedule_time parse expr now ≡ some next
          → now < next)
      → (inputs : List ScheduleInput) (m : Manager)
      → OnRow (λ r. r.schedule_type ≡ "cron") (row p id m)
      → m.callbacks ≡ []
      → m.fired ≡ []
      → Descending (past p id (run parse inputs m))
        × OnRow
            (λ r. All (λ u. u < r.next_run_at) (past p id (run parse inputs m)))
            (row p id (run parse inputs m))
  ticks-Descending parse later inputs m kind idle fresh =
      let r = run-Progressing parse later inputs m (record {
        kind = record { row_kind = kind; snapshot_kind = rw idle tt };
        ahead = rw fresh (unfold ticks in vacuous (row p id m));
        in_order = rw fresh (unfold ticks in tt);
      }) in
      (r.in_order, r.ahead)
    where
      vacuous : (o : Option Schedule) → OnRow (λ r. Unit) o
      vacuous none = tt
      vacuous (some r) = tt
