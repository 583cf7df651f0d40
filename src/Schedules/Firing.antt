-- ===== src/Schedules/Firing.antt =====
-- internal/runlifecycle/schedule.go: ScheduleFired, in the two sections between which other callbacks
-- may run: the read of the schedule, and what follows it up to the claim.
use piper.Schedules.{
  Schedule, get_schedule, claim_run, advance_next_run, claim_one_shot_run, set_enabled,
  set_max_runs, delete_schedule,
}
use piper.Prelude.{
  ℕ, zero, suc, ◌+◌, ◌-◌, String, Bool, false, Option, none, some, List, [], ◌∷◌, ◌&&◌, ◌||◌, ltb,
  str_eq, if◌then◌else◌,
}

-- A claimed tick of a schedule, for which fireSchedule is called.
pub record Fire : Type 0 where
  pub project_id : String
  pub schedule_id : String
  pub scheduled_at : ℕ

-- The database, the snapshots that running callbacks have read, and the ticks claimed so far, the
-- latest first; `removed` are the calls of Scheduler.Remove. The rest are the manager's settings.
pub record Manager : Type 0 where
  pub rows : List Schedule
  pub callbacks : List Schedule
  pub fired : List Fire
  pub removed : List String
  pub started_at : ℕ
  pub misfire_policy : String
  pub misfire_grace : ℕ

-- How a statement may end: it is executed and answered, it fails, or it is executed and the answer
-- is an error.
pub data Reply : Type 0 where
  answered : Reply
  refused : Reply
  cut_off : Reply

unfoldable pub store_reply : Reply → Bool × List Schedule → Manager → Bool × Manager
store_reply answered (ok, rows) m = (ok, record m { rows = rows })
store_reply refused (ok, rows) m = (false, m)
store_reply cut_off (ok, rows) m = (false, record m { rows = rows })

-- The call of fireSchedule after a successful claim.
unfoldable pub fire_if : Schedule → Bool × Manager → Manager
fire_if sc (claimed, m) =
    if claimed
    then record m {
      fired =
          record { project_id = sc.project_id; schedule_id = sc.id; scheduled_at = sc.next_run_at }
          ∷ m.fired;
    }
    else m

-- The claim of a cron tick.
unfoldable pub claim_tick : Reply → (stamp now next : ℕ) → Schedule → Manager → Manager
claim_tick reply stamp now next sc m =
    if ltb now sc.next_run_at
    then m
    else fire_if sc
        (store_reply reply (claim_run stamp sc.project_id sc.id sc.next_run_at now next m.rows) m)

-- A misfire that is passed over.
unfoldable pub skip_tick : Reply → (stamp next : ℕ) → Schedule → Manager → Manager
skip_tick reply stamp next sc m =
    (store_reply reply (advance_next_run stamp sc.project_id sc.id sc.next_run_at next m.rows) m).1

-- The misfire policy: whether a tick from before the start is passed over.
unfoldable pub is_skipped : ℕ → Schedule → Manager → Bool
is_skipped now sc m =
    ltb sc.next_run_at m.started_at
    && (str_eq m.misfire_policy "skip"
        || (ltb 0 m.misfire_grace && ltb m.misfire_grace (now - sc.next_run_at)))

unfoldable pub cron_fired : Reply → (stamp now next : ℕ) → Schedule → Manager → Manager
cron_fired reply stamp now next sc m =
    if is_skipped now sc m
    then skip_tick reply stamp next sc m
    else claim_tick reply stamp now next sc m

-- An expression that does not parse disables the schedule.
unfoldable pub disable : Reply → ℕ → Schedule → Manager → Manager
disable reply stamp sc m =
    let m' = (store_reply reply (false, set_enabled stamp sc.project_id sc.id false m.rows) m).1 in
    record m' { removed = sc.id ∷ m'.removed }

unfoldable pub one_shot_fired : Reply → (stamp now : ℕ) → Schedule → Manager → Manager
one_shot_fired reply stamp now sc m =
    fire_if sc
      (store_reply reply (claim_one_shot_run stamp sc.project_id sc.id sc.next_run_at now m.rows) m)

-- The read of ScheduleFired and the test of `enabled`.
unfoldable pub begin_callback : Option Schedule → Manager → Manager
begin_callback none m = m
begin_callback (some sc) m = if sc.enabled then record m { callbacks = sc ∷ m.callbacks } else m

-- The n-th running callback, and the others.
unfoldable pub take_callback : ℕ → List Schedule → Option (Schedule × List Schedule)
take_callback n [] = none
take_callback zero (sc ∷ rest) = some (sc, rest)
take_callback (suc n) (sc ∷ rest) = elim (take_callback n rest) [
  | none ↦ none
  | some (x, others) ↦ some (x, sc ∷ others)
]

-- What happens to the schedules. `finish` is the second section of a callback, `elapsed` after the
-- start of the process; `restart` loses the running callbacks.
pub data ScheduleInput : Type 0 where
  begin : (project_id id : String) → ScheduleInput
  finish : Reply → (stamp elapsed n : ℕ) → ScheduleInput
  enable : (stamp : ℕ) → (project_id id : String) → Bool → ScheduleInput
  limit_runs : (stamp : ℕ) → (project_id id : String) → ℕ → ScheduleInput
  delete : (project_id id : String) → ScheduleInput
  restart : (started_at : ℕ) → ScheduleInput

-- `parse` is the parser of cron expressions, with the times that follow a time.
module _ (parse : String → Option (ℕ → ℕ)) where
  -- NextScheduleTime
  unfoldable pub next_schedule_time : String → ℕ → Option ℕ
  next_schedule_time expr from = elim (parse expr) [ none ↦ none | some next ↦ some (next from) ]

  -- The switch of ScheduleFired on a schedule that was enabled when it was read.
  unfoldable pub schedule_fired : Reply → (stamp now : ℕ) → Schedule → Manager → Manager
  schedule_fired reply stamp now sc m =
      if str_eq sc.schedule_type "cron"
      then elim (next_schedule_time sc.cron_expr now) [
        | none ↦ disable reply stamp sc m
        | some next ↦ cron_fired reply stamp now next sc m
      ]
      else if str_eq sc.schedule_type "once" || str_eq sc.schedule_type "immediate"
      then one_shot_fired reply stamp now sc m
      else m

  -- The rest of a callback with its snapshot, while the other callbacks go on.
  unfoldable pub resume_callback :
      Reply → (stamp now : ℕ) → Option (Schedule × List Schedule) → Manager → Manager
  resume_callback reply stamp now none m = m
  resume_callback reply stamp now (some (sc, others)) m =
      schedule_fired reply stamp now sc (record m { callbacks = others })

  unfoldable pub finish_callback : Reply → (stamp now n : ℕ) → Manager → Manager
  finish_callback reply stamp now n m =
      resume_callback reply stamp now (take_callback n m.callbacks) m

  unfoldable pub schedule_step : ScheduleInput → Manager → Manager
  schedule_step (begin p id) m = begin_callback (get_schedule p id m.rows) m
  schedule_step (finish reply stamp elapsed n) m =
      finish_callback reply stamp (m.started_at + elapsed) n m
  schedule_step (enable stamp p id b) m = record m { rows = set_enabled stamp p id b m.rows }
  schedule_step (limit_runs stamp p id n) m = record m { rows = set_max_runs stamp p id n m.rows }
  schedule_step (delete p id) m = record m { rows = delete_schedule p id m.rows }
  schedule_step (restart t) m = record m { started_at = t; callbacks = [] }

  unfoldable pub run : List ScheduleInput → Manager → Manager
  run [] m = m
  run (i ∷ is) m = run is (schedule_step i m)
