-- ===== src/Tests/Schedule.antt =====
-- internal/runlifecycle/schedule.go: the theorems at one schedule with overlapping callbacks.
use piper.Schedules.Ticks.{ticks-Descending}
use piper.Schedules.Claims.{Descending}
use piper.Schedules.OneShot.{one_shot-length}
use piper.Schedules.Backfill.{
  backfill_schedule-ticks, backfill_schedule, backfill_loop, IsNext, created, Ascending, has_time,
}
use piper.Schedules.Rows.{OnRow}
use piper.Schedules.Views.{row, past, ticks}
use piper.Schedules.Firing.{
  answered, cut_off, Manager, ScheduleInput, begin, finish, enable, run, next_schedule_time,
  schedule_step, begin_callback, finish_callback, resume_callback, take_callback, schedule_fired,
  cron_fired, is_skipped, claim_tick, store_reply, fire_if,
}
use piper.Schedules.{
  Schedule, get_schedule, update_schedule, claim_run, is_schedule, is_waiting_for,
}
use piper.Prelude.{
  ℕ, ◌+◌, ◌-◌, ◌≤◌, ◌<◌, String, Bool, true, Option, none, some, List, [], ◌∷◌, ◌==◌, leb, ◌&&◌,
  ◌≡◌, refl, arith, length, All,
}
use Prim.Native.Nat.{◌%◌}

-- Every ten units of time.
abbrev next_ten : ℕ → ℕ
next_ten t = t + (10 - t % 10)

abbrev parse : String → Option (ℕ → ℕ)
parse expr = some next_ten

abbrev nightly : Schedule
nightly = record {
  id = "s1";
  project_id = "p";
  pipeline_yaml = "";
  schedule_type = "cron";
  cron_expr = "*/10 * * * *";
  enabled = true;
  max_runs = 0;
  last_run_at = none;
  next_run_at = 120;
  params_json = "";
  updated_at = 100;
}

abbrev manager : Schedule → Manager
manager sc = record {
  rows = sc ∷ [];
  callbacks = [];
  fired = [];
  removed = [];
  started_at = 110;
  misfire_policy = "run_once";
  misfire_grace = 0;
}

-- Two callbacks of one tick; then the next tick, the answer to whose claim is lost.
abbrev overlap : List ScheduleInput
overlap =
    begin "p" "s1"
    ∷ begin "p" "s1"
    ∷ finish answered 121 11 0
    ∷ finish answered 122 12 0
    ∷ begin "p" "s1"
    ∷ finish cut_off 131 21 0
    ∷ begin "p" "s1"
    ∷ finish answered 140 30 0
    ∷ []

next_ten-later :
    (expr : String) (now next : ℕ) → next_schedule_time parse expr now ≡ some next → now < next
unfolding next_schedule_time
next_ten-later expr now next e = ground (arith, e)

overlap-ticks : past "p" "s1" (run parse overlap (manager nightly)) ≡ 140 ∷ 120 ∷ []
unfolding run schedule_step begin_callback finish_callback resume_callback take_callback
    schedule_fired cron_fired is_skipped claim_tick store_reply fire_if next_schedule_time
    get_schedule claim_run update_schedule is_schedule is_waiting_for ticks
overlap-ticks = refl

ticks-Descending_example :
    Descending (past "p" "s1" (run parse overlap (manager nightly)))
    × OnRow
        (λ r. All (λ u. u < r.next_run_at) (past "p" "s1" (run parse overlap (manager nightly))))
        (row "p" "s1" (run parse overlap (manager nightly)))
ticks-Descending_example =
    ticks-Descending "p" "s1" parse next_ten-later overlap (manager nightly) typed refl refl
  where
    typed : OnRow (λ r. r.schedule_type ≡ "cron") (row "p" "s1" (manager nightly))
    typed = unfold get_schedule is_schedule in refl

abbrev once : Schedule
once = record nightly { schedule_type = "once" }

one_shot-length_example :
    length (past "p" "s1" (run parse (enable 150 "p" "s1" true ∷ overlap) (manager once))) ≤ 2
one_shot-length_example =
    one_shot-length "p" "s1" "once" refl parse (enable 150 "p" "s1" true ∷ overlap) (manager once)
      typed refl refl
  where
    typed : OnRow (λ r. r.schedule_type ≡ "once") (row "p" "s1" (manager once))
    typed = unfold get_schedule is_schedule in refl

abbrev is_ten : ℕ → Bool
is_ten t = t % 10 == 0

next_ten-IsNext : IsNext is_ten next_ten
next_ten-IsNext = record {
  later = λ t. omega arith;
  ticks = λ t. ground arith;
  nothing_between = λ t u a b. ground (arith, a, b);
}

backfill :
    backfill_schedule parse (λ sc. true) (λ t. true) 100 120 (some nightly)
    ≡ created (100 ∷ 110 ∷ 120 ∷ [])
unfolding backfill_schedule backfill_loop
backfill = refl

backfill_schedule-ticks_example :
    Ascending (100 ∷ 110 ∷ 120 ∷ [])
    × ((u : ℕ) → has_time u (100 ∷ 110 ∷ 120 ∷ []) ≡ (leb 100 u && leb u 120 && is_ten u))
backfill_schedule-ticks_example =
    backfill_schedule-ticks parse (λ sc. true) (λ t. true) 100 120 nightly next_ten is_ten
      (100 ∷ 110 ∷ 120 ∷ []) refl next_ten-IsNext (omega arith) backfill
