-- ===== src/Schedules.antt =====
-- internal/store/sqlite/schedule.go: the table of schedules. Times are nanoseconds.
pub mod Firing
pub mod Rows
pub mod Views
pub mod Kinds
pub mod Claims
pub mod Ticks
pub mod OneShot
pub mod Backfill
use piper.Prelude.{
  ℕ, String, Bool, true, false, Option, none, some, List, [], ◌∷◌, ◌&&◌, ◌==◌, not, str_eq,
  if◌then◌else◌,
}

-- Schedule, without its name, its template version and its creation time.
pub record Schedule : Type 0 where
  pub id : String
  pub project_id : String
  pub pipeline_yaml : String
  pub schedule_type : String
  pub cron_expr : String
  pub enabled : Bool
  pub max_runs : ℕ
  pub last_run_at : Option ℕ
  pub next_run_at : ℕ
  pub params_json : String
  pub updated_at : ℕ

-- The two columns of the primary key.
unfoldable pub is_schedule : String → String → Schedule → Bool
is_schedule project_id id sc = str_eq sc.project_id project_id && str_eq sc.id id

-- Get
unfoldable pub get_schedule : String → String → List Schedule → Option Schedule
get_schedule project_id id [] = none
get_schedule project_id id (sc ∷ rows) =
    if is_schedule project_id id sc then some sc else get_schedule project_id id rows

-- UPDATE schedules SET … WHERE project_id=? AND id=? AND …; and whether a row is affected.
unfoldable pub update_schedule :
    String
    → String
    → (Schedule → Bool)
    → (Schedule → Schedule)
    → List Schedule
    → Bool × List Schedule
update_schedule project_id id clause change [] = (false, [])
update_schedule project_id id clause change (sc ∷ rows) =
    let (affected, rows') = update_schedule project_id id clause change rows in
    if is_schedule project_id id sc
    then (if clause sc then (true, change sc ∷ rows) else (false, sc ∷ rows))
    else (affected, sc ∷ rows')

-- enabled=1 AND next_run_at=?
unfoldable pub is_waiting_for : ℕ → Schedule → Bool
is_waiting_for expected_at sc = sc.enabled && sc.next_run_at == expected_at

-- ClaimRun; `stamp` is the time that the statement itself reads.
unfoldable pub claim_run :
    ℕ
    → String
    → String
    → (expected_at last_run_at next_run_at : ℕ) → List Schedule
    → Bool × List Schedule
claim_run stamp project_id id expected_at last_run_at next_run_at rows =
    update_schedule project_id id (is_waiting_for expected_at)
      (λ sc. record sc {
        last_run_at = some last_run_at;
        next_run_at = next_run_at;
        updated_at = stamp;
      })
      rows

-- AdvanceNextRun
unfoldable pub advance_next_run :
    ℕ → String → String → (expected_at next_run_at : ℕ) → List Schedule → Bool × List Schedule
advance_next_run stamp project_id id expected_at next_run_at rows =
    update_schedule project_id id (is_waiting_for expected_at)
      (λ sc. record sc { next_run_at = next_run_at; updated_at = stamp }) rows

-- ClaimOneShotRun
unfoldable pub claim_one_shot_run :
    ℕ → String → String → (expected_at last_run_at : ℕ) → List Schedule → Bool × List Schedule
claim_one_shot_run stamp project_id id expected_at last_run_at rows =
    update_schedule project_id id (is_waiting_for expected_at)
      (λ sc. record sc {
        enabled = false;
        last_run_at = some last_run_at;
        next_run_at = last_run_at;
        updated_at = stamp;
      })
      rows

-- SetEnabled
unfoldable pub set_enabled : ℕ → String → String → Bool → List Schedule → List Schedule
set_enabled stamp project_id id enabled rows =
    (update_schedule project_id id (λ sc. true)
      (λ sc. record sc { enabled = enabled; updated_at = stamp }) rows).1

-- SetMaxRuns
unfoldable pub set_max_runs : ℕ → String → String → ℕ → List Schedule → List Schedule
set_max_runs stamp project_id id max_runs rows =
    (update_schedule project_id id (λ sc. true)
      (λ sc. record sc { max_runs = max_runs; updated_at = stamp }) rows).1

-- Delete
unfoldable pub delete_schedule : String → String → List Schedule → List Schedule
delete_schedule project_id id [] = []
delete_schedule project_id id (sc ∷ rows) =
    let rest = delete_schedule project_id id rows in
    if is_schedule project_id id sc then rest else sc ∷ rest
