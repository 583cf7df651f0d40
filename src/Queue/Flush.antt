-- ===== src/Queue/Flush.antt =====
-- internal/queue/queue.go: flushPending and persistWithRetry; internal/store/sqlite/run.go and
-- step.go: the two statements that the queue's writes run. Whether a try of a statement succeeds is
-- the environment's choice; a try that fails changes nothing.
pub mod Once
use piper.Queue.Types.{
  if_applied, finalize, always, upsert, Action, Write, StepRow, RunStatus, Effect,
}
use piper.Prelude.{
  any, is_some, not, ◌&&◌, ◌==◌, if◌then◌else◌, str_eq, some, none, false, true, ℕ, suc, zero,
  String, ◌+◌, ◌≡◌, Bool, List, [], ◌∷◌, ◌++◌, Option,
}

-- A try succeeds, or fails, or fails and the context ends during the wait behind it.
pub data Verdict : Type 0 where
  succeeds fails gives_up : Verdict

-- The loop of persistWithRetry, with the tries that are left and the number of the next one.
unfoldable pub persist_from : ℕ → ℕ → (ℕ → Verdict) → Bool
persist_from zero attempt v = false
persist_from (suc left) attempt v =
    let rest = persist_from left (suc attempt) v in
    elim (v attempt) [ succeeds ↦ true | fails ↦ rest | gives_up ↦ false ]

abbrev pub max_tries : ℕ
max_tries = 5

-- Whether the write goes through; the number of a try starts at 1.
unfoldable pub persist_with_retry : (ℕ → Verdict) → Bool
persist_with_retry v = persist_from max_tries 1 v

-- A row of the table of runs; a status of none stands for those that are not terminal.
pub record RunRow : Type 0 where
  pub project_id : String
  pub id : String
  pub status : Option RunStatus
  pub ended_at : Option ℕ

pub record Db : Type 0 where
  pub runs : List RunRow
  pub steps : List StepRow

-- The row that the UPDATE of FinalizeStatusCAS selects.
abbrev pub is_open_run : String → String → RunRow → Bool
is_open_run project_id id row =
    str_eq row.project_id project_id && (str_eq row.id id && not (is_some row.status))

unfoldable pub update_runs : String → String → RunStatus → ℕ → List RunRow → List RunRow
update_runs project_id id to at [] = []
update_runs project_id id to at (row ∷ rows) =
    (if is_open_run project_id id row
      then record row { status = some to; ended_at = some at }
      else row)
    ∷ update_runs project_id id to at rows

unfoldable pub affected_runs : String → String → List RunRow → ℕ
affected_runs project_id id [] = 0
affected_runs project_id id (row ∷ rows) =
    let rest = affected_runs project_id id rows in
    if is_open_run project_id id row then suc rest else rest

-- FinalizeStatusCAS: the new table, and `affected == 1`.
unfoldable pub finalize_status_cas :
    String → String → RunStatus → ℕ → List RunRow → List RunRow × Bool
finalize_status_cas project_id id to at rows =
    (update_runs project_id id to at rows, affected_runs project_id id rows == 1)

abbrev pub same_step : StepRow → StepRow → Bool
same_step a b =
    str_eq a.project_id b.project_id && (str_eq a.run_id b.run_id && str_eq a.step_name b.step_name)

-- Upsert
unfoldable pub upsert_step : StepRow → List StepRow → List StepRow
upsert_step s [] = s ∷ []
upsert_step s (row ∷ rows) = if same_step row s then s ∷ rows else row ∷ upsert_step s rows

-- A finalization that changed its row, with the cell in which its effects look.
pub record Applied : Type 0 where
  pub cell : ℕ
  pub project_id : String
  pub run_id : String

unfoldable pub perform : Write → Db → Db × List Applied
perform (upsert s) db = (record db { steps = upsert_step s db.steps }, [])
perform (finalize cell project_id run_id status at) db =
    let (runs, applied) = finalize_status_cas project_id run_id status at db.runs in
    (
      record db { runs = runs },
      if applied then record { cell = cell; project_id = project_id; run_id = run_id } ∷ [] else [],
    )

unfoldable pub flush_write : (ℕ → Verdict) → Write → Db → Db × List Applied
flush_write v w db = if persist_with_retry v then perform w db else (db, [])

-- The writes in their order; `v i` are the verdicts on the tries of the i-th write.
unfoldable pub flush_writes : (ℕ → ℕ → Verdict) → ℕ → List Write → Db → Db × List Applied
flush_writes v i [] db = (db, [])
flush_writes v i (w ∷ ws) db =
    let (db', a) = flush_write (v i) w db in
    let (db'', b) = flush_writes v (suc i) ws db' in (db'', a ++ b)

unfoldable pub flush_effects : List Applied → List Effect → List Action
flush_effects cells [] = []
flush_effects cells (always a ∷ fs) = a ∷ flush_effects cells fs
flush_effects cells (if_applied c a ∷ fs) =
    let rest = flush_effects cells fs in if any (λ x. x.cell == c) cells then a ∷ rest else rest

-- flushPending: all writes, and then the effects.
unfoldable pub flush_pending : (ℕ → ℕ → Verdict) → List Write → List Effect → Db → Db × List Action
flush_pending v ws fs db =
    let (db', cells) = flush_writes v 0 ws db in (db', flush_effects cells fs)
