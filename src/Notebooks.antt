-- ===== src/Notebooks.antt =====
-- internal/store/sqlite/notebook.go and pkg/notebook/model.go: notebooks and the history of their runs.
pub mod Sink
pub mod History
pub mod Late
use piper.Prelude.{
  ℕ, String, Bool, true, false, Option, none, some, List, [], ◌∷◌, ◌++◌, ◌&&◌, ◌||◌, ◌==◌, map, any,
  str_eq, if◌then◌else◌,
}

-- NotebookServer
pub record NotebookServer : Type 0 where
  pub project_id : String
  pub name : String
  pub status : String
  pub reason : String
  pub env : String
  pub endpoint : String
  pub pid : ℕ
  pub token : String
  pub work_dir : String
  pub runtime_id : String
  pub volume_id : String
  pub yaml : String
  pub created_by : String
  pub started_at : ℕ
  pub updated_at : ℕ

-- NotebookHistory; deployed_at is the start of the run.
pub record NotebookHistory : Type 0 where
  pub project_id : String
  pub name : String
  pub status : String
  pub env : String
  pub endpoint : String
  pub pid : ℕ
  pub work_dir : String
  pub runtime_id : String
  pub volume_id : String
  pub reason : String
  pub yaml : String
  pub created_by : String
  pub deployed_at : ℕ
  pub stopped_at : ℕ

-- Of a volume, what a report may write.
pub record Volume : Type 0 where
  pub id : String
  pub work_dir : String

pub record StatusReport : Type 0 where
  pub status : String
  pub reason : String
  pub endpoint : String
  pub work_dir : String
  pub token : String
  pub pid : ℕ
  pub env : String

-- An event that the sink publishes.
pub record Published : Type 0 where
  pub project_id : String
  pub name : String
  pub event_type : String

-- A report whose notebook has been read.
pub record PendingReport : Type 0 where
  pub snapshot : NotebookServer
  pub report : StatusReport

-- The tables, the reports under way and the events published so far.
pub record NotebookStore : Type 0 where
  pub servers : List NotebookServer
  pub history : List NotebookHistory
  pub volumes : List Volume
  pub pending : List PendingReport
  pub published : List Published

-- WHERE project_id=? AND name=?
unfoldable pub is_server : String → String → NotebookServer → Bool
is_server project_id name nb = str_eq nb.project_id project_id && str_eq nb.name name

-- notebookRepo.Get
unfoldable pub get_server : String → String → List NotebookServer → Option NotebookServer
get_server project_id name [] = none
get_server project_id name (nb ∷ servers) =
    if is_server project_id name nb then some nb else get_server project_id name servers

-- An UPDATE of one server; project_id and name are the primary key.
unfoldable pub update_server :
    String → String → (NotebookServer → NotebookServer) → List NotebookServer → List NotebookServer
update_server project_id name change [] = []
update_server project_id name change (nb ∷ servers) =
    let rest = update_server project_id name change servers in
    if is_server project_id name nb then change nb ∷ servers else nb ∷ rest

-- status IN (stopped, failed)
unfoldable pub has_ended : String → Bool
has_ended status = str_eq status "stopped" || str_eq status "failed"

-- The row of a run.
unfoldable pub is_run : String → String → ℕ → NotebookHistory → Bool
is_run project_id name deployed_at h =
    str_eq h.project_id project_id && str_eq h.name name && h.deployed_at == deployed_at

unfoldable pub end_history : ℕ → NotebookServer → NotebookHistory → NotebookHistory
end_history now nb h =
    if is_run nb.project_id nb.name nb.started_at h
    then record h { status = nb.status; reason = nb.reason; stopped_at = now }
    else h

unfoldable pub new_history : ℕ → NotebookServer → NotebookHistory
new_history now nb = record {
  project_id = nb.project_id;
  name = nb.name;
  status = nb.status;
  env = nb.env;
  endpoint = nb.endpoint;
  pid = nb.pid;
  work_dir = nb.work_dir;
  runtime_id = nb.runtime_id;
  volume_id = nb.volume_id;
  reason = nb.reason;
  yaml = nb.yaml;
  created_by = nb.created_by;
  deployed_at = nb.started_at;
  stopped_at = now;
}

-- The update or the insertion of the run's row.
unfoldable pub record_run : ℕ → NotebookServer → List NotebookHistory → List NotebookHistory
record_run now nb history =
    if any (is_run nb.project_id nb.name nb.started_at) history
    then map (end_history now nb) history
    else history ++ new_history now nb ∷ []

unfoldable pub ended_server : ℕ → (status reason : String) → NotebookServer → NotebookServer
ended_server now status reason nb = record nb {
  status = status;
  reason = reason;
  endpoint = "";
  pid = 0;
  token = "";
  updated_at = now;
}

-- FinishRun on the row that it finds.
unfoldable pub finish_server :
    ℕ → (status reason : String) → Option NotebookServer → NotebookStore → Bool × NotebookStore
finish_server now status reason none s = (false, s)
finish_server now status reason (some nb) s = if has_ended nb.status then (false, s) else (
  true,
  record s {
    servers = update_server nb.project_id nb.name (ended_server now status reason) s.servers;
    history = record_run now (ended_server now status reason nb) s.history;
  },
)

unfoldable pub finish_run :
    ℕ → (project_id name status reason : String) → NotebookStore → Bool × NotebookStore
finish_run now project_id name status reason s =
    finish_server now status reason (get_server project_id name s.servers) s

-- StartRun
unfoldable pub start_run : ℕ → (project_id name : String) → NotebookStore → NotebookStore
start_run now project_id name s = record s {
  servers =
      update_server project_id name
        (λ nb. record nb { status = "starting"; reason = ""; started_at = now; updated_at = now })
        s.servers;
}

-- SetStatus
unfoldable pub set_status :
    ℕ → (project_id name status reason : String) → NotebookStore → NotebookStore
set_status now project_id name status reason s = record s {
  servers =
      update_server project_id name
        (λ nb. record nb { status = status; reason = reason; updated_at = now }) s.servers;
}

-- The row that notebookRepo.Update writes over the current one.
unfoldable pub written_server : ℕ → NotebookServer → NotebookServer → NotebookServer
written_server now new nb = record nb {
  status = new.status;
  env = new.env;
  endpoint = new.endpoint;
  pid = new.pid;
  work_dir = new.work_dir;
  token = new.token;
  runtime_id = new.runtime_id;
  volume_id = new.volume_id;
  reason = new.reason;
  yaml = new.yaml;
  updated_at = now;
}

-- notebookRepo.Delete
unfoldable pub delete_server : String → String → List NotebookServer → List NotebookServer
delete_server project_id name [] = []
delete_server project_id name (nb ∷ servers) =
    let rest = delete_server project_id name servers in
    if is_server project_id name nb then rest else nb ∷ rest
