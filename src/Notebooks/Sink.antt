-- ===== src/Notebooks/Sink.antt =====
-- pkg/notebook/status.go: StatusSink. A report is handled in two sections: its read with the checks,
-- and what it writes.
use piper.Notebooks.{
  NotebookServer, Volume, StatusReport, PendingReport, NotebookStore, get_server, update_server,
  has_ended, finish_run, start_run, set_status, delete_server, written_server,
}
use piper.Prelude.{
  not, ◌&&◌, ℕ, String, Bool, Option, none, some, List, [], ◌∷◌, ◌||◌, ◌==◌, map, pick, str_eq,
  if◌then◌else◌,
}

-- `if x != "" { y = x }`
abbrev pub or_kept : String → String → String
or_kept x y = if str_eq x "" then y else x

-- The snapshot with the report's fields.
unfoldable pub reported_server : StatusReport → NotebookServer → NotebookServer
reported_server r nb = record nb {
  status = or_kept r.status nb.status;
  reason = if str_eq r.status "" then nb.reason else r.reason;
  endpoint = or_kept r.endpoint nb.endpoint;
  work_dir = or_kept r.work_dir nb.work_dir;
  token = or_kept r.token nb.token;
  pid = if r.pid == 0 then nb.pid else r.pid;
  env = or_kept r.env nb.env;
}

-- The work directory of the notebook's volume; `nb` is the reported row.
unfoldable pub write_volumes : StatusReport → NotebookServer → List Volume → List Volume
write_volumes r nb volumes =
    if str_eq r.work_dir "" || str_eq nb.volume_id ""
    then volumes
    else map (λ v. if str_eq v.id nb.volume_id then record v { work_dir = r.work_dir } else v)
        volumes

unfoldable pub event_type : String → String
event_type status =
    if str_eq status "running"
    then "notebook.running"
    else if str_eq status "stopped"
    then "notebook.stopped"
    else if str_eq status "failed"
    then "notebook.failed"
    else "notebook.status"

-- publish
unfoldable pub publish_status :
    (project_id name : String) → StatusReport → NotebookStore → NotebookStore
publish_status project_id name r s = record s {
  published =
      record { project_id = project_id; name = name; event_type = event_type r.status }
      ∷ s.published;
}

-- The ownership test of StatusSink.Update.
unfoldable pub is_owned : String → NotebookServer → Bool
is_owned runtime_id nb =
    str_eq runtime_id "" || str_eq nb.runtime_id "" || str_eq nb.runtime_id runtime_id

unfoldable pub accept_report :
    String → StatusReport → Option NotebookServer → NotebookStore → NotebookStore
accept_report runtime_id r none s = s
accept_report runtime_id r (some nb) s =
    if is_owned runtime_id nb
    then record s { pending = record { snapshot = nb; report = r } ∷ s.pending }
    else s

-- StatusSink.Update up to the read and the checks; an error leaves everything as it is.
unfoldable pub begin_update :
    (project_id runtime_id name : String) → StatusReport → NotebookStore → NotebookStore
begin_update project_id runtime_id name r s =
    if str_eq project_id ""
    then s
    else accept_report runtime_id r (get_server project_id name s.servers) s

unfoldable pub publish_finished :
    (project_id name : String) → StatusReport → Bool × NotebookStore → NotebookStore
publish_finished project_id name r (finished, s) =
    if finished then publish_status project_id name r s else s

-- The full-row update, and the event if the status is a new one.
unfoldable pub write_report : ℕ → PendingReport → NotebookStore → NotebookStore
write_report now u s =
    let nb = reported_server u.report u.snapshot in
    let written = record s {
      servers = update_server nb.project_id nb.name (written_server now nb) s.servers;
      volumes = write_volumes u.report nb s.volumes;
    } in
    if str_eq u.report.status "" || str_eq u.report.status u.snapshot.status
    then written
    else publish_status nb.project_id nb.name u.report written

-- The rest of StatusSink.Update.
unfoldable pub end_update : ℕ → PendingReport → NotebookStore → NotebookStore
end_update now u s =
    if has_ended u.report.status
    then publish_finished u.snapshot.project_id u.snapshot.name u.report
        (finish_run now u.snapshot.project_id u.snapshot.name u.report.status u.report.reason s)
    else write_report now u s

unfoldable pub resume_update :
    ℕ → Option (PendingReport × List PendingReport) → NotebookStore → NotebookStore
resume_update now none s = s
resume_update now (some (u, rest)) s = end_update now u (record s { pending = rest })

-- What happens to notebooks. `reported` and `resumed` are the two sections of a report; a write that
-- fails is one that does not happen.
pub data NotebookInput : Type 0 where
  reported : (project_id runtime_id name : String) → StatusReport → NotebookInput
  resumed : (now n : ℕ) → NotebookInput
  dropped : (n : ℕ) → (volume_written : Bool) → NotebookInput
  started : (now : ℕ) → (project_id name : String) → NotebookInput
  set : (now : ℕ) → (project_id name status reason : String) → NotebookInput
  finished : (now : ℕ) → (project_id name status reason : String) → NotebookInput
  deleted : (project_id name : String) → NotebookInput

-- A report whose row is not written; its volume, which comes first, may be.
unfoldable pub drop_update :
    Bool → Option (PendingReport × List PendingReport) → NotebookStore → NotebookStore
drop_update volume_written none s = s
drop_update volume_written (some (u, rest)) s = record s {
  pending = rest;
  volumes =
      if volume_written && not (has_ended u.report.status)
      then write_volumes u.report (reported_server u.report u.snapshot) s.volumes
      else s.volumes;
}

unfoldable pub notebook_step : NotebookInput → NotebookStore → NotebookStore
notebook_step (reported p rt name r) s = begin_update p rt name r s
notebook_step (resumed now n) s = resume_update now (pick n s.pending) s
notebook_step (dropped n volume_written) s = drop_update volume_written (pick n s.pending) s
notebook_step (started now p name) s = start_run now p name s
notebook_step (set now p name status reason) s = set_status now p name status reason s
notebook_step (finished now p name status reason) s = (finish_run now p name status reason s).1
notebook_step (deleted p name) s = record s { servers = delete_server p name s.servers }

unfoldable pub notebook_run : List NotebookInput → NotebookStore → NotebookStore
notebook_run [] s = s
notebook_run (i ∷ inputs) s = notebook_run inputs (notebook_step i s)
