-- ===== src/Tests/Notebook.antt =====
-- pkg/notebook/status.go: the theorems at one notebook whose run ends while a report is under way.
use piper.Notebooks.History.{notebook_run-rows, count_runs_of}
use piper.Notebooks.Late.{notebook_run-late, around}
use piper.Notebooks.Sink.{notebook_run, finished, is_owned}
use piper.Notebooks.{NotebookServer, NotebookStore, StatusReport, get_server, is_server, has_ended}
use piper.Prelude.{true, false, some, [], ◌∷◌, ◌≡◌, refl, ◌≤◌, arith}

abbrev lab : NotebookServer
lab = record {
  project_id = "p";
  name = "lab";
  status = "starting";
  reason = "";
  env = "";
  endpoint = "";
  pid = 0;
  token = "";
  work_dir = "/w";
  runtime_id = "";
  volume_id = "";
  yaml = "";
  created_by = "u";
  started_at = 10;
  updated_at = 10;
}

abbrev notebooks : NotebookStore
notebooks = record { servers = lab ∷ []; history = []; volumes = []; pending = []; published = [] }

abbrev running_report : StatusReport
running_report = record {
  status = "running";
  reason = "";
  endpoint = "http://lab";
  work_dir = "";
  token = "";
  pid = 7;
  env = "";
}

lab-found : get_server "p" "lab" notebooks.servers ≡ some lab
unfolding get_server is_server
lab-found = refl

lab-owned : is_owned "k8s" lab ≡ true
unfolding is_owned
lab-owned = refl

lab-open : has_ended "starting" ≡ false
unfolding has_ended
lab-open = refl

running-open : has_ended "running" ≡ false
unfolding has_ended
running-open = refl

notebook_run-late_example :
    (x : NotebookServer) × (get_server "p" "lab"
        (notebook_run (around "p" "k8s" "lab" running_report 20 30) notebooks).servers
      ≡ some x)
    × (x.status ≡ "running")
notebook_run-late_example =
    notebook_run-late notebooks lab "p" "k8s" "lab" running_report 20 30 lab-found refl lab-owned
      lab-open refl running-open

notebook_run-rows_example :
    count_runs_of "p" "lab" 10
      (notebook_run
        (finished 40 "p" "lab" "stopped" "" ∷ around "p" "" "lab" running_report 20 30)
        notebooks).history
    ≤ 1
notebook_run-rows_example =
    notebook_run-rows "p" "lab" 10
      (finished 40 "p" "lab" "stopped" "" ∷ around "p" "" "lab" running_report 20 30) notebooks
      (omega arith)
