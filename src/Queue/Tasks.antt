-- ===== src/Queue/Tasks.antt =====
-- internal/queue/queue.go: the maps of runs and of tasks, and the sweeps over the tasks of a run.
use piper.Prelude.{
  String, Bool, true, false, Option, none, some, List, [], ◌∷◌, str_eq, has, all, any,
  if◌then◌else◌,
}
use piper.Queue.Types.{TaskEntry, RunEntry, TaskStatus, Queue, RunStatus}

-- The key of an entry in its map of tasks.
abbrev pub key : TaskEntry → String
key e = e.step.name

abbrev pub names : List TaskEntry → List String
names [] = []
names (e ∷ tasks) = key e ∷ names tasks

-- r.tasks[name]
unfoldable pub find_task : String → List TaskEntry → Option TaskEntry
find_task name [] = none
find_task name (e ∷ tasks) = if str_eq (key e) name then some e else find_task name tasks

-- A write through the pointer to an entry of the map.
unfoldable pub put_task : TaskEntry → List TaskEntry → List TaskEntry
put_task e [] = []
put_task e (x ∷ tasks) = if str_eq (key x) (key e) then e ∷ tasks else x ∷ put_task e tasks

-- r.tasks[name] = entry
unfoldable pub set_task : TaskEntry → List TaskEntry → List TaskEntry
set_task e [] = e ∷ []
set_task e (x ∷ tasks) = if str_eq (key x) (key e) then e ∷ tasks else x ∷ set_task e tasks

-- q.runs[run_id]
unfoldable pub find_run : String → List RunEntry → Option RunEntry
find_run run_id [] = none
find_run run_id (r ∷ runs) = if str_eq r.run_id run_id then some r else find_run run_id runs

-- q.runs[r.run_id] = r; for a run that is there, a write through its pointer.
unfoldable pub set_run : RunEntry → List RunEntry → List RunEntry
set_run r [] = r ∷ []
set_run r (x ∷ runs) = if str_eq x.run_id r.run_id then r ∷ runs else x ∷ set_run r runs

-- delete(q.runs, run_id)
unfoldable pub delete_run : String → List RunEntry → List RunEntry
delete_run run_id [] = []
delete_run run_id (x ∷ runs) =
    if str_eq x.run_id run_id then delete_run run_id runs else x ∷ delete_run run_id runs

abbrev pub store_run : RunEntry → Queue → Queue
store_run r q = record q { runs = set_run r q.runs }

abbrev pub is_finished : TaskStatus → Bool
is_finished TaskStatus.done = true
is_finished TaskStatus.skipped = true
is_finished _ = false

-- doneNames: the map's keys with value true.
unfoldable pub done_names : List TaskEntry → List String
done_names [] = []
done_names (e ∷ tasks) =
    let rest = done_names tasks in if is_finished e.status then key e ∷ rest else rest

unfoldable pub deps_all_done : List String → List String → Bool
deps_all_done deps done = all (λ d. has d done) deps

-- allTerminal does not count canceled entries: Cancel ends its run itself.
abbrev pub is_settled : TaskStatus → Bool
is_settled TaskStatus.done = true
is_settled TaskStatus.failed = true
is_settled TaskStatus.skipped = true
is_settled _ = false

unfoldable pub all_terminal : List TaskEntry → Bool
all_terminal tasks = all (λ e. is_settled e.status) tasks

abbrev pub is_failed : TaskStatus → Bool
is_failed TaskStatus.failed = true
is_failed _ = false

-- The status of a run whose tasks are all settled.
unfoldable pub run_outcome : List TaskEntry → RunStatus
run_outcome tasks =
    if any (λ e. is_failed e.status) tasks then RunStatus.failed else RunStatus.success
