-- ===== src/Tests/Storage.antt =====
-- internal/queue/queue.go: the theorems on flushes and on task ids at concrete inputs.
use piper.Queue.Callbacks.{}
use piper.Queue.Flush.Once.{flush_writes-wins, persist_with_retry_iff, SucceedsAt, open_rows, wins}
use piper.Queue.Flush.{fails, succeeds, max_tries, flush_writes, Verdict, Db, persist_with_retry}
use piper.Queue.TaskId.{
  make_task_id-split_task_id, has_colon, split_task_id-make_task_id, make_task_id, split_task_id,
}
use piper.Queue.Complete.{}
use piper.Queue.Types.{RunStatus, finalize, Write}
use piper.Prelude.{
  ◌≤◌, ◌+◌, ◌<◌, ◌==◌, if◌then◌else◌, ◌↔◌, ℕ, ◌≡◌, some, none, List, [], ◌∷◌, true, false, refl,
}

-- The second try of every write succeeds.
abbrev second_try : ℕ → Verdict
second_try n = if n == 2 then succeeds else fails

persist_with_retry_iff_example :
    (persist_with_retry second_try ≡ true) ↔ ((k : ℕ) × (k < max_tries) × SucceedsAt second_try 1 k)
persist_with_retry_iff_example = persist_with_retry_iff second_try

abbrev open_db : Db
open_db = record {
  runs = record { project_id = "p"; id = "r1"; status = none; ended_at = none } ∷ [];
  steps = [];
}

-- Cancel and the last report finalize the same run.
abbrev two_finalizations : List Write
two_finalizations =
    finalize 0 "p" "r1" RunStatus.canceled 5 ∷ finalize 1 "p" "r1" RunStatus.success 6 ∷ []

flush_writes-wins_example :
    wins "p" "r1" (flush_writes (λ i. second_try) 0 two_finalizations open_db).1
      + open_rows "p" "r1" (flush_writes (λ i. second_try) 0 two_finalizations open_db).0.runs
    ≤ open_rows "p" "r1" open_db.runs
flush_writes-wins_example = flush_writes-wins "p" "r1" (λ i. second_try) 0 two_finalizations open_db

split_task_id-make_task_id_example :
    split_task_id (make_task_id "r1" "train:gpu") ≡ some ("r1", "train:gpu")
split_task_id-make_task_id_example = split_task_id-make_task_id "r1" "train:gpu" refl

make_task_id-split_task_id_example :
    (make_task_id "r1" "train:gpu" ≡ "r1:train:gpu") × (has_colon "r1" ≡ false)
unfolding split_task_id
make_task_id-split_task_id_example = make_task_id-split_task_id "r1:train:gpu" "r1" "train:gpu" refl
