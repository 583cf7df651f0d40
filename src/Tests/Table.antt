-- ===== src/Tests/Table.antt =====
-- internal/store/sqlite/integration_outbox.go and pkg/integration/outbox/dispatcher.go: the theorems
-- at a table with two events of one run.
use piper.Outbox.Batch.{claim_batch-aggregate}
use piper.Outbox.Progress.{Member}
use piper.Outbox.Final.{execute_all-settled, find_event}
use piper.Outbox.Settled.{poll_once-settles}
use piper.Outbox.Order.{claim_batch-IsFirst, IsFirst}
use piper.Outbox.Backoff.{window-power, backoff_bounded, power, smaller, backoff, window}
use piper.Outbox.{
  claimed_event, same_aggregate, is_leased_to, claim_batch, OutboxEvent, EventStatus,
}
use piper.Outbox.Dispatcher.{poll_once, DispatcherConfig, Outcome}
use piper.Outbox.Leases.{
  claim_one, execute_all-IsLeaseSound, execute_all, IsLeaseSound, Statement, insert, claim,
  retry_event, disable,
}
use piper.Prelude.{
  length, ◌⊎◌, inl, inr, some, ◌*◌, ◌-◌, any, ◌∷◌, [], arith, List, ◌≡◌, ◌≤◌, All, true, false,
  none, refl,
}

abbrev started : OutboxEvent
started = record {
  id = "e1";
  integration_id = "mlflow";
  project_id = "p";
  aggregate_type = "pipeline_run";
  aggregate_id = "r1";
  sequence = 1;
  event_type = "run_started";
  payload_json = "";
  status = EventStatus.pending;
  attempts = 0;
  next_attempt_at = 3;
  lease_owner = "";
  lease_expires_at = none;
  last_error_code = "";
  last_error = "";
  created_at = 3;
  delivered_at = none;
}

abbrev finished : OutboxEvent
finished = record started { id = "e2"; sequence = 2; event_type = "run_finished" }

abbrev table : List OutboxEvent
table = started ∷ finished ∷ []

abbrev statements : List Statement
statements =
    insert 4 "e3" true (record started { id = ""; sequence = 0; event_type = "metric" })
    ∷ claim 5 "server-1" 30 20
    ∷ claim_one 6 "server-2" 40 "e1"
    ∷ retry_event "e1" "server-1" 9 "503" "unavailable"
    ∷ disable "mlflow"
    ∷ []

execute_all-IsLeaseSound_example : All IsLeaseSound (execute_all statements table)
execute_all-IsLeaseSound_example =
    execute_all-IsLeaseSound statements table ((refl, refl), ((refl, refl), tt))

claim_batch-IsFirst_example : All (IsFirst table) (claim_batch 5 "server-1" 30 20 table).1
claim_batch-IsFirst_example = claim_batch-IsFirst 5 "server-1" 30 20 table

window-power_example : window 2000 300000 4 ≡ smaller (2000 * power (4 - 1)) 300000
window-power_example = window-power 2000 300000 4

backoff_bounded_example :
    (backoff (λ n. n - 1) 2000 300000 4 ≤ 2000 * power (4 - 1))
    × (backoff (λ n. n - 1) 2000 300000 4 ≤ 300000)
backoff_bounded_example = backoff_bounded (λ n. n - 1) 2000 300000 4 (λ n. omega arith)

abbrev server : DispatcherConfig
server = record {
  owner = "server-1";
  concurrency = 1;
  batch_size = 20;
  poll_interval = 5000;
  lease_duration = 30000;
  max_attempts_before_dead = 20;
  base_backoff = 2000;
  max_backoff = 300000;
}

abbrev unavailable : Outcome
unavailable = record {
  delivered = false;
  retryable = true;
  retry_after = 0;
  error_code = "503";
  error_message = "";
}

poll_once-settles_example :
    All
      (λ e.
        any (is_leased_to e.id "server-1") (poll_once 5 (λ n. 0) server (λ e. unavailable) table).0
        ≡ false)
      (claim_batch 5 "server-1" 30000 20 table).1
poll_once-settles_example = poll_once-settles 5 (λ n. 0) server (λ e. unavailable) table

abbrev dead_letter : OutboxEvent
dead_letter = record started { status = EventStatus.dead; attempts = 20 }

execute_all-settled_example :
    find_event "e1" (execute_all statements (dead_letter ∷ finished ∷ [])) ≡ some dead_letter
execute_all-settled_example =
    execute_all-settled statements (dead_letter ∷ finished ∷ []) "e1" dead_letter refl refl

claim_batch-aggregate_example :
    (x : OutboxEvent) × (same_aggregate x finished ≡ true)
    × (Member (claimed_event "server-1" 38 x) (claim_batch 8 "server-1" 30 20 table).1
        ⊎ (length (claim_batch 8 "server-1" 30 20 table).1 ≡ 20))
claim_batch-aggregate_example =
    claim_batch-aggregate 8 "server-1" 30 20 table finished (((refl, tt)), (tt, tt))
      ((refl, refl), ((refl, refl), tt)) (omega arith, (omega arith, tt)) (inr (inl refl)) refl
