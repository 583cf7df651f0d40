-- ===== src/Outbox/Dispatcher.antt =====
-- pkg/integration/outbox/dispatcher.go: Config and Dispatcher. Go's ints and durations that are not
-- positive are 0. The handler is a parameter: its answer to an event is an Outcome.
use piper.Outbox.{mark_delivered, mark_retry, mark_dead, claim_batch, OutboxEvent}
use piper.Outbox.Backoff.{backoff}
use piper.Prelude.{◌+◌, length, leb, ◌∷◌, List, ◌==◌, not, if◌then◌else◌, [], ℕ, String, Bool}

pub record Outcome : Type 0 where
  pub delivered : Bool
  pub retryable : Bool
  pub retry_after : ℕ
  pub error_code : String
  pub error_message : String

-- Durations are in milliseconds.
pub record DispatcherConfig : Type 0 where
  pub owner : String
  pub concurrency : ℕ
  pub batch_size : ℕ
  pub poll_interval : ℕ
  pub lease_duration : ℕ
  pub max_attempts_before_dead : ℕ
  pub base_backoff : ℕ
  pub max_backoff : ℕ

abbrev pub or_number : ℕ → ℕ → ℕ
or_number n d = if n == 0 then d else n

-- Config.withDefaults
unfoldable pub config_with_defaults : DispatcherConfig → DispatcherConfig
config_with_defaults c = record c {
  concurrency = or_number c.concurrency 1;
  batch_size = or_number c.batch_size 20;
  poll_interval = or_number c.poll_interval 5000;
  lease_duration = or_number c.lease_duration 30000;
  max_attempts_before_dead = or_number c.max_attempts_before_dead 20;
  base_backoff = or_number c.base_backoff 2000;
  max_backoff = or_number c.max_backoff 300000;
}

-- The delay before the next try: what the handler asks for, or the backoff.
unfoldable pub retry_delay : (ℕ → ℕ) → DispatcherConfig → Outcome → OutboxEvent → ℕ
retry_delay jitter cfg o e =
    if o.retry_after == 0
    then backoff jitter cfg.base_backoff cfg.max_backoff e.attempts
    else o.retry_after

-- What process decides for an event.
pub data Decision : Type 0 where
  deliver bury bury_and_notify retry_later : Decision

unfoldable pub decide : DispatcherConfig → Outcome → OutboxEvent → Decision
decide cfg o e =
    if o.delivered
    then deliver
    else if not o.retryable
    then bury
    else if leb cfg.max_attempts_before_dead e.attempts
    then bury_and_notify
    else retry_later

-- The table behind the one statement that the decision stands for.
unfoldable pub carry_out :
    ℕ
    → (ℕ → ℕ)
    → DispatcherConfig
    → Outcome
    → OutboxEvent
    → List OutboxEvent
    → Decision
    → List OutboxEvent
carry_out now jitter cfg o e rows deliver = (mark_delivered now e.id cfg.owner rows).0
carry_out now jitter cfg o e rows bury =
    (mark_dead e.id cfg.owner o.error_code o.error_message rows).0
carry_out now jitter cfg o e rows bury_and_notify =
    (mark_dead e.id cfg.owner o.error_code o.error_message rows).0
carry_out now jitter cfg o e rows retry_later =
    (mark_retry e.id cfg.owner (now + retry_delay jitter cfg o e) o.error_code o.error_message
      rows).0

-- process, where its statement succeeds. NotifyDead is the handler's.
unfoldable pub process :
    ℕ → (ℕ → ℕ) → DispatcherConfig → Outcome → OutboxEvent → List OutboxEvent → List OutboxEvent
process now jitter cfg o e rows = carry_out now jitter cfg o e rows (decide cfg o e)

-- The events of a batch at concurrency 1, each at the same time.
unfoldable pub process_each :
    ℕ
    → (ℕ → ℕ)
    → DispatcherConfig
    → (OutboxEvent → Outcome)
    → List OutboxEvent
    → List OutboxEvent
    → List OutboxEvent
process_each now jitter cfg handle [] rows = rows
process_each now jitter cfg handle (e ∷ es) rows =
    process_each now jitter cfg handle es (process now jitter cfg (handle e) e rows)

-- PollOnce, where every statement succeeds.
unfoldable pub poll_once :
    ℕ
    → (ℕ → ℕ)
    → DispatcherConfig
    → (OutboxEvent → Outcome)
    → List OutboxEvent
    → List OutboxEvent × ℕ
poll_once now jitter cfg handle rows =
    let (rows', batch) = claim_batch now cfg.owner cfg.lease_duration cfg.batch_size rows in
    (process_each now jitter cfg handle batch rows', length batch)
