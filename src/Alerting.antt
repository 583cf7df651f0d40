-- ===== src/Alerting.antt =====
-- internal/alerting/engine.go and internal/store/sqlite/alert_rule.go: alert rules that fire. Times are
-- nanoseconds.
pub mod Rules
pub mod Claims
pub mod Cooldown
use piper.Prelude.{
  ◌%◌, ◌-◌, ◌-◌, ℕ, ◌+◌, ◌*◌, String, Bool, true, false, Option, none, some, List, [], ◌∷◌, ◌++◌,
  ◌&&◌, leb, ltb, length, str_eq, if◌then◌else◌,
}

-- Rule, without what it matches, which a parameter tells, and its name and creation.
pub record AlertRule : Type 0 where
  pub id : String
  pub project_id : String
  pub notify : List String
  pub cooldown_seconds : ℕ
  pub enabled : Bool
  pub last_matched_at : Option ℕ
  pub last_attempted_at : Option ℕ
  pub last_success_at : Option ℕ
  pub last_error : String
  pub updated_at : ℕ

-- WHERE project_id=? AND id=?
unfoldable pub is_rule : String → String → AlertRule → Bool
is_rule project_id id rule = str_eq rule.project_id project_id && str_eq rule.id id

-- An UPDATE of one rule; whether a row is affected.
unfoldable pub update_rule :
    String
    → String
    → (AlertRule → Bool)
    → (AlertRule → AlertRule)
    → List AlertRule
    → Bool × List AlertRule
update_rule project_id id clause change [] = (false, [])
update_rule project_id id clause change (rule ∷ rows) =
    let (affected, rest) = update_rule project_id id clause change rows in
    if is_rule project_id id rule
    then (if clause rule then (true, change rule ∷ rows) else (false, rule ∷ rows))
    else (affected, rule ∷ rest)

-- The cooldown in nanoseconds, as long as nothing wraps.
abbrev pub nanoseconds : ℕ → ℕ
nanoseconds seconds = seconds * 1000000000

-- 2 ^ 63 and 2 ^ 64: a time.Duration is an int64, here its bit pattern.
abbrev pub int64_sign : ℕ
int64_sign = 9223372036854775808

abbrev pub int64_size : ℕ
int64_size = 18446744073709551616

-- time.Duration(seconds) * time.Second
unfoldable pub duration : ℕ → ℕ
duration seconds = nanoseconds seconds % int64_size

-- last <= now.Add(-d): the negation of a pattern wraps too, so it is a wait for patterns up to the
-- sign bit, and otherwise a time to come.
unfoldable pub not_after : (last now d : ℕ) → Bool
not_after last now d =
    if leb d int64_sign then leb (last + d) now else leb last (now + (int64_size - d))

-- last_attempted_at IS NULL OR last_attempted_at <= cooldownBefore
unfoldable pub is_cooled_down : (now cooldown : ℕ) → Option ℕ → Bool
is_cooled_down now cooldown none = true
is_cooled_down now cooldown (some last) = not_after last now cooldown

unfoldable pub claimed_rule : ℕ → AlertRule → AlertRule
claimed_rule now rule = record rule {
  last_matched_at = some now;
  last_attempted_at = some now;
  last_error = "";
  updated_at = now;
}

-- TryClaimFire, with the Duration that cooldownBefore is computed from.
unfoldable pub try_claim_fire :
    (project_id id : String) → (now cooldown : ℕ) → List AlertRule → Bool × List AlertRule
try_claim_fire project_id id now cooldown rows =
    update_rule project_id id
      (λ rule. rule.enabled && is_cooled_down now cooldown rule.last_attempted_at)
      (claimed_rule now) rows

-- RecordDelivery
unfoldable pub record_delivery :
    (project_id id : String)
    → (at : ℕ) → (success : Bool) → String
    → List AlertRule
    → List AlertRule
record_delivery project_id id at success message rows =
    (update_rule project_id id (λ rule. true)
      (λ rule.
        if success
        then record rule { last_success_at = some at; last_error = ""; updated_at = at }
        else record rule { last_error = message; updated_at = at })
      rows).1

-- deliveryJob
pub record DeliveryJob : Type 0 where
  pub project_id : String
  pub rule_id : String
  pub credential_ref : String

-- A claim of a rule, with the cooldown in nanoseconds that the rule asks for.
pub record FireClaim : Type 0 where
  pub project_id : String
  pub rule_id : String
  pub at : ℕ
  pub cooldown : ℕ

-- The table, the rules that Refresh has read, the delivery queue and the claims, the latest first.
pub record AlertEngine : Type 0 where
  pub rows : List AlertRule
  pub rules : List AlertRule
  pub jobs : List DeliveryJob
  pub claims : List FireClaim

abbrev pub delivery_queue_size : ℕ
delivery_queue_size = 256

abbrev pub queue_full : String
queue_full = "notification delivery queue is full"

-- One credential of a rule that fires: a full queue drops the notification.
unfoldable pub enqueue_job : (now : ℕ) → AlertRule → String → AlertEngine → AlertEngine
enqueue_job now rule ref e =
    if ltb (length e.jobs) delivery_queue_size
    then record e {
      jobs =
          e.jobs
          ++ record { project_id = rule.project_id; rule_id = rule.id; credential_ref = ref } ∷ [];
    }
    else record e { rows = record_delivery rule.project_id rule.id now false queue_full e.rows }

unfoldable pub enqueue_jobs : (now : ℕ) → AlertRule → List String → AlertEngine → AlertEngine
enqueue_jobs now rule [] e = e
enqueue_jobs now rule (ref ∷ refs) e = enqueue_jobs now rule refs (enqueue_job now rule ref e)

-- What follows the claim of a rule.
unfoldable pub after_claim :
    (now : ℕ) → AlertRule → Bool × List AlertRule → AlertEngine → AlertEngine
after_claim now rule (claimed, rows) e =
    if claimed
    then enqueue_jobs now rule rule.notify (record e {
      rows = rows;
      claims =
          record {
            project_id = rule.project_id;
            rule_id = rule.id;
            at = now;
            cooldown = nanoseconds rule.cooldown_seconds;
          }
          ∷ e.claims;
    })
    else record e { rows = rows }

-- One rule of evaluate that matches; a claim that fails is one that does not happen.
unfoldable pub fire_rule : (now : ℕ) → (fails : Bool) → AlertRule → AlertEngine → AlertEngine
fire_rule now fails rule e =
    if fails
    then e
    else after_claim now rule
        (try_claim_fire rule.project_id rule.id now (duration rule.cooldown_seconds) e.rows) e

-- `matches` tells which rules match the event, and `clock` and `fails` when a rule comes and whether
-- its claim fails.
module _ (matches : AlertRule → Bool) (clock : AlertRule → ℕ) (fails : AlertRule → Bool)
    (project_id : String) where
  unfoldable pub consider_rule : AlertRule → AlertEngine → AlertEngine
  consider_rule rule e =
      if str_eq rule.project_id project_id && matches rule
      then fire_rule (clock rule) (fails rule) rule e
      else e

  -- evaluate, over the rules of the event's project.
  unfoldable pub evaluate_rules : List AlertRule → AlertEngine → AlertEngine
  evaluate_rules [] e = e
  evaluate_rules (rule ∷ rules) e = evaluate_rules rules (consider_rule rule e)

unfoldable pub enabled_rules : List AlertRule → List AlertRule
enabled_rules [] = []
enabled_rules (rule ∷ rows) =
    let rest = enabled_rules rows in if rule.enabled then rule ∷ rest else rest

-- Events that come, rules that are read again, deliveries that end, and the user's changes of a rule.
pub data AlertInput : Type 0 where
  event :
      (matches : AlertRule → Bool)
      → (clock : AlertRule → ℕ) → (fails : AlertRule → Bool) → (project_id : String) → AlertInput
  refresh : AlertInput
  delivered : (at : ℕ) → (success : Bool) → (message : String) → AlertInput
  edited :
      (project_id id : String)
      → (notify : List String) → (cooldown now : ℕ) → (enabled : Bool) → AlertInput

unfoldable pub deliver_job :
    (at : ℕ) → (success : Bool) → (message : String) → List DeliveryJob → AlertEngine → AlertEngine
deliver_job at success message [] e = e
deliver_job at success message (job ∷ jobs) e = record e {
  jobs = jobs;
  rows = record_delivery job.project_id job.rule_id at success message e.rows;
}

unfoldable pub alert_step : AlertInput → AlertEngine → AlertEngine
alert_step (event matches clock fails project_id) e =
    evaluate_rules matches clock fails project_id e.rules e
alert_step refresh e = record e { rules = enabled_rules e.rows }
alert_step (delivered at success message) e = deliver_job at success message e.jobs e
alert_step (edited p id notify cooldown now enabled) e = record e {
  rows =
      (update_rule p id (λ rule. true)
        (λ rule. record rule {
          notify = notify;
          cooldown_seconds = cooldown;
          enabled = enabled;
          updated_at = now;
        })
        e.rows).1;
}

unfoldable pub alert_run : List AlertInput → AlertEngine → AlertEngine
alert_run [] e = e
alert_run (i ∷ inputs) e = alert_run inputs (alert_step i e)
