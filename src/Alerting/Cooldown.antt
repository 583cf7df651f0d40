-- ===== src/Alerting/Cooldown.antt =====
-- internal/alerting/engine.go: the time between two firings of a rule.
use piper.Alerting.Rules.{get_rule, update_rule-OnRule}
use piper.Alerting.{
  consider_rule, AlertRule, is_rule, DeliveryJob, AlertEngine, evaluate_rules, AlertInput, event,
  refresh, delivered, edited, deliver_job, alert_step, alert_run,
}
use piper.Alerting.Claims.{
  Fits, Cool, Latest, RowLatest, Spaced, claim_times, fire_rule-Cool, record_delivery-Cool,
}
use piper.Prelude.{
  ◌&&◌, ℕ, String, Bool, Option, none, some, List, [], ◌∷◌, ◌≡◌, refl, Bool-cases, inl, inr, str_eq,
}

module _ (p id : String) where
  consider_rule-Cool :
      (matches : AlertRule → Bool) (clock : AlertRule → ℕ) (fails : AlertRule → Bool) (q : String)
      (rule : AlertRule) (e : AlertEngine)
      → Cool p id e.rows e.claims
      → Cool p id
          (consider_rule matches clock fails q rule e).rows
          (consider_rule matches clock fails q rule e).claims
  unfolding consider_rule
  consider_rule-Cool matches clock fails q rule e c =
      elim (Bool-cases (str_eq rule.project_id q && matches rule)) [
        | inl t ↦ rw t (fire_rule-Cool p id (clock rule) (fails rule) rule e c)
        | inr f ↦ rw f c
      ]

  evaluate_rules-Cool :
      (matches : AlertRule → Bool) (clock : AlertRule → ℕ) (fails : AlertRule → Bool) (q : String)
      (rules : List AlertRule) (e : AlertEngine)
      → Cool p id e.rows e.claims
      → Cool p id
          (evaluate_rules matches clock fails q rules e).rows
          (evaluate_rules matches clock fails q rules e).claims
  unfolding evaluate_rules
  evaluate_rules-Cool matches clock fails q [] e c = c
  evaluate_rules-Cool matches clock fails q (rule ∷ rules) e c =
      evaluate_rules-Cool matches clock fails q rules (consider_rule matches clock fails q rule e)
        (consider_rule-Cool matches clock fails q rule e c)

  alert_step-Cool :
      (i : AlertInput) (e : AlertEngine)
      → Cool p id e.rows e.claims
      → Cool p id (alert_step i e).rows (alert_step i e).claims
  unfolding alert_step is_rule
  alert_step-Cool (event matches clock fails q) e c =
      evaluate_rules-Cool matches clock fails q e.rules e c
  alert_step-Cool refresh e c = c
  alert_step-Cool (delivered at success message) e c = delivering e.jobs
    where
      delivering :
          (jobs : List DeliveryJob)
          → Cool p id
              (deliver_job at success message jobs e).rows
              (deliver_job at success message jobs e).claims
      delivering [] = unfold deliver_job in c
      delivering (job ∷ jobs) =
          unfold deliver_job in
          record_delivery-Cool p id job.project_id job.rule_id at success message e.rows e.claims c
  alert_step-Cool (edited q i notify cooldown now enabled) e c = λ fits. (
    update_rule-OnRule q i _ _ (λ a b x. refl) (λ o. RowLatest o (claim_times p id e.claims)) p id
        e.rows (λ x h. h) (c fits).0,
    (c fits).1,
  )

  alert_run-Cool :
      (inputs : List AlertInput) (e : AlertEngine)
      → Cool p id e.rows e.claims
      → Fits (claim_times p id (alert_run inputs e).claims)
      → Spaced (claim_times p id (alert_run inputs e).claims)
  unfolding alert_run
  alert_run-Cool [] e c fits = (c fits).1
  alert_run-Cool (i ∷ inputs) e c fits =
      alert_run-Cool inputs (alert_step i e) (alert_step-Cool i e c) fits

  -- However events, refreshes, deliveries and changes of a rule follow one another, and whatever clock
  -- a rule is considered by: from an engine that has claimed nothing, two firings of a rule are apart
  -- by at least the cooldown that the later one asks for, if all cooldowns that its firings ask for
  -- fit into a time.Duration.
  pub alert_run-Spaced :
      (inputs : List AlertInput) (e : AlertEngine)
      → e.claims ≡ []
      → Fits (claim_times p id (alert_run inputs e).claims)
      → Spaced (claim_times p id (alert_run inputs e).claims)
  alert_run-Spaced inputs e fresh =
      alert_run-Cool inputs e
        (rw fresh (unfold claim_times in (λ fits. (empty (get_rule p id e.rows), tt))))
    where
      empty : (o : Option AlertRule) → RowLatest o []
      empty none = tt
      empty (some rule) = none_yet rule.last_attempted_at
        where
          none_yet : (last : Option ℕ) → Latest last []
          none_yet none = refl
          none_yet (some last) = tt
