-- ===== src/Tests/Alert.antt =====
-- internal/alerting/engine.go: the theorem at one rule and three events.
use piper.Alerting.Claims.{Fits, Spaced, claim_times}
use piper.Alerting.Cooldown.{alert_run-Spaced}
use piper.Alerting.{
  AlertRule, AlertEngine, AlertInput, event, refresh, alert_run, alert_step, evaluate_rules,
  consider_rule, fire_rule, after_claim, enqueue_jobs, enqueue_job, try_claim_fire, update_rule,
  is_rule, is_cooled_down, not_after, duration, enabled_rules, claimed_rule,
}
use piper.Prelude.{arith, ℕ, true, false, none, List, [], ◌∷◌, ◌≡◌, refl, length}

abbrev lossy : AlertRule
lossy = record {
  id = "a1";
  project_id = "p";
  notify = "mail" ∷ [];
  cooldown_seconds = 10;
  enabled = true;
  last_matched_at = none;
  last_attempted_at = none;
  last_success_at = none;
  last_error = "";
  updated_at = 0;
}

abbrev engine : AlertEngine
engine = record { rows = lossy ∷ []; rules = []; jobs = []; claims = [] }

-- The rule matches an event at a time.
abbrev matched_at : ℕ → AlertInput
matched_at now = event (λ rule. true) (λ rule. now) (λ rule. false) "p"

-- The second event comes too early.
abbrev three_events : List AlertInput
three_events = refresh ∷ matched_at 1000000000 ∷ matched_at 5000000000 ∷ matched_at 11000000000 ∷ []

two_jobs : length (alert_run three_events engine).jobs ≡ 2
unfolding alert_run alert_step evaluate_rules consider_rule fire_rule after_claim enqueue_jobs
    enqueue_job try_claim_fire update_rule is_rule is_cooled_down not_after duration enabled_rules
    claimed_rule
two_jobs = refl

three_events-Fits : Fits (claim_times "p" "a1" (alert_run three_events engine).claims)
unfolding alert_run alert_step evaluate_rules consider_rule fire_rule after_claim enqueue_jobs
    enqueue_job try_claim_fire update_rule is_rule is_cooled_down not_after duration enabled_rules
    claimed_rule claim_times
three_events-Fits = (omega arith, (omega arith, tt))

alert_run-Spaced_example : Spaced (claim_times "p" "a1" (alert_run three_events engine).claims)
alert_run-Spaced_example = alert_run-Spaced "p" "a1" three_events engine refl three_events-Fits
