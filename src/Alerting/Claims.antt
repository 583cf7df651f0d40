-- ===== src/Alerting/Claims.antt =====
-- internal/alerting/engine.go: the claim of a rule that matches.
use piper.Alerting.Rules.{
  get_rule, update_rule-affected, update_rule-unaffected, update_rule-elsewhere, update_rule-OnRule,
  is_rule-key, is_rule-apart,
}
use piper.Alerting.{
  int64_size, int64_sign, duration, not_after, enqueue_job, AlertRule, is_rule, nanoseconds,
  is_cooled_down, claimed_rule, try_claim_fire, record_delivery, FireClaim, AlertEngine,
  enqueue_jobs, after_claim, fire_rule, delivery_queue_size, queue_full,
}
use piper.Prelude.{
  ◌%◌, ◌<◌, ◌<◌, ◌∙◌, sym, subst, ◌&&◌, ℕ, ◌+◌, ◌≤◌, String, Bool, true, false, Option, none, some,
  List, [], ◌∷◌, ◌≡◌, refl, arith, Bool-cases, inl, inr, str_eq, if◌then◌else◌, All, ltb, length,
}

-- The times of the claims of a rule with their cooldowns, the latest first.
unfoldable pub claim_times : String → String → List FireClaim → List (ℕ × ℕ)
claim_times p id [] = []
claim_times p id (c ∷ claims) =
    let rest = claim_times p id claims in
    if str_eq c.project_id p && str_eq c.rule_id id then (c.at, c.cooldown) ∷ rest else rest

-- Each claim comes at least its cooldown after all claims before it.
abbrev pub Spaced : List (ℕ × ℕ) → Type 0
Spaced [] = Unit
Spaced ((at, cooldown) ∷ earlier) = All (λ u. u.0 + cooldown ≤ at) earlier × Spaced earlier

-- No claim is after the last attempt that the row has.
abbrev pub Latest : Option ℕ → List (ℕ × ℕ) → Type 0
Latest none ts = ts ≡ []
Latest (some last) ts = All (λ u. u.0 ≤ last) ts

-- The cooldown is a positive time.Duration, of up to 292 years.
abbrev pub Fits : List (ℕ × ℕ) → Type 0
Fits ts = All (λ u. u.1 < int64_sign) ts

abbrev pub RowLatest : Option AlertRule → List (ℕ × ℕ) → Type 0
RowLatest none ts = Unit
RowLatest (some rule) ts = Latest rule.last_attempted_at ts

All-later :
    (last cooldown now : ℕ) (ts : List (ℕ × ℕ))
    → last + cooldown ≤ now
    → All (λ u. u.0 ≤ last) ts
    → All (λ u. u.0 + cooldown ≤ now) ts × All (λ u. u.0 ≤ now) ts
All-later last cooldown now [] h all = (tt, tt)
All-later last cooldown now (t ∷ ts) h all =
    let (a, b) = All-later last cooldown now ts h all.1 in
    ((omega (arith, h, all.0), a), (omega (arith, h, all.0), b))

-- What the test says of a cooldown that does not wrap.
waited :
    (now seconds last : ℕ)
    → nanoseconds seconds < int64_sign
    → not_after last now (duration seconds) ≡ true
    → last + nanoseconds seconds ≤ now
unfolding not_after duration
waited now seconds last fits h =
    let same : nanoseconds seconds % int64_size ≡ nanoseconds seconds = omega arith in
    exactly (nanoseconds seconds) fits (rw same at h)
  where
    exactly : (d : ℕ) → d < int64_sign → not_after last now d ≡ true → last + d ≤ now
    exactly d small h = ground arith

-- A rule that has cooled down.
cooled-Spaced :
    (now seconds : ℕ) (last : Option ℕ) (ts : List (ℕ × ℕ))
    → is_cooled_down now (duration seconds) last ≡ true
    → nanoseconds seconds < int64_sign
    → Latest last ts
    → Spaced ts
    → Spaced ((now, nanoseconds seconds) ∷ ts)
      × All (λ u. u.0 ≤ now) ((now, nanoseconds seconds) ∷ ts)
unfolding is_cooled_down
cooled-Spaced now seconds none ts c fits l s = rw l ((tt, tt), (omega arith, tt))
cooled-Spaced now seconds (some last) ts c fits l s =
    let (a, b) = All-later last (nanoseconds seconds) now ts (waited now seconds last fits c) l in
    ((a, s), (omega arith, b))

module _ (p id : String) where
  -- What is known of a rule and of its claims, as long as their cooldowns fit.
  abbrev pub Cool : List AlertRule → List FireClaim → Type 0
  Cool rows claims =
      Fits (claim_times p id claims)
      → RowLatest (get_rule p id rows) (claim_times p id claims) × Spaced (claim_times p id claims)

  pub record_delivery-Cool :
      (q i : String) (at : ℕ) (success : Bool) (message : String) (rows : List AlertRule)
      (claims : List FireClaim)
      → Cool rows claims
      → Cool (record_delivery q i at success message rows) claims
  unfolding record_delivery is_rule
  record_delivery-Cool q i at true message rows claims c = λ fits. (
    update_rule-OnRule q i _ _ (λ a b x. refl) (λ o. RowLatest o (claim_times p id claims)) p id
        rows (λ x h. h) (c fits).0,
    (c fits).1,
  )
  record_delivery-Cool q i at false message rows claims c = λ fits. (
    update_rule-OnRule q i _ _ (λ a b x. refl) (λ o. RowLatest o (claim_times p id claims)) p id
        rows (λ x h. h) (c fits).0,
    (c fits).1,
  )

  enqueue_job-Cool :
      (now : ℕ) (rule : AlertRule) (ref : String) (e : AlertEngine)
      → Cool e.rows e.claims
      → Cool (enqueue_job now rule ref e).rows (enqueue_job now rule ref e).claims
  unfolding enqueue_job
  enqueue_job-Cool now rule ref e c = elim (Bool-cases (ltb (length e.jobs) delivery_queue_size)) [
    | inl t ↦ rw t c
    | inr f ↦
        rw f (record_delivery-Cool rule.project_id rule.id now false queue_full e.rows e.claims c)
  ]

  enqueue_jobs-Cool :
      (now : ℕ) (rule : AlertRule) (refs : List String) (e : AlertEngine)
      → Cool e.rows e.claims
      → Cool (enqueue_jobs now rule refs e).rows (enqueue_jobs now rule refs e).claims
  unfolding enqueue_jobs
  enqueue_jobs-Cool now rule [] e c = c
  enqueue_jobs-Cool now rule (ref ∷ refs) e c =
      enqueue_jobs-Cool now rule refs (enqueue_job now rule ref e)
        (enqueue_job-Cool now rule ref e c)

  module _ (now : ℕ) (rule : AlertRule) (e : AlertEngine) (c : Cool e.rows e.claims) where
    abbrev claim : Bool × List AlertRule
    claim = try_claim_fire rule.project_id rule.id now (duration rule.cooldown_seconds) e.rows

    -- The engine's claims after this one.
    abbrev claims : List FireClaim
    claims =
        record {
          project_id = rule.project_id;
          rule_id = rule.id;
          at = now;
          cooldown = nanoseconds rule.cooldown_seconds;
        }
        ∷ e.claims

    own_claim : is_rule p id rule ≡ true → claim.0 ≡ true → Cool claim.1 claims
    unfolding try_claim_fire is_rule claimed_rule claim_times
    own_claim own ok =
        let (old, found, w, found') =
          update_rule-affected rule.project_id rule.id _ _ (λ a b x. refl) e.rows ok in
        rw own λ fits.
          let (spaced, latest) =
            cooled-Spaced now rule.cooldown_seconds old.last_attempted_at
              (claim_times p id e.claims) (ground (arith, w)) fits.0
              (subst (λ o. RowLatest o (claim_times p id e.claims))
                (is_rule-key p id rule own e.rows ∙ found) (c fits.1).0)
              (c fits.1).1 in
          (
            subst
                (λ o.
                  RowLatest o
                    ((now, nanoseconds rule.cooldown_seconds) ∷ claim_times p id e.claims))
                (sym (is_rule-key p id rule own claim.1 ∙ found')) latest,
            spaced,
          )

    other_claim : is_rule p id rule ≡ false → Cool claim.1 claims
    unfolding try_claim_fire is_rule claimed_rule claim_times
    other_claim other = rw other λ fits. (
      subst (λ o. RowLatest o (claim_times p id e.claims))
          (sym (
            update_rule-elsewhere rule.project_id rule.id _ _ (λ a b x. refl) p id e.rows
              (is_rule-apart p id rule other)))
          (c fits).0,
      (c fits).1,
    )

    no_claim : claim.0 ≡ false → Cool claim.1 e.claims
    unfolding try_claim_fire is_rule claimed_rule
    no_claim f =
        subst (λ rows. Cool rows e.claims)
          (sym (update_rule-unaffected rule.project_id rule.id _ _ (λ a b x. refl) e.rows f)) c

    after_claim-Cool :
        Cool (after_claim now rule claim e).rows (after_claim now rule claim e).claims
    unfolding after_claim
    after_claim-Cool = elim (Bool-cases claim.0) [
      | inl t ↦ rw t (
          enqueue_jobs-Cool now rule rule.notify (record e { rows = claim.1; claims = claims })
            (elim (Bool-cases (is_rule p id rule)) [
              | inl own ↦ own_claim own t
              | inr other ↦ other_claim other
            ]))
      | inr f ↦ rw f (no_claim f)
    ]

  pub fire_rule-Cool :
      (now : ℕ) (fails : Bool) (rule : AlertRule) (e : AlertEngine)
      → Cool e.rows e.claims
      → Cool (fire_rule now fails rule e).rows (fire_rule now fails rule e).claims
  fire_rule-Cool now true rule e c = unfold fire_rule in c
  fire_rule-Cool now false rule e c = unfold fire_rule in after_claim-Cool now rule e c
