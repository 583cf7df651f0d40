-- ===== src/Alerting/Rules.antt =====
-- internal/store/sqlite/alert_rule.go: the statements as seen from one rule.
use piper.Alerting.{AlertRule, is_rule, update_rule}
use piper.Prelude.{
  ◌∙◌, sym, ap, String, Bool, true, false, Option, none, some, List, [], ◌∷◌, ◌≡◌, refl, arith,
  Bool-cases, inl, inr, eq_iff, if◌then◌else◌,
}

unfoldable pub get_rule : String → String → List AlertRule → Option AlertRule
get_rule project_id id [] = none
get_rule project_id id (rule ∷ rows) =
    if is_rule project_id id rule then some rule else get_rule project_id id rows

module _ (p id : String) (clause : AlertRule → Bool) (change : AlertRule → AlertRule)
    (keeps : (q i : String) (rule : AlertRule) → is_rule q i (change rule) ≡ is_rule q i rule) where
  pub update_rule-affected :
      (rows : List AlertRule)
      → (update_rule p id clause change rows).0 ≡ true
      → (old : AlertRule) × (get_rule p id rows ≡ some old)
        × (clause old ≡ true)
        × (get_rule p id (update_rule p id clause change rows).1 ≡ some (change old))
  unfolding update_rule get_rule
  update_rule-affected [] h = cc h
  update_rule-affected (rule ∷ rows) h = elim (Bool-cases (is_rule p id rule)) [
    | inl t ↦ elim (Bool-cases (clause rule)) [
      | inl c ↦ (rule, rw t refl, c, rw (t, c, keeps p id rule, t) refl)
      | inr n ↦ absurd (ground (arith, h, t, n))
    ]
    | inr f ↦
        let (old, e, c, e') = update_rule-affected rows (ground (arith, h, f)) in
        (old, rw f e, c, rw (f, f) e')
  ]

  pub update_rule-unaffected :
      (rows : List AlertRule)
      → (update_rule p id clause change rows).0 ≡ false
      → (update_rule p id clause change rows).1 ≡ rows
  unfolding update_rule
  update_rule-unaffected [] h = refl
  update_rule-unaffected (rule ∷ rows) h = elim (Bool-cases (is_rule p id rule)) [
    | inl t ↦ elim (Bool-cases (clause rule)) [
      | inl c ↦ absurd (ground (arith, h, t, c))
      | inr n ↦ rw (t, n) refl
    ]
    | inr f ↦ rw f (ap (λ l. rule ∷ l) (update_rule-unaffected rows (ground (arith, h, f))))
  ]

  pub update_rule-elsewhere :
      (q i : String) (rows : List AlertRule)
      → ((rule : AlertRule) → is_rule p id rule ≡ true → is_rule q i rule ≡ false)
      → get_rule q i (update_rule p id clause change rows).1 ≡ get_rule q i rows
  unfolding update_rule get_rule
  update_rule-elsewhere q i [] other = refl
  update_rule-elsewhere q i (rule ∷ rows) other = elim (Bool-cases (is_rule p id rule)) [
    | inl t ↦ elim (Bool-cases (clause rule)) [
      | inl c ↦ rw (t, c, keeps q i rule, other rule t) refl
      | inr n ↦ rw (t, n) refl
    ]
    | inr f ↦ rw (f, update_rule-elsewhere q i rows other) refl
  ]

  -- A property that the change keeps.
  pub update_rule-OnRule :
      (P : Option AlertRule → Type 0) (q i : String) (rows : List AlertRule)
      → ((rule : AlertRule) → P (some rule) → P (some (change rule)))
      → P (get_rule q i rows)
      → P (get_rule q i (update_rule p id clause change rows).1)
  unfolding update_rule get_rule
  update_rule-OnRule P q i [] step h = h
  update_rule-OnRule P q i (rule ∷ rows) step h = elim (Bool-cases (is_rule p id rule)) [
    | inl t ↦ elim (Bool-cases (clause rule)) [
      | inl c ↦ elim (Bool-cases (is_rule q i rule)) [
        | inl a ↦ rw (t, c, keeps q i rule, a) (step rule (rw a at h))
        | inr b ↦ rw (t, c, keeps q i rule, b) (rw b at h)
      ]
      | inr n ↦ rw (t, n) h
    ]
    | inr f ↦ elim (Bool-cases (is_rule q i rule)) [
      | inl a ↦ rw (f, a) (rw a at h)
      | inr b ↦ rw (f, b) (update_rule-OnRule P q i rows step (rw b at h))
    ]
  ]

pub is_rule-key :
    (p id : String) (rule : AlertRule)
    → is_rule p id rule ≡ true
    → (rows : List AlertRule) → get_rule p id rows ≡ get_rule rule.project_id rule.id rows
unfolding is_rule
is_rule-key p id rule own rows =
    let a : rule.project_id ≡ p = (eq_iff rule.project_id p).0 (ground (arith, own)) in
    let b : rule.id ≡ id = (eq_iff rule.id id).0 (ground (arith, own)) in
    ap (λ q. get_rule q id rows) (sym a) ∙ ap (λ i. get_rule rule.project_id i rows) (sym b)

pub is_rule-apart :
    (p id : String) (rule : AlertRule)
    → is_rule p id rule ≡ false
    → (x : AlertRule) → is_rule rule.project_id rule.id x ≡ true
    → is_rule p id x ≡ false
unfolding is_rule
is_rule-apart p id rule other x t = ground (
  arith,
  t,
  other,
  eq_iff x.project_id rule.project_id,
  eq_iff x.id rule.id,
  eq_iff rule.project_id p,
  eq_iff rule.id id,
)
