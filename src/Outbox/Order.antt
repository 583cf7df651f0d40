-- ===== src/Outbox/Order.antt =====
-- internal/store/sqlite/integration_outbox.go: ClaimBatch and the order of an aggregate.
use piper.Outbox.{
  may_claim, candidates, claimed_event, insert_by_time, sort_by_time, claim_each, claim_batch,
  take_events, is_minimum, is_unsettled, is_candidate, same_aggregate, min_sequence, OutboxEvent,
}
use piper.Prelude.{
  ◌+◌, any, String, leb, keep, suc, zero, All-map, ltb, Bool-cases, subst, inr, inl, Option-cases,
  ◌&&◌, ◌∷◌, [], arith, some, none, true, ℕ, Bool, Option, List, ◌≡◌, ◌≤◌, All,
}

-- An event of this aggregate that is not settled.
abbrev pub is_open_in : OutboxEvent → OutboxEvent → Bool
is_open_in e x = same_aggregate x e && is_unsettled x.status

abbrev pub AtMost : Option ℕ → ℕ → Type 0
AtMost none n = ⊥
AtMost (some m) n = m ≤ n

-- No unsettled event of the same aggregate comes before this one.
abbrev pub IsFirst : List OutboxEvent → OutboxEvent → Type 0
IsFirst rows e = All (λ x. is_open_in e x ≡ true → e.sequence ≤ x.sequence) rows

AtMost-cons :
    (e x : OutboxEvent) (xs : List OutboxEvent) (n : ℕ)
    → AtMost (min_sequence e xs) n
    → AtMost (min_sequence e (x ∷ xs)) n
unfolding min_sequence
AtMost-cons e x xs n h = elim (Option-cases (min_sequence e xs)) [
  | inl p ↦ absurd (subst (λ o. AtMost o n) p h)
  | inr (m, p) ↦
      let le : m ≤ n = subst (λ o. AtMost o n) p h in
      elim (Bool-cases (is_open_in e x)) [
        | inl t ↦ elim (Bool-cases (ltb m x.sequence)) [
          | inl l ↦ rw (t, p, l) le
          | inr l ↦ rw (t, p, l) (ground (arith, l))
        ]
        | inr t ↦ rw (t, p) le
      ]
]

AtMost-here :
    (e x : OutboxEvent) (xs : List OutboxEvent)
    → is_open_in e x ≡ true
    → AtMost (min_sequence e (x ∷ xs)) x.sequence
unfolding min_sequence
AtMost-here e x xs t = elim (Option-cases (min_sequence e xs)) [
  | inl p ↦ rw (t, p) (omega arith)
  | inr (m, p) ↦ elim (Bool-cases (ltb m x.sequence)) [
    | inl l ↦ rw (t, p, l) (ground (arith, l))
    | inr l ↦ rw (t, p, l) (omega arith)
  ]
]

pub min_sequence-All :
    (e : OutboxEvent) (xs : List OutboxEvent)
    → All (λ x. is_open_in e x ≡ true → AtMost (min_sequence e xs) x.sequence) xs
min_sequence-All e [] = tt
min_sequence-All e (x ∷ xs) = (
  AtMost-here e x xs,
  All-map _ _ xs (λ y f t. AtMost-cons e x xs y.sequence (f t)) (min_sequence-All e xs),
)

candidate-IsFirst :
    (now : ℕ) (rows : List OutboxEvent) (e : OutboxEvent)
    → is_candidate now rows e ≡ true
    → IsFirst rows e
candidate-IsFirst now rows e h =
    All-map _ _ rows (λ x f t. minimal e (min_sequence e rows) x.sequence (and_right _ _ h) (f t))
      (min_sequence-All e rows)
  where
    and_right : (a b : Bool) → (a && b) ≡ true → b ≡ true
    and_right a b h = ground arith

    minimal :
        (e : OutboxEvent) (o : Option ℕ) (n : ℕ)
        → is_minimum e.sequence o ≡ true
        → AtMost o n
        → e.sequence ≤ n
    minimal e none n h a = absurd a
    minimal e (some m) n h a = ground arith

keep-IsFirst :
    (now : ℕ) (all_rows rows : List OutboxEvent)
    → All (IsFirst all_rows) (keep (is_candidate now all_rows) rows)
keep-IsFirst now all_rows [] = tt
keep-IsFirst now all_rows (e ∷ rows) = elim (Bool-cases (is_candidate now all_rows e)) [
  | inl t ↦ rw t (candidate-IsFirst now all_rows e t, keep-IsFirst now all_rows rows)
  | inr t ↦ rw t (keep-IsFirst now all_rows rows)
]

pub insert_by_time-All :
    (P : OutboxEvent → Type 0) (e : OutboxEvent) (es : List OutboxEvent)
    → P e
    → All P es
    → All P (insert_by_time e es)
unfolding insert_by_time
insert_by_time-All P e [] p h = (p, tt)
insert_by_time-All P e (x ∷ es) p h = elim (Bool-cases (leb e.next_attempt_at x.next_attempt_at)) [
  | inl t ↦ rw t (p, h)
  | inr t ↦ rw t (h.0, insert_by_time-All P e es p h.1)
]

pub sort_by_time-All :
    (P : OutboxEvent → Type 0) (es : List OutboxEvent) → All P es → All P (sort_by_time es)
unfolding sort_by_time
sort_by_time-All P [] h = tt
sort_by_time-All P (e ∷ es) h = insert_by_time-All P e _ h.0 (sort_by_time-All P es h.1)

pub take_events-All :
    (P : OutboxEvent → Type 0) (n : ℕ) (es : List OutboxEvent) → All P es → All P (take_events n es)
unfolding take_events
take_events-All P zero es h = tt
take_events-All P (suc n) [] h = tt
take_events-All P (suc n) (e ∷ es) h = (h.0, take_events-All P n es h.1)

claim_each-IsFirst :
    (all_rows : List OutboxEvent) (now : ℕ) (owner : String) (expires : ℕ)
    (es rows : List OutboxEvent)
    → All (IsFirst all_rows) es
    → All (IsFirst all_rows) (claim_each now owner expires es rows).1
unfolding claim_each claimed_event
claim_each-IsFirst all_rows now owner expires [] rows h = tt
claim_each-IsFirst all_rows now owner expires (e ∷ es) rows h =
    elim (Bool-cases (any (may_claim now e.id) rows)) [
      | inl t ↦ rw t (h.0, claim_each-IsFirst all_rows now owner expires es _ h.1)
      | inr t ↦ rw t (claim_each-IsFirst all_rows now owner expires es _ h.1)
    ]

-- Of each aggregate ClaimBatch hands out only events before which no pending or delivering event of
-- that aggregate comes in the table that it found.
pub claim_batch-IsFirst :
    (now : ℕ) (owner : String) (lease_duration limit : ℕ) (rows : List OutboxEvent)
    → All (IsFirst rows) (claim_batch now owner lease_duration limit rows).1
unfolding claim_batch candidates
claim_batch-IsFirst now owner lease_duration limit rows =
    claim_each-IsFirst rows now owner (now + lease_duration) _ rows (
      take_events-All (IsFirst rows) limit _
        (sort_by_time-All (IsFirst rows) _ (keep-IsFirst now rows rows)))
