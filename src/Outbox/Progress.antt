-- ===== src/Outbox/Progress.antt =====
-- internal/store/sqlite/integration_outbox.go: the event of an aggregate whose turn it is.
use piper.Outbox.Order.{min_sequence-All, AtMost, is_open_in}
use piper.Outbox.{
  is_minimum, is_candidate, is_due, min_sequence, is_unsettled, same_aggregate, OutboxEvent,
  EventStatus,
}
use piper.Outbox.Leases.{IsLeaseSound}
use piper.Prelude.{
  ◌∙◌, ◌&&◌, Bool, eq_refl, ltb, sym, eq_iff, Bool-cases, subst, Option-cases, ◌⊎◌, All, ◌∷◌, [],
  arith, ℕ, Option, List, ◌≡◌, refl, inl, inr, some, none, true, ◌<◌,
}

abbrev pub Member : OutboxEvent → List OutboxEvent → Type 0
Member e [] = ⊥
Member e (x ∷ rows) = (e ≡ x) ⊎ Member e rows

-- The time after which an event may be claimed, as far as it goes by its own row.
abbrev pub ready_at : EventStatus → ℕ → Option ℕ → ℕ
ready_at EventStatus.delivering next (some t) = t
ready_at EventStatus.delivering next none = 0
ready_at _ next expires = next

member-All :
    (P : OutboxEvent → Type 0) (e : OutboxEvent) (rows : List OutboxEvent)
    → Member e rows
    → All P rows
    → P e
member-All P e [] m h = absurd m
member-All P e (x ∷ rows) (inl p) h = subst P (sym p) h.0
member-All P e (x ∷ rows) (inr m) h = member-All P e rows m h.1

min_defined :
    (e x : OutboxEvent) (rows : List OutboxEvent)
    → Member x rows
    → is_open_in e x ≡ true
    → (m : ℕ) × (min_sequence e rows ≡ some m)
min_defined e x rows m h = elim (Option-cases (min_sequence e rows)) [
  | inl p ↦
      absurd
        (subst (λ o. AtMost o x.sequence) p (member-All _ x rows m (min_sequence-All e rows) h))
  | inr d ↦ d
]

-- The event that has the least sequence.
record Least (e : OutboxEvent) (rows : List OutboxEvent) (m : ℕ) : Type 0 where
  event : OutboxEvent
  member : Member event rows
  opened : is_open_in e event ≡ true
  least : event.sequence ≡ m

min_witness :
    (e : OutboxEvent) (rows : List OutboxEvent) (m : ℕ)
    → min_sequence e rows ≡ some m
    → Least e rows m
unfolding min_sequence
min_witness e [] m h = cc
min_witness e (x ∷ rows) m h = elim (Bool-cases (is_open_in e x)) [
  | inl t ↦ elim (Option-cases (min_sequence e rows)) [
    | inl p ↦ record { event = x; member = inl refl; opened = t; least = ground (arith, h, t, p) }
    | inr (n, p) ↦ elim (Bool-cases (ltb n x.sequence)) [
      | inl l ↦ later e x rows m (min_witness e rows m (ground (arith, h, t, p, l)))
      | inr l ↦ record {
        event = x;
        member = inl refl;
        opened = t;
        least = ground (arith, h, t, p, l);
      }
    ]
  ]
  | inr f ↦ later e x rows m (min_witness e rows m (ground (arith, h, f)))
]
  where
    later :
        (e x : OutboxEvent) (rows : List OutboxEvent) (m : ℕ)
        → Least e rows m
        → Least e (x ∷ rows) m
    later e x rows m l = record {
      event = l.event;
      member = inr l.member;
      opened = l.opened;
      least = l.least;
    }

same_fields :
    (x e : OutboxEvent)
    → same_aggregate x e ≡ true
    → (x.integration_id ≡ e.integration_id)
      × (x.aggregate_type ≡ e.aggregate_type)
      × (x.aggregate_id ≡ e.aggregate_id)
same_fields x e h = (
  ground (arith, eq_iff x.integration_id e.integration_id),
  ground (arith, eq_iff x.aggregate_type e.aggregate_type),
  ground (arith, eq_iff x.aggregate_id e.aggregate_id),
)

same_min :
    (x e : OutboxEvent) (rows : List OutboxEvent)
    → same_aggregate x e ≡ true
    → min_sequence x rows ≡ min_sequence e rows
unfolding min_sequence
same_min x e [] h = refl
same_min x e (y ∷ rows) h =
    let (a, b, c) = same_fields x e h in rw (same_min x e rows h, same_open y x e a b c) refl
  where
    same_open :
        (y x e : OutboxEvent)
        → x.integration_id ≡ e.integration_id
        → x.aggregate_type ≡ e.aggregate_type
        → x.aggregate_id ≡ e.aggregate_id
        → is_open_in x y ≡ is_open_in e y
    same_open y x e a b c = rw (a, b, c) refl

due :
    (now : ℕ) (x : OutboxEvent)
    → is_unsettled x.status ≡ true
    → IsLeaseSound x
    → ready_at x.status x.next_attempt_at x.lease_expires_at < now
    → is_due now x ≡ true
due now x h l r = ground arith

open_self : (e : OutboxEvent) → is_unsettled e.status ≡ true → is_open_in e e ≡ true
open_self e h =
    ground (arith, h, eq_refl e.integration_id, eq_refl e.aggregate_type, eq_refl e.aggregate_id)

opened_parts :
    (e x : OutboxEvent)
    → is_open_in e x ≡ true
    → (same_aggregate x e ≡ true) × (is_unsettled x.status ≡ true)
opened_parts e x h = (ground (arith, h), ground (arith, h))

minimum_of : (n m : ℕ) (o : Option ℕ) → o ≡ some m → n ≡ m → is_minimum n o ≡ true
minimum_of n m o p q = rw p (ground (arith, q))

-- Once every waiting time and every lease of the table has run out, each aggregate that has a pending
-- or delivering event has one that meets the WHERE clause of ClaimBatch, if exactly the delivering events have a lease.
pub aggregate-candidate :
    (now : ℕ) (rows : List OutboxEvent) (e : OutboxEvent)
    → All IsLeaseSound rows
    → All (λ x. ready_at x.status x.next_attempt_at x.lease_expires_at < now) rows
    → Member e rows
    → is_unsettled e.status ≡ true
    → (x : OutboxEvent) × Member x rows
      × (same_aggregate x e ≡ true)
      × (is_candidate now rows x ≡ true)
aggregate-candidate now rows e sound over m h =
    let (n, p) = min_defined e e rows m (open_self e h) in
    let l = min_witness e rows n p in
    let x = l.event in
    let (same, unsettled) = opened_parts e x l.opened in
    let timely = due now x unsettled (member-All IsLeaseSound x rows l.member sound) (
      member-All (λ y. ready_at y.status y.next_attempt_at y.lease_expires_at < now) x rows l.member
        over) in
    let minimal = minimum_of x.sequence n _ (same_min x e rows same ∙ p) l.least in
    (x, l.member, same, both _ _ timely minimal)
  where
    both : (a b : Bool) → a ≡ true → b ≡ true → (a && b) ≡ true
    both a b p q = rw (p, q) refl
