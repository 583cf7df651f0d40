-- ===== src/Outbox/Leases.antt =====
-- internal/store/sqlite/integration_outbox.go: the leases of events.
use piper.Outbox.{
  claim_event, dead_event, retried_event, without_lease, delivered_event, conflicts, mark,
  disable_integration_events, mark_dead, mark_retry, claimed_event, mark_delivered, new_event,
  enqueue, claim_each, update_where, claim_batch, OutboxEvent, EventStatus,
}
use piper.Prelude.{
  Option-cases, any, inr, ◌||◌, inl, All-append, not, subst, Bool-cases, ◌++◌, ◌∷◌, is_some, [],
  arith, some, none, true, refl, ℕ, String, Bool, Option, List, ◌≡◌, All,
}

-- A delivering event has a lease that runs out, and no other event has one or an owner.
abbrev pub Leased : EventStatus → String → Option ℕ → Type 0
Leased EventStatus.delivering owner expires = is_some expires ≡ true
Leased _ owner expires = (owner ≡ "") × (expires ≡ none)

abbrev pub IsLeaseSound : OutboxEvent → Type 0
IsLeaseSound e = Leased e.status e.lease_owner e.lease_expires_at

-- The statements of the table, as one call each; `claim_one` is one of the UPDATEs of a ClaimBatch that
-- other statements interleave, for any event that it may have selected.
pub data Statement : Type 0 where
  insert : (now : ℕ) → (uuid : String) → (known : Bool) → OutboxEvent → Statement
  claim : (now : ℕ) → (owner : String) → (lease_duration limit : ℕ) → Statement
  claim_one : (now : ℕ) → (owner : String) → (expires : ℕ) → (id : String) → Statement
  deliver_event : (now : ℕ) → (id owner : String) → Statement
  retry_event : (id owner : String) → (next : ℕ) → (code message : String) → Statement
  bury_event : (id owner code message : String) → Statement
  disable : (integration_id : String) → Statement

unfoldable pub execute : Statement → List OutboxEvent → List OutboxEvent
execute (insert now uuid known e) rows = elim (enqueue now uuid known e rows) [
  | none ↦ rows
  | some rows' ↦ rows'
]
execute (claim now owner d limit) rows = (claim_batch now owner d limit rows).0
execute (claim_one now owner expires id) rows = (claim_event now owner expires id rows).0
execute (deliver_event now id owner) rows = (mark_delivered now id owner rows).0
execute (retry_event id owner next code message) rows =
    (mark_retry id owner next code message rows).0
execute (bury_event id owner code message) rows = (mark_dead id owner code message rows).0
execute (disable integration_id) rows = disable_integration_events integration_id rows

unfoldable pub execute_all : List Statement → List OutboxEvent → List OutboxEvent
execute_all [] rows = rows
execute_all (s ∷ ss) rows = execute_all ss (execute s rows)

pub update_where-All :
    (P : OutboxEvent → Type 0) (p : OutboxEvent → Bool) (f : OutboxEvent → OutboxEvent)
    (rows : List OutboxEvent)
    → ((e : OutboxEvent) → P (f e))
    → All P rows
    → All P (update_where p f rows)
unfolding update_where
update_where-All P p f [] g h = tt
update_where-All P p f (e ∷ rows) g h = elim (Bool-cases (p e)) [
  | inl t ↦ rw t (g e, update_where-All P p f rows g h.1)
  | inr t ↦ rw t (h.0, update_where-All P p f rows g h.1)
]

claim_each-All :
    (now : ℕ) (owner : String) (expires : ℕ) (es rows : List OutboxEvent)
    → All IsLeaseSound rows
    → All IsLeaseSound (claim_each now owner expires es rows).0
unfolding claim_each claimed_event
claim_each-All now owner expires [] rows h = h
claim_each-All now owner expires (e ∷ es) rows h =
    claim_each-All now owner expires es _ (update_where-All IsLeaseSound _ _ rows (λ x. refl) h)

pub enqueue-inserted :
    (now : ℕ) (uuid : String) (known : Bool) (e : OutboxEvent) (rows rows' : List OutboxEvent)
    → enqueue now uuid known e rows ≡ some rows'
    → rows ++ new_event now uuid e rows ∷ [] ≡ rows'
unfolding enqueue
enqueue-inserted now uuid known e rows rows' p =
    elim (Bool-cases (not known || any (conflicts (new_event now uuid e rows)) rows)) [
      | inl t ↦ ground (arith, p, t)
      | inr t ↦ ground (arith, p, t)
    ]

enqueue-All :
    (now : ℕ) (uuid : String) (known : Bool) (e : OutboxEvent) (rows rows' : List OutboxEvent)
    → enqueue now uuid known e rows ≡ some rows'
    → All IsLeaseSound rows
    → All IsLeaseSound rows'
unfolding new_event
enqueue-All now uuid known e rows rows' p h =
    subst (All IsLeaseSound) (enqueue-inserted now uuid known e rows rows' p)
      (All-append IsLeaseSound rows _ h ((refl, refl), tt))

execute-All :
    (s : Statement) (rows : List OutboxEvent)
    → All IsLeaseSound rows
    → All IsLeaseSound (execute s rows)
unfolding execute claim_batch mark_delivered mark_retry mark_dead mark disable_integration_events
execute-All (insert now uuid known e) rows h = elim (Option-cases (enqueue now uuid known e rows)) [
  | inl p ↦ rw (p, All) h
  | inr (rows', p) ↦ rw (p, All) (enqueue-All now uuid known e rows rows' p h)
]
execute-All (claim now owner d limit) rows h = claim_each-All now owner _ _ rows h
execute-All (claim_one now owner expires id) rows h =
    update_where-All IsLeaseSound _ _ rows (λ e. unfold claimed_event in refl) h
execute-All (deliver_event now id owner) rows h =
    update_where-All IsLeaseSound _ _ rows
      (λ e. unfold delivered_event without_lease in (refl, refl)) h
execute-All (retry_event id owner next code message) rows h =
    update_where-All IsLeaseSound _ _ rows (λ e. unfold retried_event without_lease in (refl, refl))
      h
execute-All (bury_event id owner code message) rows h =
    update_where-All IsLeaseSound _ _ rows (λ e. unfold dead_event without_lease in (refl, refl)) h
execute-All (disable integration_id) rows h =
    update_where-All IsLeaseSound _ _ rows (λ e. unfold without_lease in (refl, refl)) h

-- Whatever statements are executed on a table, from whichever dispatchers: if exactly the delivering
-- events had a lease before, with a time at which it runs out, then exactly they have one after.
pub execute_all-IsLeaseSound :
    (ss : List Statement) (rows : List OutboxEvent)
    → All IsLeaseSound rows
    → All IsLeaseSound (execute_all ss rows)
unfolding execute_all
execute_all-IsLeaseSound [] rows h = h
execute_all-IsLeaseSound (s ∷ ss) rows h = execute_all-IsLeaseSound ss _ (execute-All s rows h)
