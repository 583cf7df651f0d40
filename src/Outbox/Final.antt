-- ===== src/Outbox/Final.antt =====
-- internal/store/sqlite/integration_outbox.go: events that are delivered, dead or disabled.
use mathlib.Core.Option.{some-injective}
use piper.Outbox.{
  enqueue, without_lease, dead_event, retried_event, delivered_event, disable_integration_events,
  mark, mark_dead, mark_retry, mark_delivered, claimed_event, may_claim, claim_batch, is_leased_to,
  update_where, claim_each, is_unsettled, OutboxEvent,
}
use piper.Outbox.Leases.{
  claim_one, enqueue-inserted, execute, execute_all, Statement, insert, claim, deliver_event,
  retry_event, bury_event, disable,
}
use piper.Prelude.{
  subst, Option-cases, ap, inr, sym, ◌∙◌, inl, Bool-cases, ◌∷◌, ◌++◌, str_eq, if◌then◌else◌, [],
  arith, some, none, false, true, ℕ, String, Bool, Option, List, ◌≡◌, refl,
}

-- SELECT ... WHERE id=?
abbrev pub find_event : String → List OutboxEvent → Option OutboxEvent
find_event id [] = none
find_event id (e ∷ rows) = if str_eq e.id id then some e else find_event id rows

found_here :
    (id : String) (e : OutboxEvent) (rows : List OutboxEvent)
    → str_eq e.id id ≡ true
    → find_event id (e ∷ rows) ≡ some e
found_here id e rows t = rw t refl

found_later :
    (id : String) (e : OutboxEvent) (rows : List OutboxEvent)
    → str_eq e.id id ≡ false
    → find_event id (e ∷ rows) ≡ find_event id rows
found_later id e rows n = rw n refl

find_event-update_where :
    (id : String) (p : OutboxEvent → Bool) (f : OutboxEvent → OutboxEvent) (rows : List OutboxEvent)
    (e : OutboxEvent)
    → ((x : OutboxEvent) → (f x).id ≡ x.id)
    → p e ≡ false
    → find_event id rows ≡ some e
    → find_event id (update_where p f rows) ≡ some e
unfolding update_where
find_event-update_where id p f [] e same out h = h
find_event-update_where id p f (x ∷ rows) e same out h = elim (Bool-cases (str_eq x.id id)) [
  | inl t ↦
      let here : x ≡ e = some-injective _ _ (sym (found_here id x rows t) ∙ h) in
      let skip : p x ≡ false = ap p here ∙ out in
      rw skip (found_here id x (update_where p f rows) t ∙ ap some here)
  | inr n ↦ elim (Bool-cases (p x)) [
    | inl t ↦ rw t (
        found_later id (f x) (update_where p f rows) (ap (λ i. str_eq i id) (same x) ∙ n)
        ∙ find_event-update_where id p f rows e same out (sym (found_later id x rows n) ∙ h))
    | inr t ↦ rw t (
        found_later id x (update_where p f rows) n
        ∙ find_event-update_where id p f rows e same out (sym (found_later id x rows n) ∙ h))
  ]
]

find_event-append :
    (id : String) (rows more : List OutboxEvent) (e : OutboxEvent)
    → find_event id rows ≡ some e
    → find_event id (rows ++ more) ≡ some e
find_event-append id [] more e h = ground (arith, h)
find_event-append id (x ∷ rows) more e h = elim (Bool-cases (str_eq x.id id)) [
  | inl t ↦ found_here id x (rows ++ more) t ∙ sym (found_here id x rows t) ∙ h
  | inr n ↦
      found_later id x (rows ++ more) n
      ∙ find_event-append id rows more e (sym (found_later id x rows n) ∙ h)
]

-- The guards of the statements pass over a settled event.
may_claim-settled :
    (now : ℕ) (id : String) (e : OutboxEvent)
    → is_unsettled e.status ≡ false
    → may_claim now id e ≡ false
may_claim-settled now id e h = ground arith

is_leased_to-settled :
    (id owner : String) (e : OutboxEvent)
    → is_unsettled e.status ≡ false
    → is_leased_to id owner e ≡ false
is_leased_to-settled id owner e h = ground arith

claim_each-settled :
    (now : ℕ) (owner : String) (expires : ℕ) (es rows : List OutboxEvent) (id : String)
    (e : OutboxEvent)
    → is_unsettled e.status ≡ false
    → find_event id rows ≡ some e
    → find_event id (claim_each now owner expires es rows).0 ≡ some e
unfolding claim_each claimed_event
claim_each-settled now owner expires [] rows id e s h = h
claim_each-settled now owner expires (c ∷ es) rows id e s h =
    claim_each-settled now owner expires es _ id e s
      (find_event-update_where id _ _ rows e (λ x. refl) (may_claim-settled now c.id e s) h)

execute-settled :
    (st : Statement) (rows : List OutboxEvent) (id : String) (e : OutboxEvent)
    → is_unsettled e.status ≡ false
    → find_event id rows ≡ some e
    → find_event id (execute st rows) ≡ some e
unfolding execute claim_batch mark_delivered mark_retry mark_dead mark disable_integration_events
    delivered_event retried_event dead_event without_lease claimed_event
execute-settled (insert now uuid known x) rows id e s h =
    elim (Option-cases (enqueue now uuid known x rows)) [
      | inl p ↦ rw (p, find_event) h
      | inr (rows', p) ↦
          rw (p, find_event)
            (subst (λ r. find_event id r ≡ some e) (enqueue-inserted now uuid known x rows rows' p)
              (find_event-append id rows _ e h))
    ]
execute-settled (claim now owner d limit) rows id e s h =
    claim_each-settled now owner _ _ rows id e s h
execute-settled (claim_one now owner expires i) rows id e s h =
    find_event-update_where id _ _ rows e (λ x. refl) (may_claim-settled now i e s) h
execute-settled (deliver_event now i owner) rows id e s h =
    find_event-update_where id _ _ rows e (λ x. refl) (is_leased_to-settled i owner e s) h
execute-settled (retry_event i owner next code message) rows id e s h =
    find_event-update_where id _ _ rows e (λ x. refl) (is_leased_to-settled i owner e s) h
execute-settled (bury_event i owner code message) rows id e s h =
    find_event-update_where id _ _ rows e (λ x. refl) (is_leased_to-settled i owner e s) h
execute-settled (disable integration_id) rows id e s h =
    find_event-update_where id _ _ rows e (λ x. refl) (ground arith) h

-- A delivered, dead or disabled event stays exactly as it is, whatever statements are executed.
pub execute_all-settled :
    (ss : List Statement) (rows : List OutboxEvent) (id : String) (e : OutboxEvent)
    → is_unsettled e.status ≡ false
    → find_event id rows ≡ some e
    → find_event id (execute_all ss rows) ≡ some e
unfolding execute_all
execute_all-settled [] rows id e s h = h
execute_all-settled (st ∷ ss) rows id e s h =
    execute_all-settled ss _ id e s (execute-settled st rows id e s h)
