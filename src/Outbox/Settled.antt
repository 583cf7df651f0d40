-- ===== src/Outbox/Settled.antt =====
-- pkg/integration/outbox/dispatcher.go: process and PollOnce, and the leases of a batch.
use piper.Outbox.{
  claim_batch, without_lease, retried_event, dead_event, delivered_event, mark, mark_retry,
  mark_dead, is_leased_to, mark_delivered, update_where, OutboxEvent,
}
use piper.Outbox.Dispatcher.{
  process_each, poll_once, carry_out, decide, Decision, Outcome, DispatcherConfig, process, deliver,
  bury, bury_and_notify, retry_later,
}
use piper.Prelude.{
  All, String, inr, inl, Bool-cases, ◌∷◌, any, [], arith, false, ℕ, Bool, List, ◌≡◌, refl,
}

update_where-none :
    (p : OutboxEvent → Bool) (f : OutboxEvent → OutboxEvent) (rows : List OutboxEvent)
    → ((e : OutboxEvent) → p (f e) ≡ false)
    → any p (update_where p f rows) ≡ false
unfolding update_where
update_where-none p f [] h = refl
update_where-none p f (e ∷ rows) h = elim (Bool-cases (p e)) [
  | inl t ↦ rw (t, h e) (update_where-none p f rows h)
  | inr t ↦ rw (t, t) (update_where-none p f rows h)
]

carry_out-settles :
    (now : ℕ) (jitter : ℕ → ℕ) (cfg : DispatcherConfig) (o : Outcome) (e : OutboxEvent)
    (rows : List OutboxEvent) (d : Decision)
    → any (is_leased_to e.id cfg.owner) (carry_out now jitter cfg o e rows d) ≡ false
unfolding carry_out mark_delivered mark_dead mark_retry mark delivered_event dead_event
    retried_event without_lease
carry_out-settles now jitter cfg o e rows deliver = update_where-none _ _ rows (λ x. ground arith)
carry_out-settles now jitter cfg o e rows bury = update_where-none _ _ rows (λ x. ground arith)
carry_out-settles now jitter cfg o e rows bury_and_notify =
    update_where-none _ _ rows (λ x. ground arith)
carry_out-settles now jitter cfg o e rows retry_later =
    update_where-none _ _ rows (λ x. ground arith)

process-settles :
    (now : ℕ) (jitter : ℕ → ℕ) (cfg : DispatcherConfig) (o : Outcome) (e : OutboxEvent)
    (rows : List OutboxEvent)
    → any (is_leased_to e.id cfg.owner) (process now jitter cfg o e rows) ≡ false
unfolding process
process-settles now jitter cfg o e rows = carry_out-settles now jitter cfg o e rows (decide cfg o e)

update_where-still_none :
    (p q : OutboxEvent → Bool) (f : OutboxEvent → OutboxEvent) (rows : List OutboxEvent)
    → ((e : OutboxEvent) → p (f e) ≡ false)
    → any p rows ≡ false
    → any p (update_where q f rows) ≡ false
unfolding update_where
update_where-still_none p q f [] h n = refl
update_where-still_none p q f (e ∷ rows) h n =
    let head : p e ≡ false = ground arith in
    let tail : any p rows ≡ false = ground arith in
    elim (Bool-cases (q e)) [
      | inl t ↦ rw (t, h e) (update_where-still_none p q f rows h tail)
      | inr t ↦ rw (t, head) (update_where-still_none p q f rows h tail)
    ]

carry_out-unleased :
    (now : ℕ) (jitter : ℕ → ℕ) (cfg : DispatcherConfig) (o : Outcome) (e : OutboxEvent)
    (id owner : String) (rows : List OutboxEvent) (d : Decision)
    → any (is_leased_to id owner) rows ≡ false
    → any (is_leased_to id owner) (carry_out now jitter cfg o e rows d) ≡ false
unfolding carry_out mark_delivered mark_dead mark_retry mark delivered_event dead_event
    retried_event without_lease
carry_out-unleased now jitter cfg o e id owner rows deliver h =
    update_where-still_none _ _ _ rows (λ x. ground arith) h
carry_out-unleased now jitter cfg o e id owner rows bury h =
    update_where-still_none _ _ _ rows (λ x. ground arith) h
carry_out-unleased now jitter cfg o e id owner rows bury_and_notify h =
    update_where-still_none _ _ _ rows (λ x. ground arith) h
carry_out-unleased now jitter cfg o e id owner rows retry_later h =
    update_where-still_none _ _ _ rows (λ x. ground arith) h

process_each-unleased :
    (now : ℕ) (jitter : ℕ → ℕ) (cfg : DispatcherConfig) (handle : OutboxEvent → Outcome)
    (id owner : String) (es rows : List OutboxEvent)
    → any (is_leased_to id owner) rows ≡ false
    → any (is_leased_to id owner) (process_each now jitter cfg handle es rows) ≡ false
unfolding process_each process
process_each-unleased now jitter cfg handle id owner [] rows h = h
process_each-unleased now jitter cfg handle id owner (e ∷ es) rows h =
    process_each-unleased now jitter cfg handle id owner es _
      (carry_out-unleased now jitter cfg (handle e) e id owner rows (decide cfg (handle e) e) h)

process_each-settles :
    (now : ℕ) (jitter : ℕ → ℕ) (cfg : DispatcherConfig) (handle : OutboxEvent → Outcome)
    (es rows : List OutboxEvent)
    → All
        (λ e.
          any (is_leased_to e.id cfg.owner) (process_each now jitter cfg handle es rows) ≡ false)
        es
unfolding process_each
process_each-settles now jitter cfg handle [] rows = tt
process_each-settles now jitter cfg handle (e ∷ es) rows = (
  process_each-unleased now jitter cfg handle e.id cfg.owner es _
      (process-settles now jitter cfg (handle e) e rows),
  process_each-settles now jitter cfg handle es _,
)

-- When PollOnce returns and its statements have succeeded, no event of the batch that it claimed is
-- still in delivery under the owner's lease, whatever the handler answers.
pub poll_once-settles :
    (now : ℕ) (jitter : ℕ → ℕ) (cfg : DispatcherConfig) (handle : OutboxEvent → Outcome)
    (rows : List OutboxEvent)
    → All
        (λ e. any (is_leased_to e.id cfg.owner) (poll_once now jitter cfg handle rows).0 ≡ false)
        (claim_batch now cfg.owner cfg.lease_duration cfg.batch_size rows).1
unfolding poll_once
poll_once-settles now jitter cfg handle rows =
    let (rows', batch) = claim_batch now cfg.owner cfg.lease_duration cfg.batch_size rows in
    process_each-settles now jitter cfg handle batch rows'
