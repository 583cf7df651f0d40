-- ===== src/Outbox/Batch.antt =====
-- internal/store/sqlite/integration_outbox.go: what ClaimBatch hands out of its candidates.
use piper.Outbox.Order.{insert_by_time-All, sort_by_time-All, take_events-All}
use piper.Outbox.Progress.{Member, aggregate-candidate, ready_at}
use piper.Outbox.Leases.{IsLeaseSound}
use piper.Outbox.{
  OutboxEvent, is_candidate, is_unsettled, same_aggregate, candidates, insert_by_time, sort_by_time,
  take_events, may_claim, claimed_event, claim_each, claim_batch, update_where,
}
use piper.Prelude.{
  ℕ, zero, suc, ◌+◌, ◌<◌, String, Bool, true, false, List, [], ◌∷◌, ◌≡◌, refl, ap, ◌∙◌, sym, arith,
  Bool-cases, inl, inr, ◌⊎◌, All, All-map, keep, any, map, length, str_eq, eq_iff, eq_refl, leb,
}

-- No event of the list has this id; the ids are different, as the primary key demands.
abbrev Apart : String → List OutboxEvent → Type 0
Apart id es = All (λ y. str_eq y.id id ≡ false) es

abbrev pub Distinct : List OutboxEvent → Type 0
Distinct [] = Unit
Distinct (e ∷ es) = Apart e.id es × Distinct es

keep-All :
    (P : OutboxEvent → Type 0) (p : OutboxEvent → Bool) (es : List OutboxEvent)
    → All P es
    → All P (keep p es)
keep-All P p [] h = tt
keep-All P p (e ∷ es) h = elim (Bool-cases (p e)) [
  | inl t ↦ rw t (h.0, keep-All P p es h.1)
  | inr f ↦ rw f (keep-All P p es h.1)
]

keep-Distinct :
    (p : OutboxEvent → Bool) (es : List OutboxEvent) → Distinct es → Distinct (keep p es)
keep-Distinct p [] h = tt
keep-Distinct p (e ∷ es) h = elim (Bool-cases (p e)) [
  | inl t ↦ rw t (keep-All _ p es h.0, keep-Distinct p es h.1)
  | inr f ↦ rw f (keep-Distinct p es h.1)
]

insert_by_time-Distinct :
    (e : OutboxEvent) (es : List OutboxEvent)
    → Apart e.id es
    → Distinct es
    → Distinct (insert_by_time e es)
unfolding insert_by_time
insert_by_time-Distinct e [] a d = (tt, tt)
insert_by_time-Distinct e (x ∷ es) a d =
    elim (Bool-cases (leb e.next_attempt_at x.next_attempt_at)) [
      | inl t ↦ rw t (a, d)
      | inr f ↦
          let apart : str_eq e.id x.id ≡ false =
            ground (arith, a.0, eq_iff x.id e.id, eq_iff e.id x.id) in
          rw f (
            insert_by_time-All (λ y. str_eq y.id x.id ≡ false) e es apart d.0,
            insert_by_time-Distinct e es a.1 d.1,
          )
    ]

sort_by_time-Distinct : (es : List OutboxEvent) → Distinct es → Distinct (sort_by_time es)
unfolding sort_by_time
sort_by_time-Distinct [] d = tt
sort_by_time-Distinct (e ∷ es) d =
    insert_by_time-Distinct e (sort_by_time es) (sort_by_time-All _ es d.0)
      (sort_by_time-Distinct es d.1)

take_events-Distinct : (n : ℕ) (es : List OutboxEvent) → Distinct es → Distinct (take_events n es)
unfolding take_events
take_events-Distinct zero es d = tt
take_events-Distinct (suc n) [] d = tt
take_events-Distinct (suc n) (e ∷ es) d =
    (take_events-All _ n es d.0, take_events-Distinct n es d.1)

-- The UPDATE of this event would change a row.
abbrev Claimable : ℕ → List OutboxEvent → OutboxEvent → Type 0
Claimable now rows e = any (may_claim now e.id) rows ≡ true

keep-Claimable :
    (now : ℕ) (table rows : List OutboxEvent)
    → All (Claimable now rows) (keep (is_candidate now table) rows)
keep-Claimable now table [] = tt
keep-Claimable now table (e ∷ rows) =
    let later : All (Claimable now (e ∷ rows)) (keep (is_candidate now table) rows) =
      All-map _ _ _ (λ y h. ground (arith, h)) (keep-Claimable now table rows) in
    elim (Bool-cases (is_candidate now table e)) [
      | inl t ↦ rw t (ground (arith, eq_refl e.id), later)
      | inr f ↦ rw f later
    ]

module _ (now : ℕ) (owner : String) (expires : ℕ) where
  update-Claimable :
      (id other : String) (rows : List OutboxEvent)
      → str_eq other id ≡ false
      → any
          (may_claim now other)
          (update_where (may_claim now id) (claimed_event owner expires) rows)
        ≡ any (may_claim now other) rows
  unfolding update_where claimed_event
  update-Claimable id other [] h = refl
  update-Claimable id other (e ∷ rows) h =
      ground (
        arith,
        update-Claimable id other rows h,
        eq_iff e.id id,
        eq_iff e.id other,
        eq_iff other id,
      )

  -- The loop claims every event of the list.
  claim_each_lem :
      (es rows : List OutboxEvent)
      → Distinct es
      → All (Claimable now rows) es
      → (claim_each now owner expires es rows).1 ≡ map (claimed_event owner expires) es
  unfolding claim_each
  claim_each_lem [] rows d c = refl
  claim_each_lem (e ∷ es) rows d c =
      let rest =
        claim_each_lem es (update_where (may_claim now e.id) (claimed_event owner expires) rows) d.1
          (both es d.0 c.1) in
      rw (c.0, rest) refl
    where
      both :
          (l : List OutboxEvent)
          → Apart e.id l
          → All (Claimable now rows) l
          → All
              (Claimable now (update_where (may_claim now e.id) (claimed_event owner expires) rows))
              l
      both [] a h = tt
      both (y ∷ l) a h = (update-Claimable e.id y.id rows a.0 ∙ h.0, both l a.1 h.1)

-- ClaimBatch hands out all its candidates.
claim_batch-candidates :
    (now : ℕ) (owner : String) (lease_duration limit : ℕ) (rows : List OutboxEvent)
    → Distinct rows
    → (claim_batch now owner lease_duration limit rows).1
      ≡ map (claimed_event owner (now + lease_duration)) (candidates now limit rows)
unfolding claim_batch candidates
claim_batch-candidates now owner lease_duration limit rows d =
    claim_each_lem now owner (now + lease_duration) _ rows
      (take_events-Distinct limit _ (sort_by_time-Distinct _ (keep-Distinct _ rows d)))
      (take_events-All (Claimable now rows) limit _
        (sort_by_time-All (Claimable now rows) _ (keep-Claimable now rows rows)))

Member-keep :
    (p : OutboxEvent → Bool) (e : OutboxEvent) (es : List OutboxEvent)
    → Member e es
    → p e ≡ true
    → Member e (keep p es)
Member-keep p e [] m h = m
Member-keep p e (x ∷ es) (inl same) h = rw (sym (ap p same) ∙ h) (inl same)
Member-keep p e (x ∷ es) (inr m) h = elim (Bool-cases (p x)) [
  | inl t ↦ rw t (inr (Member-keep p e es m h))
  | inr f ↦ rw f (Member-keep p e es m h)
]

Member-insert :
    (x e : OutboxEvent) (es : List OutboxEvent)
    → (x ≡ e) ⊎ Member x es
    → Member x (insert_by_time e es)
unfolding insert_by_time
Member-insert x e [] m = m
Member-insert x e (y ∷ es) m = elim (Bool-cases (leb e.next_attempt_at y.next_attempt_at)) [
  | inl t ↦ rw t m
  | inr f ↦ rw f (elim m [
    | inl same ↦ inr (Member-insert x e es (inl same))
    | inr (inl same) ↦ inl same
    | inr (inr m') ↦ inr (Member-insert x e es (inr m'))
  ])
]

Member-sort : (x : OutboxEvent) (es : List OutboxEvent) → Member x es → Member x (sort_by_time es)
unfolding sort_by_time
Member-sort x [] m = m
Member-sort x (e ∷ es) (inl same) = Member-insert x e (sort_by_time es) (inl same)
Member-sort x (e ∷ es) (inr m) = Member-insert x e (sort_by_time es) (inr (Member-sort x es m))

-- It is among those taken, or as many as may be are taken.
Member-take :
    (x : OutboxEvent) (n : ℕ) (es : List OutboxEvent)
    → Member x es
    → Member x (take_events n es) ⊎ (length (take_events n es) ≡ n)
unfolding take_events
Member-take x zero es m = inr refl
Member-take x (suc n) [] m = absurd m
Member-take x (suc n) (e ∷ es) (inl same) = inl (inl same)
Member-take x (suc n) (e ∷ es) (inr m) = elim (Member-take x n es m) [
  | inl m' ↦ inl (inr m')
  | inr l ↦ inr (ap suc l)
]

Member-map :
    (f : OutboxEvent → OutboxEvent) (x : OutboxEvent) (es : List OutboxEvent)
    → Member x es
    → Member (f x) (map f es)
Member-map f x [] m = m
Member-map f x (e ∷ es) (inl same) = inl (ap f same)
Member-map f x (e ∷ es) (inr m) = inr (Member-map f x es m)

length-map_events :
    (f : OutboxEvent → OutboxEvent) (es : List OutboxEvent) → length (map f es) ≡ length es
length-map_events f [] = refl
length-map_events f (e ∷ es) = ap suc (length-map_events f es)

-- Once every waiting time and every lease of the table has run out, for each aggregate that has a
-- pending or delivering event: ClaimBatch hands out one of the aggregate's events, or as many events as
-- its limit allows. The events have different ids, and exactly the delivering ones have a lease.
pub claim_batch-aggregate :
    (now : ℕ) (owner : String) (lease_duration limit : ℕ) (rows : List OutboxEvent)
    (e : OutboxEvent)
    → Distinct rows
    → All IsLeaseSound rows
    → All (λ x. ready_at x.status x.next_attempt_at x.lease_expires_at < now) rows
    → Member e rows
    → is_unsettled e.status ≡ true
    → (x : OutboxEvent) × (same_aggregate x e ≡ true)
      × (Member
            (claimed_event owner (now + lease_duration) x)
            (claim_batch now owner lease_duration limit rows).1
          ⊎ (length (claim_batch now owner lease_duration limit rows).1 ≡ limit))
claim_batch-aggregate now owner lease_duration limit rows e d sound over m h =
    let (x, mx, same, c) = aggregate-candidate now rows e sound over m h in
    let all' = claim_batch-candidates now owner lease_duration limit rows d in
    (x, same, rw all' (taken x mx c))
  where
    taken :
        (x : OutboxEvent)
        → Member x rows
        → is_candidate now rows x ≡ true
        → Member
            (claimed_event owner (now + lease_duration) x)
            (map (claimed_event owner (now + lease_duration)) (candidates now limit rows))
          ⊎ (length (map (claimed_event owner (now + lease_duration)) (candidates now limit rows))
              ≡ limit)
    taken x mx c =
        unfold candidates in
        elim (Member-take x limit (sort_by_time (keep (is_candidate now rows) rows))
          (Member-sort x _ (Member-keep (is_candidate now rows) x rows mx c))) [
            | inl t ↦ inl (Member-map _ x _ t)
            | inr l ↦ inr (length-map_events _ _ ∙ l)
          ]
