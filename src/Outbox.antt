-- ===== src/Outbox.antt =====
-- internal/store/sqlite/integration_outbox.go: the table of outbox events and its statements.
-- Each function is one statement, and claim_batch a SELECT with its UPDATEs; the table is a list in the
-- order of the row ids. Of candidates with the same time, SQLite may pick any first; the model keeps
-- the order of the table.
pub mod Backoff
pub mod Dispatcher
pub mod Final
pub mod Leases
pub mod Order
pub mod Progress
pub mod Batch
pub mod Settled
use piper.Prelude.{
  not, ◌||◌, ◌++◌, leb, ◌+◌, ◌==◌, keep, ltb, ◌∷◌, str_eq, any, ◌&&◌, if◌then◌else◌, [], suc, zero,
  some, none, false, true, ℕ, String, Bool, Option, List,
}

-- Event.Status
pub data EventStatus : Type 0 where
  pending delivering delivered dead disabled : EventStatus

pub record OutboxEvent : Type 0 where
  pub id : String
  pub integration_id : String
  pub project_id : String
  pub aggregate_type : String
  pub aggregate_id : String
  pub sequence : ℕ
  pub event_type : String
  pub payload_json : String
  pub status : EventStatus
  pub attempts : ℕ
  pub next_attempt_at : ℕ
  pub lease_owner : String
  pub lease_expires_at : Option ℕ
  pub last_error_code : String
  pub last_error : String
  pub created_at : ℕ
  pub delivered_at : Option ℕ

abbrev pub is_waiting_event : EventStatus → Bool
is_waiting_event EventStatus.pending = true
is_waiting_event _ = false

abbrev pub is_delivering : EventStatus → Bool
is_delivering EventStatus.delivering = true
is_delivering _ = false

-- status IN ('pending', 'delivering')
abbrev pub is_unsettled : EventStatus → Bool
is_unsettled EventStatus.pending = true
is_unsettled EventStatus.delivering = true
is_unsettled _ = false

-- UPDATE ... WHERE
unfoldable pub update_where :
    (OutboxEvent → Bool) → (OutboxEvent → OutboxEvent) → List OutboxEvent → List OutboxEvent
update_where p f [] = []
update_where p f (e ∷ es) = (if p e then f e else e) ∷ update_where p f es

abbrev pub same_aggregate : OutboxEvent → OutboxEvent → Bool
same_aggregate a b =
    str_eq a.integration_id b.integration_id
    && (str_eq a.aggregate_type b.aggregate_type && str_eq a.aggregate_id b.aggregate_id)

-- COALESCE(MAX(sequence), 0) over the events of the aggregate.
unfoldable pub max_sequence : OutboxEvent → List OutboxEvent → ℕ
max_sequence e [] = 0
max_sequence e (x ∷ xs) =
    let m = max_sequence e xs in if same_aggregate x e && ltb m x.sequence then x.sequence else m

-- A row that the primary key or the unique index keeps out.
abbrev pub conflicts : OutboxEvent → OutboxEvent → Bool
conflicts e x =
    str_eq x.id e.id
    || (same_aggregate x e && (x.sequence == e.sequence && str_eq x.event_type e.event_type))

-- The event that Enqueue inserts; `uuid` is a new id for an event without one.
unfoldable pub new_event : ℕ → String → OutboxEvent → List OutboxEvent → OutboxEvent
new_event now uuid e rows = record e {
  id = if str_eq e.id "" then uuid else e.id;
  status = EventStatus.pending;
  attempts = 0;
  next_attempt_at = now;
  created_at = now;
  sequence = if e.sequence == 0 then max_sequence e rows + 1 else e.sequence;
  lease_owner = "";
  lease_expires_at = none;
  last_error_code = "";
  last_error = "";
  delivered_at = none;
}

-- Enqueue; `none` is the error of the INSERT. `known` says whether the integration is there, which
-- the table refers to.
unfoldable pub enqueue :
    ℕ → String → Bool → OutboxEvent → List OutboxEvent → Option (List OutboxEvent)
enqueue now uuid known e rows =
    let row = new_event now uuid e rows in
    if not known || any (conflicts row) rows then none else some (rows ++ row ∷ [])

-- lease_expires_at < now, which is not true of NULL.
abbrev pub lease_is_over : ℕ → Option ℕ → Bool
lease_is_over now none = false
lease_is_over now (some t) = ltb t now

abbrev pub is_due : ℕ → OutboxEvent → Bool
is_due now e =
    (is_waiting_event e.status && leb e.next_attempt_at now)
    || (is_delivering e.status && lease_is_over now e.lease_expires_at)

-- MIN(sequence) over the unsettled events of the aggregate; `none` is NULL.
unfoldable pub min_sequence : OutboxEvent → List OutboxEvent → Option ℕ
min_sequence e [] = none
min_sequence e (x ∷ xs) =
    let rest = min_sequence e xs in
    if same_aggregate x e && is_unsettled x.status
    then elim rest [
      | none ↦ some x.sequence
      | some m ↦ some (if ltb m x.sequence then m else x.sequence)
    ]
    else rest

abbrev pub is_minimum : ℕ → Option ℕ → Bool
is_minimum n none = false
is_minimum n (some m) = n == m

-- The WHERE clause of ClaimBatch.
abbrev pub is_candidate : ℕ → List OutboxEvent → OutboxEvent → Bool
is_candidate now rows e = is_due now e && is_minimum e.sequence (min_sequence e rows)

unfoldable pub insert_by_time : OutboxEvent → List OutboxEvent → List OutboxEvent
insert_by_time e [] = e ∷ []
insert_by_time e (x ∷ xs) =
    let rest = insert_by_time e xs in
    if leb e.next_attempt_at x.next_attempt_at then e ∷ x ∷ xs else x ∷ rest

-- ORDER BY next_attempt_at ASC
unfoldable pub sort_by_time : List OutboxEvent → List OutboxEvent
sort_by_time [] = []
sort_by_time (e ∷ es) = insert_by_time e (sort_by_time es)

-- LIMIT
unfoldable pub take_events : ℕ → List OutboxEvent → List OutboxEvent
take_events zero es = []
take_events (suc n) [] = []
take_events (suc n) (e ∷ es) = e ∷ take_events n es

unfoldable pub candidates : ℕ → ℕ → List OutboxEvent → List OutboxEvent
candidates now limit rows = take_events limit (sort_by_time (keep (is_candidate now rows) rows))

-- The WHERE clause of the UPDATE that claims.
abbrev pub may_claim : ℕ → String → OutboxEvent → Bool
may_claim now id e =
    str_eq e.id id
    && (is_waiting_event e.status
        || (is_delivering e.status && lease_is_over now e.lease_expires_at))

unfoldable pub claimed_event : String → ℕ → OutboxEvent → OutboxEvent
claimed_event owner expires e = record e {
  status = EventStatus.delivering;
  lease_owner = owner;
  lease_expires_at = some expires;
  attempts = e.attempts + 1;
}

-- The UPDATE of one candidate: the new table, and whether a row was changed.
abbrev pub claim_event : ℕ → String → ℕ → String → List OutboxEvent → List OutboxEvent × Bool
claim_event now owner expires id rows = (
  update_where (may_claim now id) (claimed_event owner expires) rows,
  any (may_claim now id) rows,
)

-- The loop over the candidates: the new table, and the events that were claimed.
unfoldable pub claim_each :
    ℕ → String → ℕ → List OutboxEvent → List OutboxEvent → List OutboxEvent × List OutboxEvent
claim_each now owner expires [] rows = (rows, [])
claim_each now owner expires (e ∷ es) rows =
    let (rows', got) =
      claim_each now owner expires es (claim_event now owner expires e.id rows).0 in
    (
      rows',
      if (claim_event now owner expires e.id rows).1
          then claimed_event owner expires e ∷ got
          else got,
    )

-- ClaimBatch, where no other statement comes between its SELECT and its UPDATEs.
unfoldable pub claim_batch :
    ℕ → String → ℕ → ℕ → List OutboxEvent → List OutboxEvent × List OutboxEvent
claim_batch now owner lease_duration limit rows =
    claim_each now owner (now + lease_duration) (candidates now limit rows) rows

-- The WHERE clause of the three Mark statements.
abbrev pub is_leased_to : String → String → OutboxEvent → Bool
is_leased_to id owner e = str_eq e.id id && (str_eq e.lease_owner owner && is_delivering e.status)

unfoldable pub without_lease : EventStatus → OutboxEvent → OutboxEvent
without_lease to e = record e { status = to; lease_owner = ""; lease_expires_at = none }

-- The new table, and whether a row was changed; `false` is ErrNotFound.
unfoldable pub mark :
    String → String → (OutboxEvent → OutboxEvent) → List OutboxEvent → List OutboxEvent × Bool
mark id owner f rows =
    (update_where (is_leased_to id owner) f rows, any (is_leased_to id owner) rows)

unfoldable pub delivered_event : ℕ → OutboxEvent → OutboxEvent
delivered_event now e = record (without_lease EventStatus.delivered e) { delivered_at = some now }

unfoldable pub mark_delivered : ℕ → String → String → List OutboxEvent → List OutboxEvent × Bool
mark_delivered now id owner rows = mark id owner (delivered_event now) rows

unfoldable pub retried_event : ℕ → String → String → OutboxEvent → OutboxEvent
retried_event next code message e = record (without_lease EventStatus.pending e) {
  next_attempt_at = next;
  last_error_code = code;
  last_error = message;
}

unfoldable pub mark_retry :
    String → String → ℕ → String → String → List OutboxEvent → List OutboxEvent × Bool
mark_retry id owner next code message rows = mark id owner (retried_event next code message) rows

unfoldable pub dead_event : String → String → OutboxEvent → OutboxEvent
dead_event code message e = record (without_lease EventStatus.dead e) {
  last_error_code = code;
  last_error = message;
}

unfoldable pub mark_dead :
    String → String → String → String → List OutboxEvent → List OutboxEvent × Bool
mark_dead id owner code message rows = mark id owner (dead_event code message) rows

-- DisableIntegrationEvents, less the count that it returns.
unfoldable pub disable_integration_events : String → List OutboxEvent → List OutboxEvent
disable_integration_events integration_id rows =
    update_where (λ e. str_eq e.integration_id integration_id && is_unsettled e.status)
      (without_lease EventStatus.disabled) rows
