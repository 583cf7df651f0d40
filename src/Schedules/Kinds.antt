-- ===== src/Schedules/Kinds.antt =====
-- internal/runlifecycle/schedule.go: how a callback changes a row, and that no row changes its type.
use piper.Schedules.{
  set_max_runs, Schedule, is_schedule, get_schedule, claim_run, advance_next_run,
  claim_one_shot_run, set_enabled, is_waiting_for,
}
use piper.Schedules.Rows.{get-own_key, delete-OnRow, update-OnRow, OnRow}
use piper.Schedules.Views.{fire_if-row, row, store_reply-row}
use piper.Schedules.Firing.{
  answered, refused, cut_off, resume_callback, restart, delete, limit_runs, enable, finish, begin,
  ScheduleInput, next_schedule_time, begin_callback, finish_callback, schedule_fired, schedule_step,
  take_callback, Manager, Reply, store_reply, fire_if, claim_tick, skip_tick, cron_fired, disable,
  one_shot_fired, is_skipped,
}
use piper.Prelude.{
  ◌+◌, none, ◌||◌, Option-cases, ◌∷◌, str_eq, ◌∙◌, All, [], suc, zero, sym, ltb, subst, ℕ, String,
  Bool, true, false, Option, some, List, ◌≡◌, refl, arith, Bool-cases, inl, inr, ◌≤◌, ◌<◌,
}

-- A property of a row under each outcome of a callback.
module _ (P : Schedule → Type 0) (p id : String) (reply : Reply) (stamp now : ℕ) (sc : Schedule)
    (m : Manager) (h : OnRow P (row p id m)) where
  stored :
      (u : Bool × List Schedule)
      → OnRow P (get_schedule p id u.1)
      → OnRow P (row p id (store_reply reply u m).1)
  stored u k = store_reply-row p id (OnRow P) reply u m h k

  pub cron_fired-OnRow :
      (next : ℕ)
      → ((r : Schedule) (l : Option ℕ)
          → r.next_run_at ≡ sc.next_run_at
          → (m.started_at ≤ now → now < next → sc.next_run_at < next)
          → P r
          → P (record r { last_run_at = l; next_run_at = next; updated_at = stamp }))
      → OnRow P (row p id (cron_fired reply stamp now next sc m))
  unfolding cron_fired skip_tick claim_tick claim_run advance_next_run is_schedule is_waiting_for
      is_skipped
  cron_fired-OnRow next moved = elim (Bool-cases (is_skipped now sc m)) [
    | inl t ↦ rw t (
        stored (advance_next_run stamp sc.project_id sc.id sc.next_run_at next m.rows) (
          update-OnRow sc.project_id sc.id _ _ (λ q i x. refl) P p id m.rows
            (λ r w. moved r r.last_run_at (ground (arith, w)) (λ a b. ground (arith, t, a, b))) h))
    | inr f ↦ elim (Bool-cases (ltb now sc.next_run_at)) [
      | inl t ↦ rw (f, t) h
      | inr n ↦
          rw (f, n)
            (subst (OnRow P) (sym (fire_if-row p id sc _)) (
              stored (claim_run stamp sc.project_id sc.id sc.next_run_at now next m.rows) (
                update-OnRow sc.project_id sc.id _ _ (λ q i x. refl) P p id m.rows
                  (λ r w. moved r (some now) (ground (arith, w)) (λ a b. ground (arith, n, a, b)))
                  h)))
    ]
  ]

  pub one_shot_fired-OnRow :
      ((r : Schedule)
        → P r
        → P (record r {
          enabled = false;
          last_run_at = some now;
          next_run_at = now;
          updated_at = stamp;
        }))
      → OnRow P (row p id (one_shot_fired reply stamp now sc m))
  unfolding one_shot_fired claim_one_shot_run is_schedule
  one_shot_fired-OnRow moved = subst (OnRow P) (sym (fire_if-row p id sc _)) (
      stored (claim_one_shot_run stamp sc.project_id sc.id sc.next_run_at now m.rows)
        (update-OnRow sc.project_id sc.id _ _ (λ q i x. refl) P p id m.rows (λ r w. moved r) h))

  pub disable-OnRow :
      ((r : Schedule) → P r → P (record r { enabled = false; updated_at = stamp }))
      → OnRow P (row p id (disable reply stamp sc m))
  unfolding disable set_enabled is_schedule
  disable-OnRow moved =
      stored (false, set_enabled stamp sc.project_id sc.id false m.rows)
        (update-OnRow sc.project_id sc.id _ _ (λ q i x. refl) P p id m.rows (λ r w. moved r) h)

store_reply-callbacks :
    (reply : Reply) (u : Bool × List Schedule) (m : Manager)
    → (store_reply reply u m).1.callbacks ≡ m.callbacks
unfolding store_reply
store_reply-callbacks answered u m = refl
store_reply-callbacks refused u m = refl
store_reply-callbacks cut_off u m = refl

fire_if-callbacks : (sc : Schedule) (r : Bool × Manager) → (fire_if sc r).callbacks ≡ r.1.callbacks
unfolding fire_if
fire_if-callbacks sc (true, m) = refl
fire_if-callbacks sc (false, m) = refl

cron_fired-callbacks :
    (reply : Reply) (stamp now next : ℕ) (sc : Schedule) (m : Manager)
    → (cron_fired reply stamp now next sc m).callbacks ≡ m.callbacks
unfolding cron_fired skip_tick claim_tick
cron_fired-callbacks reply stamp now next sc m = elim (Bool-cases (is_skipped now sc m)) [
  | inl t ↦ rw t (store_reply-callbacks reply _ m)
  | inr f ↦ elim (Bool-cases (ltb now sc.next_run_at)) [
    | inl t ↦ rw (f, t) refl
    | inr n ↦ rw (f, n) (fire_if-callbacks sc _ ∙ store_reply-callbacks reply _ m)
  ]
]

pub schedule_fired-callbacks :
    (parse : String → Option (ℕ → ℕ)) (reply : Reply) (stamp now : ℕ) (sc : Schedule) (m : Manager)
    → (schedule_fired parse reply stamp now sc m).callbacks ≡ m.callbacks
unfolding schedule_fired disable one_shot_fired
schedule_fired-callbacks parse reply stamp now sc m =
    elim (Bool-cases (str_eq sc.schedule_type "cron")) [
      | inl t ↦ elim (Option-cases (next_schedule_time parse sc.cron_expr now)) [
        | inl e ↦ rw (t, e) (store_reply-callbacks reply _ m)
        | inr h ↦ let (next, e) = h in rw (t, e) (cron_fired-callbacks reply stamp now next sc m)
      ]
      | inr f ↦
          elim (Bool-cases
            (str_eq sc.schedule_type "once" || str_eq sc.schedule_type "immediate")) [
              | inl o ↦ rw (f, o) (fire_if-callbacks sc _ ∙ store_reply-callbacks reply _ m)
              | inr n ↦ rw (f, n) refl
            ]
    ]

-- A property of all callbacks, after one is resumed.
abbrev pub Taken : (Schedule → Type 0) → Option (Schedule × List Schedule) → Type 0
Taken P none = Unit
Taken P (some (sc, others)) = P sc × All P others

pub take_callback-Taken :
    (P : Schedule → Type 0) (n : ℕ) (cs : List Schedule) → All P cs → Taken P (take_callback n cs)
unfolding take_callback
take_callback-Taken P n [] h = tt
take_callback-Taken P zero (c ∷ cs) h = h
take_callback-Taken P (suc n) (c ∷ cs) h =
    behind (take_callback n cs) (take_callback-Taken P n cs h.1)
  where
    behind :
        (o : Option (Schedule × List Schedule))
        → Taken P o
        → Taken P (elim o [ none ↦ none | some (x, others) ↦ some (x, c ∷ others) ])
    behind none t = tt
    behind (some (x, others)) t = (t.0, (h.0, t.1))

-- The row and the running callbacks of a schedule agree on its type.
module _ (p id T : String) where
  pub record Kind (m : Manager) : Type 0 where
    pub row_kind : OnRow (λ r. r.schedule_type ≡ T) (row p id m)
    pub snapshot_kind : All (λ c. is_schedule p id c ≡ true → c.schedule_type ≡ T) m.callbacks

  schedule_fired-Kind :
      (parse : String → Option (ℕ → ℕ)) (reply : Reply) (stamp now : ℕ) (sc : Schedule)
      (m : Manager)
      → Kind m
      → Kind (schedule_fired parse reply stamp now sc m)
  unfolding schedule_fired
  schedule_fired-Kind parse reply stamp now sc m k = record {
    row_kind = elim (Bool-cases (str_eq sc.schedule_type "cron")) [
      | inl t ↦ elim (Option-cases (next_schedule_time parse sc.cron_expr now)) [
        | inl e ↦
            rw (t, e)
              (disable-OnRow (λ r. r.schedule_type ≡ T) p id reply stamp now sc m k.row_kind
                (λ r w. w))
        | inr h ↦
            let (next, e) = h in
            rw (t, e)
              (cron_fired-OnRow (λ r. r.schedule_type ≡ T) p id reply stamp now sc m k.row_kind next
                (λ r l a b w. w))
      ]
      | inr f ↦
          elim (Bool-cases
            (str_eq sc.schedule_type "once" || str_eq sc.schedule_type "immediate")) [
              | inl o ↦
                  rw (f, o)
                    (one_shot_fired-OnRow (λ r. r.schedule_type ≡ T) p id reply stamp now sc m
                      k.row_kind (λ r w. w))
              | inr n ↦ rw (f, n) k.row_kind
            ]
    ];
    snapshot_kind = rw (schedule_fired-callbacks parse reply stamp now sc m) k.snapshot_kind;
  }

  pub schedule_step-Kind :
      (parse : String → Option (ℕ → ℕ)) (i : ScheduleInput) (m : Manager)
      → Kind m
      → Kind (schedule_step parse i m)
  unfolding schedule_step finish_callback resume_callback begin_callback set_enabled set_max_runs
      is_schedule
  schedule_step-Kind parse (begin q j) m k = started (get_schedule q j m.rows) refl
    where
      started : (o : Option Schedule) → get_schedule q j m.rows ≡ o → Kind (begin_callback o m)
      started none e = k
      started (some sc) e = elim (Bool-cases sc.enabled) [
        | inl t ↦ rw t (record {
          row_kind = k.row_kind;
          snapshot_kind =
              ((λ same. rw (get-own_key p id q j m.rows sc e same) at k.row_kind), k.snapshot_kind);
        })
        | inr f ↦ rw f k
      ]
  schedule_step-Kind parse (finish reply stamp elapsed n) m k =
      resumed (take_callback n m.callbacks) (take_callback-Taken _ n m.callbacks k.snapshot_kind)
    where
      resumed :
          (o : Option (Schedule × List Schedule))
          → Taken (λ c. is_schedule p id c ≡ true → c.schedule_type ≡ T) o
          → Kind (resume_callback parse reply stamp (m.started_at + elapsed) o m)
      resumed none t = k
      resumed (some (sc, others)) t =
          schedule_fired-Kind parse reply stamp (m.started_at + elapsed) sc
            (record m { callbacks = others })
            (record { row_kind = k.row_kind; snapshot_kind = t.1 })
  schedule_step-Kind parse (enable stamp q j b) m k = record {
    row_kind = update-OnRow q j _ _ (λ q i x. refl) _ p id m.rows (λ r w a. a) k.row_kind;
    snapshot_kind = k.snapshot_kind;
  }
  schedule_step-Kind parse (limit_runs stamp q j n) m k = record {
    row_kind = update-OnRow q j _ _ (λ q i x. refl) _ p id m.rows (λ r w a. a) k.row_kind;
    snapshot_kind = k.snapshot_kind;
  }
  schedule_step-Kind parse (delete q j) m k = record {
    row_kind = delete-OnRow _ p id q j m.rows k.row_kind;
    snapshot_kind = k.snapshot_kind;
  }
  schedule_step-Kind parse (restart t) m k = record { row_kind = k.row_kind; snapshot_kind = tt }
