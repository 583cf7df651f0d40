-- ===== src/Schedules/Views.antt =====
-- internal/runlifecycle/schedule.go: what a callback of one schedule changes of another.
use piper.Schedules.{
  Schedule, is_schedule, get_schedule, update_schedule, claim_run, advance_next_run,
  claim_one_shot_run, set_enabled,
}
use piper.Schedules.Rows.{update-elsewhere}
use piper.Schedules.Firing.{
  next_schedule_time, is_skipped, Manager, Fire, Reply, answered, refused, cut_off, store_reply,
  fire_if, claim_tick, skip_tick, cron_fired, disable, one_shot_fired, schedule_fired,
}
use piper.Prelude.{
  ◌||◌, ltb, Option-cases, ◌∙◌, ℕ, String, Bool, true, false, Option, List, [], ◌∷◌, ◌&&◌, str_eq,
  ◌≡◌, refl, arith, eq_iff, Bool-cases, inl, inr, if◌then◌else◌,
}

-- The claimed ticks of one schedule, the latest first.
unfoldable pub ticks : String → String → List Fire → List ℕ
ticks p id [] = []
ticks p id (f ∷ fired) =
    let rest = ticks p id fired in
    if str_eq f.project_id p && str_eq f.schedule_id id then f.scheduled_at ∷ rest else rest

module _ (p id : String) where
  abbrev pub row : Manager → Option Schedule
  row m = get_schedule p id m.rows

  abbrev pub past : Manager → List ℕ
  past m = ticks p id m.fired

  -- Nothing changes for this schedule.
  abbrev pub Same : Manager → Manager → Type 0
  Same m n = (row n ≡ row m) × (past n ≡ past m)

  pub fire_if-row : (sc : Schedule) (r : Bool × Manager) → row (fire_if sc r) ≡ row r.1
  unfolding fire_if
  fire_if-row sc (true, m) = refl
  fire_if-row sc (false, m) = refl

  pub store_reply-row :
      (P : Option Schedule → Type 0) (reply : Reply) (u : Bool × List Schedule) (m : Manager)
      → P (row m)
      → P (get_schedule p id u.1)
      → P (row (store_reply reply u m).1)
  unfolding store_reply
  store_reply-row P answered u m h k = k
  store_reply-row P refused u m h k = h
  store_reply-row P cut_off u m h k = k

  pub store_reply-past :
      (reply : Reply) (u : Bool × List Schedule) (m : Manager)
      → past (store_reply reply u m).1 ≡ past m
  unfolding store_reply
  store_reply-past answered u m = refl
  store_reply-past refused u m = refl
  store_reply-past cut_off u m = refl

  past-fire :
      (sc : Schedule) (m : Manager)
      → is_schedule p id sc ≡ true
      → past (fire_if sc (true, m)) ≡ sc.next_run_at ∷ past m
  unfolding fire_if ticks is_schedule
  past-fire sc m own = ground (arith, own)

  -- What holds of the row and the ticks under each outcome of a claim holds after it.
  pub fire_store-view :
      (Q : Option Schedule → List ℕ → Type 0) (sc : Schedule)
      → is_schedule p id sc ≡ true
      → (reply : Reply) (u : Bool × List Schedule) (m : Manager) → Q (row m) (past m)
      → Q (get_schedule p id u.1) (past m)
      → (u.0 ≡ true → Q (get_schedule p id u.1) (sc.next_run_at ∷ past m))
      → Q (row (fire_if sc (store_reply reply u m))) (past (fire_if sc (store_reply reply u m)))
  unfolding store_reply
  fire_store-view Q sc own answered u m h moved fired = elim (Bool-cases u.0) [
    | inl t ↦
        rw
          (
            t,
            fire_if-row sc (true, record m { rows = u.1 }),
            past-fire sc (record m { rows = u.1 }) own,
          )
          (fired t)
    | inr f ↦ rw f (unfold fire_if in moved)
  ]
  fire_store-view Q sc own refused u m h moved fired = unfold fire_if in h
  fire_store-view Q sc own cut_off u m h moved fired = unfold fire_if in moved

  module _ (sc : Schedule) (other : is_schedule p id sc ≡ false) where
    apart : (x : Schedule) → is_schedule sc.project_id sc.id x ≡ true → is_schedule p id x ≡ false
    unfolding is_schedule
    apart x h = ground (
      arith,
      h,
      other,
      eq_iff x.project_id sc.project_id,
      eq_iff x.id sc.id,
      eq_iff sc.project_id p,
      eq_iff sc.id id,
    )

    fire_if-past : (r : Bool × Manager) → Same r.1 (fire_if sc r)
    unfolding fire_if ticks is_schedule
    fire_if-past (true, m) = (refl, ground (arith, other))
    fire_if-past (false, m) = (refl, refl)

    store-Same :
        (reply : Reply) (u : Bool × List Schedule) (m : Manager)
        → get_schedule p id u.1 ≡ row m
        → Same m (store_reply reply u m).1
    store-Same reply u m e =
        (store_reply-row (λ r. r ≡ row m) reply u m refl e, store_reply-past reply u m)

    fire_store-Same :
        (reply : Reply) (u : Bool × List Schedule) (m : Manager)
        → get_schedule p id u.1 ≡ row m
        → Same m (fire_if sc (store_reply reply u m))
    fire_store-Same reply u m e =
        let (a, b) = store-Same reply u m e in
        let (c, d) = fire_if-past (store_reply reply u m) in (c ∙ a, d ∙ b)

    update-Same :
        (clause : Schedule → Bool) (change : Schedule → Schedule)
        → ((q i : String) (x : Schedule) → is_schedule q i (change x) ≡ is_schedule q i x)
        → (m : Manager)
        → get_schedule p id (update_schedule sc.project_id sc.id clause change m.rows).1 ≡ row m
    update-Same clause change keeps m =
        update-elsewhere sc.project_id sc.id clause change keeps p id m.rows apart

    cron_fired-Same :
        (reply : Reply) (stamp now next : ℕ) (m : Manager)
        → Same m (cron_fired reply stamp now next sc m)
    unfolding cron_fired skip_tick claim_tick claim_run advance_next_run is_schedule
    cron_fired-Same reply stamp now next m = elim (Bool-cases (is_skipped now sc m)) [
      | inl t ↦ rw t (
          store-Same reply (advance_next_run stamp sc.project_id sc.id sc.next_run_at next m.rows) m
            (update-Same _ _ (λ q i x. refl) m))
      | inr f ↦ elim (Bool-cases (ltb now sc.next_run_at)) [
        | inl t ↦ rw (f, t) (refl, refl)
        | inr n ↦
            rw (f, n)
              (fire_store-Same reply
                (claim_run stamp sc.project_id sc.id sc.next_run_at now next m.rows) m
                (update-Same _ _ (λ q i x. refl) m))
      ]
    ]

    one_shot_fired-Same :
        (reply : Reply) (stamp now : ℕ) (m : Manager) → Same m (one_shot_fired reply stamp now sc m)
    unfolding one_shot_fired claim_one_shot_run is_schedule
    one_shot_fired-Same reply stamp now m =
        fire_store-Same reply
          (claim_one_shot_run stamp sc.project_id sc.id sc.next_run_at now m.rows) m
          (update-Same _ _ (λ q i x. refl) m)

    disable-Same : (reply : Reply) (stamp : ℕ) (m : Manager) → Same m (disable reply stamp sc m)
    unfolding disable set_enabled is_schedule
    disable-Same reply stamp m =
        store-Same reply (false, set_enabled stamp sc.project_id sc.id false m.rows) m
          (update-Same _ _ (λ q i x. refl) m)

    pub schedule_fired-Same :
        (parse : String → Option (ℕ → ℕ)) (reply : Reply) (stamp now : ℕ) (m : Manager)
        → Same m (schedule_fired parse reply stamp now sc m)
    unfolding schedule_fired
    schedule_fired-Same parse reply stamp now m =
        elim (Bool-cases (str_eq sc.schedule_type "cron")) [
          | inl t ↦ elim (Option-cases (next_schedule_time parse sc.cron_expr now)) [
            | inl e ↦ rw (t, e) (disable-Same reply stamp m)
            | inr h ↦ let (next, e) = h in rw (t, e) (cron_fired-Same reply stamp now next m)
          ]
          | inr f ↦
              elim (Bool-cases
                (str_eq sc.schedule_type "once" || str_eq sc.schedule_type "immediate")) [
                  | inl o ↦ rw (f, o) (one_shot_fired-Same reply stamp now m)
                  | inr n ↦ rw (f, n) (refl, refl)
                ]
        ]
