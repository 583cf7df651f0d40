-- ===== src/Schedules/OneShot.antt =====
-- internal/runlifecycle/schedule.go: the runs that a schedule of type once or immediate starts.
use piper.Schedules.Kinds.{take_callback-Taken, schedule_step-Kind, Taken, Kind}
use piper.Schedules.{
  set_max_runs, set_enabled, Schedule, is_schedule, get_schedule, claim_one_shot_run,
  is_waiting_for,
}
use piper.Schedules.Rows.{
  update-elsewhere, delete-OnRow, update-OnRow, OnRow, update-affected, get-key,
}
use piper.Schedules.Views.{ticks, row, past, schedule_fired-Same, fire_store-view}
use piper.Schedules.Firing.{
  take_callback, restart, finish_callback, delete, resume_callback, limit_runs, begin_callback,
  finish, schedule_step, begin, run, Manager, Reply, one_shot_fired, schedule_fired, ScheduleInput,
  enable,
}
use piper.Prelude.{
  eq_iff, some, none, sym, ◌∙◌, ◌||◌, subst, ℕ, suc, String, Bool, true, false, Option, List, [],
  ◌∷◌, ◌&&◌, str_eq, ◌≡◌, refl, arith, Bool-cases, inl, inr, if◌then◌else◌, ◌≤◌, ◌+◌, length,
}

-- At most `k` ticks are claimed, fewer while the schedule is enabled.
abbrev Fits : ℕ → Option Schedule → List ℕ → Type 0
Fits k o ts = OnRow (λ r. r.enabled ≡ true → suc (length ts) ≤ k) o × (length ts ≤ k)

-- How often the schedule is enabled by a user.
abbrev pub enables : String → String → List ScheduleInput → ℕ
enables p id [] = 0
enables p id (enable stamp q j true ∷ inputs) =
    (if str_eq q p && str_eq j id then 1 else 0) + enables p id inputs
enables p id (i ∷ inputs) = enables p id inputs

-- One more tick is allowed after an input that enables the schedule.
abbrev allow : String → String → ScheduleInput → ℕ → ℕ
allow p id (enable stamp q j true) k = if str_eq q p && str_eq j id then suc k else k
allow p id i k = k

module _ (p id : String) (k : ℕ) where
  module _ (stamp now : ℕ) (sc : Schedule) (m : Manager) (own : is_schedule p id sc ≡ true)
      (h : Fits k (row p id m) (past p id m)) where
    abbrev claim : Bool × List Schedule
    claim = claim_one_shot_run stamp sc.project_id sc.id sc.next_run_at now m.rows

    moved : Fits k (get_schedule p id claim.1) (past p id m)
    unfolding claim_one_shot_run is_schedule is_waiting_for
    moved = (
      update-OnRow sc.project_id sc.id _ _ (λ q i x. refl) _ p id m.rows
          (λ r w a e. absurd (ground (arith, e))) h.0,
      h.1,
    )

    fired : claim.0 ≡ true → Fits k (get_schedule p id claim.1) (sc.next_run_at ∷ past p id m)
    unfolding claim_one_shot_run is_schedule is_waiting_for
    fired ok =
        let (old, e, w, e') = update-affected sc.project_id sc.id _ _ (λ q i x. refl) m.rows ok in
        let spare =
          subst (OnRow (λ r. r.enabled ≡ true → suc (length (past p id m)) ≤ k))
            (get-key p id sc own m.rows ∙ e) h.0 in
        (
          subst (OnRow (λ r. r.enabled ≡ true → suc (suc (length (past p id m))) ≤ k))
              (sym (get-key p id sc own claim.1 ∙ e')) (λ on. absurd (ground (arith, on))),
          spare (ground (arith, w)),
        )

    one_shot_fired-Fits :
        (reply : Reply)
        → Fits k
            (row p id (one_shot_fired reply stamp now sc m))
            (past p id (one_shot_fired reply stamp now sc m))
    unfolding one_shot_fired
    one_shot_fired-Fits reply = fire_store-view p id (Fits k) sc own reply claim m h moved fired

  schedule_fired-Fits :
      (parse : String → Option (ℕ → ℕ)) (reply : Reply) (stamp now : ℕ) (sc : Schedule)
      (m : Manager)
      → (is_schedule p id sc ≡ true → str_eq sc.schedule_type "cron" ≡ false)
      → Fits k (row p id m) (past p id m)
      → Fits k
          (row p id (schedule_fired parse reply stamp now sc m))
          (past p id (schedule_fired parse reply stamp now sc m))
  unfolding schedule_fired
  schedule_fired-Fits parse reply stamp now sc m kind h = elim (Bool-cases (is_schedule p id sc)) [
    | inl own ↦
        elim (Bool-cases (str_eq sc.schedule_type "once" || str_eq sc.schedule_type "immediate")) [
          | inl o ↦ rw (kind own, o) (one_shot_fired-Fits stamp now sc m own h reply)
          | inr n ↦ rw (kind own, n) h
        ]
    | inr other ↦
        let (a, b) = schedule_fired-Same p id sc other parse reply stamp now m in rw (a, b) h
  ]

module _ (p id T : String) (one_shot : str_eq T "cron" ≡ false)
    (parse : String → Option (ℕ → ℕ)) where
  -- A user turns a schedule on or off.
  enable-Fits :
      (k stamp : ℕ) (q j : String) (b : Bool) (m : Manager)
      → Fits k (row p id m) (past p id m)
      → Fits
          (allow p id (enable stamp q j b) k)
          (get_schedule p id (set_enabled stamp q j b m.rows))
          (past p id m)
  unfolding set_enabled is_schedule
  enable-Fits k stamp q j false m h = (
    update-OnRow q j _ _ (λ q i x. refl) _ p id m.rows (λ r w a e. absurd (ground (arith, e))) h.0,
    h.1,
  )
  enable-Fits k stamp q j true m h = elim (Bool-cases (str_eq q p && str_eq j id)) [
    | inl t ↦
        rw t (relax (get_schedule p id (set_enabled stamp q j true m.rows)), omega (arith, h.1))
    | inr f ↦ rw f (
        subst (λ o. Fits k o (past p id m))
          (sym (update-elsewhere q j _ _ (λ q i x. refl) p id m.rows (apart f))) h)
  ]
    where
      relax :
          (o : Option Schedule)
          → OnRow (λ r. r.enabled ≡ true → suc (length (past p id m)) ≤ suc k) o
      relax none = tt
      relax (some r) = λ on. omega (arith, h.1)

      apart :
          (str_eq q p && str_eq j id) ≡ false
          → (sc : Schedule) → is_schedule q j sc ≡ true
          → is_schedule p id sc ≡ false
      apart f sc t = ground (
        arith,
        f,
        t,
        eq_iff sc.project_id q,
        eq_iff sc.id j,
        eq_iff q p,
        eq_iff j id,
        eq_iff sc.project_id p,
        eq_iff sc.id id,
      )

  schedule_step-Fits :
      (k : ℕ) (i : ScheduleInput) (m : Manager)
      → Kind p id T m
      → Fits k (row p id m) (past p id m)
      → Fits
          (allow p id i k)
          (row p id (schedule_step parse i m))
          (past p id (schedule_step parse i m))
  schedule_step-Fits k (begin q j) m kind h =
      unfold schedule_step in begun (get_schedule q j m.rows)
    where
      begun :
          (o : Option Schedule)
          → Fits k (row p id (begin_callback o m)) (past p id (begin_callback o m))
      begun none = unfold begin_callback in h
      begun (some sc) =
          unfold begin_callback in elim (Bool-cases sc.enabled) [ inl t ↦ rw t h | inr f ↦ rw f h ]
  schedule_step-Fits k (finish reply stamp elapsed n) m kind h =
      unfold schedule_step finish_callback in
      resumed (take_callback n m.callbacks) (take_callback-Taken _ n m.callbacks kind.snapshot_kind)
    where
      resumed :
          (o : Option (Schedule × List Schedule))
          → Taken (λ c. is_schedule p id c ≡ true → c.schedule_type ≡ T) o
          → Fits k
              (row p id (resume_callback parse reply stamp (m.started_at + elapsed) o m))
              (past p id (resume_callback parse reply stamp (m.started_at + elapsed) o m))
      resumed none t = unfold resume_callback in h
      resumed (some (sc, others)) t =
          unfold resume_callback in
          schedule_fired-Fits p id k parse reply stamp (m.started_at + elapsed) sc
            (record m { callbacks = others }) (λ own. rw (t.0 own) one_shot) h
  schedule_step-Fits k (enable stamp q j b) m kind h =
      unfold schedule_step in enable-Fits k stamp q j b m h
  schedule_step-Fits k (limit_runs stamp q j n) m kind h =
      unfold schedule_step set_max_runs is_schedule in
      (update-OnRow q j _ _ (λ q i x. refl) _ p id m.rows (λ x w a. a) h.0, h.1)
  schedule_step-Fits k (delete q j) m kind h =
      unfold schedule_step in (delete-OnRow _ p id q j m.rows h.0, h.1)
  schedule_step-Fits k (restart t) m kind h = unfold schedule_step in h

  run-Fits :
      (k : ℕ) (inputs : List ScheduleInput) (m : Manager)
      → Kind p id T m
      → Fits k (row p id m) (past p id m)
      → length (past p id (run parse inputs m)) ≤ enables p id inputs + k
  unfolding run
  run-Fits k [] m kind h = omega (arith, h.1)
  run-Fits k (i ∷ inputs) m kind h = omega (
    arith,
    enables-cons i,
    run-Fits (allow p id i k) inputs (schedule_step parse i m)
        (schedule_step-Kind p id T parse i m kind) (schedule_step-Fits k i m kind h),
  )
    where
      enables-cons :
          (i : ScheduleInput) → enables p id (i ∷ inputs) + k ≡ enables p id inputs + allow p id i k
      enables-cons (enable stamp q j true) = ground arith
      enables-cons (enable stamp q j false) = refl
      enables-cons (begin q j) = refl
      enables-cons (finish a b c d) = refl
      enables-cons (limit_runs a b c d) = refl
      enables-cons (delete a b) = refl
      enables-cons (restart a) = refl

  -- Whatever callbacks overlap, statements fail and restarts happen: a schedule of a type other than
  -- cron starts at most one run, and one more each time a user enables it.
  pub one_shot-length :
      (inputs : List ScheduleInput) (m : Manager)
      → OnRow (λ r. r.schedule_type ≡ T) (row p id m)
      → m.callbacks ≡ []
      → m.fired ≡ []
      → length (past p id (run parse inputs m)) ≤ enables p id inputs + 1
  one_shot-length inputs m kind idle fresh =
      run-Fits 1 inputs m (record { row_kind = kind; snapshot_kind = rw idle tt })
        (rw fresh (unfold ticks in (vacuous (row p id m), omega arith)))
    where
      vacuous : (o : Option Schedule) → OnRow (λ r. r.enabled ≡ true → 1 ≤ 1) o
      vacuous none = tt
      vacuous (some r) = λ on. omega arith
