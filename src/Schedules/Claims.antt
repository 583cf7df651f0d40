-- ===== src/Schedules/Claims.antt =====
-- internal/runlifecycle/schedule.go: the claims of a cron schedule's callbacks.
use piper.Schedules.{
  set_enabled, advance_next_run, Schedule, is_schedule, get_schedule, claim_run, is_waiting_for,
}
use piper.Schedules.Rows.{get-key, update-OnRow, OnRow, update-affected}
use piper.Schedules.Views.{
  fire_store-view, schedule_fired-Same, store_reply-past, store_reply-row, row, past,
}
use piper.Schedules.Kinds.{disable-OnRow}
use piper.Schedules.Firing.{
  disable, is_skipped, skip_tick, next_schedule_time, claim_tick, cron_fired, schedule_fired,
  Manager, Reply, store_reply, fire_if,
}
use piper.Prelude.{
  Option-cases, str_eq, false, ltb, some, ◌∙◌, sym, subst, ℕ, String, Bool, true, Option, List, [],
  ◌∷◌, ◌≡◌, refl, arith, eq_iff, Bool-cases, inl, inr, All, ◌≤◌, ◌<◌,
}

-- Each number is greater than all that follow it.
abbrev pub Descending : List ℕ → Type 0
Descending [] = Unit
Descending (t ∷ ts) = All (λ u. u < t) ts × Descending ts

All-below : (a b : ℕ) (ts : List ℕ) → a ≤ b → All (λ u. u < a) ts → All (λ u. u < b) ts
All-below a b [] h all = tt
All-below a b (t ∷ ts) h all = (omega (arith, h, all.0), All-below a b ts h all.1)

-- What is known of the row and of the claimed ticks.
abbrev pub IsAhead : Option Schedule → List ℕ → Type 0
IsAhead o ts = OnRow (λ r. All (λ u. u < r.next_run_at) ts) o × Descending ts

module _ (p id : String) where
  module _ (stamp now next : ℕ) (sc : Schedule) (m : Manager) (own : is_schedule p id sc ≡ true)
      (later : sc.next_run_at < next) (h : IsAhead (row p id m) (past p id m)) where
    abbrev claim : Bool × List Schedule
    claim = claim_run stamp sc.project_id sc.id sc.next_run_at now next m.rows

    moved : IsAhead (get_schedule p id claim.1) (past p id m)
    unfolding claim_run is_schedule is_waiting_for
    moved = (
      update-OnRow sc.project_id sc.id _ _ (λ q i x. refl) _ p id m.rows
          (λ r w a. All-below r.next_run_at next (past p id m) (ground (arith, w, later)) a) h.0,
      h.1,
    )

    fired : claim.0 ≡ true → IsAhead (get_schedule p id claim.1) (sc.next_run_at ∷ past p id m)
    unfolding claim_run is_schedule is_waiting_for
    fired ok =
        let (old, e, w, e') = update-affected sc.project_id sc.id _ _ (λ q i x. refl) m.rows ok in
        let before : All (λ u. u < sc.next_run_at) (past p id m) =
          All-below old.next_run_at sc.next_run_at (past p id m) (ground (arith, w))
            (subst (OnRow _) (get-key p id sc own m.rows ∙ e) h.0) in
        (
          subst (OnRow _) (sym (get-key p id sc own claim.1 ∙ e'))
              (later, All-below sc.next_run_at next (past p id m) (omega (arith, later)) before),
          (before, h.1),
        )

    claimed :
        (reply : Reply)
        → IsAhead
            (row p id (fire_if sc (store_reply reply claim m)))
            (past p id (fire_if sc (store_reply reply claim m)))
    claimed reply = fire_store-view p id IsAhead sc own reply claim m h moved fired

  cron_fired-IsAhead :
      (reply : Reply) (stamp now next : ℕ) (sc : Schedule) (m : Manager)
      → is_schedule p id sc ≡ true
      → m.started_at ≤ now
      → now < next
      → IsAhead (row p id m) (past p id m)
      → IsAhead
          (row p id (cron_fired reply stamp now next sc m))
          (past p id (cron_fired reply stamp now next sc m))
  unfolding cron_fired claim_tick skip_tick is_skipped
  cron_fired-IsAhead reply stamp now next sc m own started after h =
      elim (Bool-cases (is_skipped now sc m)) [
        | inl t ↦
            rw
              (
                t,
                store_reply-past p id reply
                    (advance_next_run stamp sc.project_id sc.id sc.next_run_at next m.rows) m,
              )
              (skipped t, h.1)
        | inr f ↦ elim (Bool-cases (ltb now sc.next_run_at)) [
          | inl t ↦ rw (f, t) h
          | inr n ↦ rw (f, n) (claimed stamp now next sc m own (ground (arith, n, after)) h reply)
        ]
      ]
    where
      skipped :
          is_skipped now sc m ≡ true
          → OnRow
              (λ r. All (λ u. u < r.next_run_at) (past p id m))
              (row p id (skip_tick reply stamp next sc m))
      skipped t =
          store_reply-row p id (OnRow (λ r. All (λ u. u < r.next_run_at) (past p id m))) reply
            (advance_next_run stamp sc.project_id sc.id sc.next_run_at next m.rows) m h.0
            (unfold advance_next_run is_schedule is_waiting_for in
              update-OnRow sc.project_id sc.id _ _ (λ q i x. refl) _ p id m.rows
                (λ r w a.
                  All-below r.next_run_at next (past p id m) (ground (arith, w, t, started, after))
                    a)
                h.0)

  disable-IsAhead :
      (reply : Reply) (stamp : ℕ) (sc : Schedule) (m : Manager)
      → IsAhead (row p id m) (past p id m)
      → IsAhead (row p id (disable reply stamp sc m)) (past p id (disable reply stamp sc m))
  unfolding disable
  disable-IsAhead reply stamp sc m h =
      rw (store_reply-past p id reply (false, set_enabled stamp sc.project_id sc.id false m.rows) m)
        (disable-OnRow _ p id reply stamp 0 sc m h.0 (λ r a. a), h.1)

  pub schedule_fired-IsAhead :
      (parse : String → Option (ℕ → ℕ))
      → ((expr : String) (now next : ℕ)
          → next_schedule_time parse expr now ≡ some next
          → now < next)
      → (reply : Reply) (stamp now : ℕ) (sc : Schedule) (m : Manager) → m.started_at ≤ now
      → (is_schedule p id sc ≡ true → sc.schedule_type ≡ "cron")
      → IsAhead (row p id m) (past p id m)
      → IsAhead
          (row p id (schedule_fired parse reply stamp now sc m))
          (past p id (schedule_fired parse reply stamp now sc m))
  unfolding schedule_fired
  schedule_fired-IsAhead parse later reply stamp now sc m started kind h =
      elim (Bool-cases (is_schedule p id sc)) [
        | inl own ↦ elim (Bool-cases (str_eq sc.schedule_type "cron")) [
          | inl c ↦ elim (Option-cases (next_schedule_time parse sc.cron_expr now)) [
            | inl e ↦ rw (c, e) (disable-IsAhead reply stamp sc m h)
            | inr o ↦
                let (next, e) = o in
                rw (c, e)
                  (cron_fired-IsAhead reply stamp now next sc m own started
                    (later sc.cron_expr now next e) h)
          ]
          | inr n ↦ absurd (ground (arith, n, eq_iff sc.schedule_type "cron", kind own))
        ]
        | inr other ↦
            let (a, b) = schedule_fired-Same p id sc other parse reply stamp now m in rw (a, b) h
      ]
