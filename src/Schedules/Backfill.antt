-- ===== src/Schedules/Backfill.antt =====
-- internal/runlifecycle/schedule.go: BackfillSchedule.
use piper.Schedules.{Schedule}
use mathlib.Core.List.{append-nil, append_assoc}
use piper.Prelude.{
  ◌∙◌, subst, inr, inl, ltb, All, Bool-cases, ◌&&◌, ℕ, zero, suc, ◌-◌, ◌≤◌, ◌<◌, String, Bool, true,
  false, Option, none, some, List, [], ◌∷◌, ◌++◌, leb, ◌==◌, str_eq, ◌≡◌, refl, arith,
  if◌then◌else◌, any,
}

-- The answer: the ticks for which runs were started, or the ticks started before an error, or the
-- error before any.
pub data Backfill : Type 0 where
  created : List ℕ → Backfill
  too_many : List ℕ → Backfill
  start_failed : List ℕ → Backfill
  not_cron : Backfill
  bad_expression : Backfill
  unreadable : Backfill
  no_schedule : Backfill

-- `starts` tells for which ticks StartRun succeeds.
module _ (next : ℕ → ℕ) (starts : ℕ → Bool) (to : ℕ) where
  -- The loop; `slots` is 1000 less the runs so far.
  unfoldable pub backfill_loop : ℕ → ℕ → List ℕ → Backfill
  backfill_loop zero scheduled_at runs = if leb scheduled_at to then too_many runs else created runs
  backfill_loop (suc slots) scheduled_at runs =
      let rest = backfill_loop slots (next scheduled_at) (runs ++ scheduled_at ∷ []) in
      if leb scheduled_at to
      then (if starts scheduled_at then rest else start_failed runs)
      else created runs

-- BackfillSchedule on what Get found. `readable` tells whether the pipeline and the parameters parse;
-- no_schedule stands for the nil that Get returns for a missing schedule, which the code reads.
unfoldable pub backfill_schedule :
    (String → Option (ℕ → ℕ))
    → (Schedule → Bool)
    → (ℕ → Bool)
    → (from to : ℕ) → Option Schedule
    → Backfill
backfill_schedule parse readable starts from to none = no_schedule
backfill_schedule parse readable starts from to (some sc) =
    if str_eq sc.schedule_type "cron"
    then elim (parse sc.cron_expr) [
      | none ↦ bad_expression
      | some next ↦
          if readable sc then backfill_loop next starts to 1000 (next (from - 1)) [] else unreadable
    ]
    else not_cron

-- The time is in the list.
abbrev pub has_time : ℕ → List ℕ → Bool
has_time u ts = any (λ t. t == u) ts

-- `next` gives the first tick after a time.
pub record IsNext (is_tick : ℕ → Bool) (next : ℕ → ℕ) : Type 0 where
  pub later : (t : ℕ) → t < next t
  pub ticks : (t : ℕ) → is_tick (next t) ≡ true
  pub nothing_between : (t u : ℕ) → t < u → u < next t → is_tick u ≡ false

-- Each time is before all that follow it.
abbrev pub Ascending : List ℕ → Type 0
Ascending [] = Unit
Ascending (t ∷ ts) = All (λ u. t < u) ts × Ascending ts

module _ (is_tick : ℕ → Bool) (next : ℕ → ℕ) (n : IsNext is_tick next) (starts : ℕ → Bool)
    (to : ℕ) where
  -- The ticks from `at` to `to`, one after the other.
  Successive : ℕ → List ℕ → Type 0
  Successive at [] = to < at
  Successive at (t ∷ ts) = (t ≡ at) × (at ≤ to) × Successive (next at) ts

  loop-Successive :
      (slots at : ℕ) (runs out : List ℕ)
      → backfill_loop next starts to slots at runs ≡ created out
      → (new : List ℕ) × (out ≡ runs ++ new) × Successive at new
  unfolding backfill_loop Successive
  loop-Successive zero at runs out e = elim (Bool-cases (leb at to)) [
    | inl t ↦ absurd (cc (rw t at e))
    | inr f ↦ ([], cc (rw f at e, append-nil runs), ground (arith, f))
  ]
  loop-Successive (suc slots) at runs out e = elim (Bool-cases (leb at to)) [
    | inl t ↦ elim (Bool-cases (starts at)) [
      | inl s ↦
          let (new, o, h) =
            loop-Successive slots (next at) (runs ++ at ∷ []) out (rw (t, s) at e) in
          (at ∷ new, o ∙ append_assoc runs (at ∷ []) new, (refl, ground (arith, t), h))
      | inr r ↦ absurd (cc (rw (t, r) at e))
    ]
    | inr f ↦ ([], cc (rw f at e, append-nil runs), ground (arith, f))
  ]

  Successive-ticks :
      (at : ℕ) (ts : List ℕ)
      → is_tick at ≡ true
      → Successive at ts
      → (u : ℕ) → has_time u ts ≡ (leb at u && leb u to && is_tick u)
  unfolding Successive
  Successive-ticks at [] tick s u = ground (arith, s)
  Successive-ticks at (t ∷ ts) tick s u = elim (Bool-cases (ltb u (next at))) [
    | inl t ↦ elim (Bool-cases (ltb at u)) [
      | inl l ↦ ground (
        arith,
        s.0,
        t,
        l,
        n.later at,
        Successive-ticks (next at) ts (n.ticks at) s.2 u,
        n.nothing_between at u (ground (arith, l)) (ground (arith, t)),
      )
      | inr g ↦ elim (Bool-cases (at == u)) [
        | inl q ↦
            let e : at ≡ u = ground (arith, q) in
            ground (arith, s.0, s.1, q, subst (λ x. is_tick x ≡ true) e tick)
        | inr d ↦
            ground
              (arith, s.0, t, g, d, n.later at, Successive-ticks (next at) ts (n.ticks at) s.2 u)
      ]
    ]
    | inr f ↦ ground (arith, s.0, f, n.later at, Successive-ticks (next at) ts (n.ticks at) s.2 u)
  ]

  Successive-above : (b at : ℕ) (ts : List ℕ) → b < at → Successive at ts → All (λ u. b < u) ts
  unfolding Successive
  Successive-above b at [] h s = tt
  Successive-above b at (t ∷ ts) h s =
      (omega (arith, h, s.0), Successive-above b (next at) ts (omega (arith, h, n.later at)) s.2)

  Successive-Ascending : (at : ℕ) (ts : List ℕ) → Successive at ts → Ascending ts
  unfolding Successive
  Successive-Ascending at [] s = tt
  Successive-Ascending at (t ∷ ts) s = (
    Successive-above t (next at) ts (omega (arith, s.0, n.later at)) s.2,
    Successive-Ascending (next at) ts s.2,
  )

  -- The first tick after the moment before `from` stands for `from`.
  from-ticks :
      (from u : ℕ)
      → 1 ≤ from
      → (leb (next (from - 1)) u && leb u to && is_tick u) ≡ (leb from u && leb u to && is_tick u)
  from-ticks from u h = elim (Bool-cases (ltb u (next (from - 1)))) [
    | inl t ↦ elim (Bool-cases (leb from u)) [
      | inl l ↦ ground (
        arith,
        t,
        l,
        h,
        n.nothing_between (from - 1) u (ground (arith, l, h)) (ground (arith, t)),
      )
      | inr g ↦ ground (arith, t, g)
    ]
    | inr f ↦ ground (arith, f, h, n.later (from - 1))
  ]

-- A backfill that succeeds has started runs for exactly the ticks from `from` to `to`, both included,
-- in ascending order, where the expression's `next` gives the first tick after a time and `from` is
-- not the first moment of all.
pub backfill_schedule-ticks :
    (parse : String → Option (ℕ → ℕ)) (readable : Schedule → Bool) (starts : ℕ → Bool) (from to : ℕ)
    (sc : Schedule) (next : ℕ → ℕ) (is_tick : ℕ → Bool) (runs : List ℕ)
    → parse sc.cron_expr ≡ some next
    → IsNext is_tick next
    → 1 ≤ from
    → backfill_schedule parse readable starts from to (some sc) ≡ created runs
    → Ascending runs × ((u : ℕ) → has_time u runs ≡ (leb from u && leb u to && is_tick u))
unfolding backfill_schedule
backfill_schedule-ticks parse readable starts from to sc next is_tick runs p n h e =
    let (new, o, s) =
      loop-Successive is_tick next n starts to 1000 (next (from - 1)) [] runs reached in
    rw o (
      Successive-Ascending is_tick next n starts to (next (from - 1)) new s,
      λ u.
          Successive-ticks is_tick next n starts to (next (from - 1)) new (n.ticks (from - 1)) s u
          ∙ from-ticks is_tick next n starts to from u h,
    )
  where
    reached : backfill_loop next starts to 1000 (next (from - 1)) [] ≡ created runs
    reached = elim (Bool-cases (str_eq sc.schedule_type "cron")) [
      | inl c ↦ elim (Bool-cases (readable sc)) [
        | inl r ↦ rw (c, p, r) at e
        | inr f ↦ absurd (cc (rw (c, p, f) at e))
      ]
      | inr f ↦ absurd (cc (rw f at e))
    ]
