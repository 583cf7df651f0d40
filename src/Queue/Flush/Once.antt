-- ===== src/Queue/Flush/Once.antt =====
-- internal/queue/queue.go, internal/store/sqlite/run.go: flushes against the table of runs.
use piper.Queue.Types.{finalize, upsert, Write, RunStatus}
use piper.Queue.Flush.{
  gives_up, flush_writes, flush_write, Db, max_tries, is_open_run, fails, finalize_status_cas,
  succeeds, persist_from, RunRow, persist_with_retry, Applied, affected_runs, Verdict, update_runs,
  perform,
}
use mathlib.Core.Bool.{false≢true}
use piper.Prelude.{
  eq_iff, subst, inr, ◌==◌, inl, Bool-cases, ◌⊎◌, ◌||◌, ◌&&◌, str_eq, if◌then◌else◌, some, ◌≤◌, ◌<◌,
  any, ◌↔◌, arith, false, true, refl, ℕ, suc, zero, String, ◌+◌, ◌≡◌, Bool, List, [], ◌∷◌, ◌++◌,
}

-- The try number `n` succeeds, and each of the tries from `first` on before it fails.
abbrev pub SucceedsAt : (ℕ → Verdict) → ℕ → ℕ → Type 0
SucceedsAt v first zero = v first ≡ succeeds
SucceedsAt v first (suc k) = (v first ≡ fails) × SucceedsAt v (suc first) k

Verdict-cases : (x : Verdict) → (x ≡ succeeds) ⊎ ((x ≡ fails) ⊎ (x ≡ gives_up))
Verdict-cases succeeds = inl refl
Verdict-cases fails = inr (inl refl)
Verdict-cases gives_up = inr (inr refl)

persisted_at :
    (left first : ℕ) (v : ℕ → Verdict)
    → persist_from left first v ≡ true
    → (k : ℕ) × (k < left) × SucceedsAt v first k
unfolding persist_from
persisted_at zero first v h = absurd (false≢true h)
persisted_at (suc left) first v h = elim (Verdict-cases (v first)) [
  | inl s ↦ (0, omega arith, s)
  | inr (inl f) ↦
      let (k, lt, at) = persisted_at left (suc first) v (rw (f, persist_from) at h) in
      (suc k, omega arith, (f, at))
  | inr (inr g) ↦ absurd (false≢true (rw (g, persist_from) at h))
]

persists :
    (left first : ℕ) (v : ℕ → Verdict) (k : ℕ)
    → k < left
    → SucceedsAt v first k
    → persist_from left first v ≡ true
unfolding persist_from
persists zero first v k lt at = absurd (omega arith)
persists (suc left) first v zero lt at = rw (at, persist_from) refl
persists (suc left) first v (suc k) lt at =
    rw (at.0, persist_from) (persists left (suc first) v k (omega arith) at.1)

-- A write goes through exactly if one of its first five tries succeeds, and every try before that
-- one fails without the context ending.
pub persist_with_retry_iff :
    (v : ℕ → Verdict)
    → (persist_with_retry v ≡ true) ↔ ((k : ℕ) × (k < max_tries) × SucceedsAt v 1 k)
unfolding persist_with_retry
persist_with_retry_iff v = (persisted_at max_tries 1 v, λ h. persists max_tries 1 v h.0 h.1 h.2)

-- 1 if the table has a row of the run that is not terminal, else 0.
abbrev pub open_rows : String → String → List RunRow → ℕ
open_rows project_id run_id rows = if any (is_open_run project_id run_id) rows then 1 else 0

-- The finalizations of the run among those that changed their row.
abbrev pub wins : String → String → List Applied → ℕ
wins project_id run_id [] = 0
wins project_id run_id (a ∷ rest) =
    let n = wins project_id run_id rest in
    if str_eq a.project_id project_id && str_eq a.run_id run_id then suc n else n

wins-append :
    (project_id run_id : String) (xs ys : List Applied)
    → wins project_id run_id (xs ++ ys) ≡ wins project_id run_id xs + wins project_id run_id ys
wins-append project_id run_id [] ys = omega arith
wins-append project_id run_id (x ∷ xs) ys = ground (arith, wins-append project_id run_id xs ys)

-- After the UPDATE no row of the run is open, and the rows of other runs are as they were.
update-closes :
    (project_id run_id : String) (to : RunStatus) (at : ℕ) (rows : List RunRow)
    → any (is_open_run project_id run_id) (update_runs project_id run_id to at rows) ≡ false
unfolding update_runs
update-closes project_id run_id to at [] = refl
update-closes project_id run_id to at (row ∷ rows) =
    ground (arith, update-closes project_id run_id to at rows)

or_mono :
    (a b c d : Bool)
    → (a ≡ true → c ≡ true)
    → (b ≡ true → d ≡ true)
    → (a || b) ≡ true
    → (c || d) ≡ true
or_mono true b c d f g h = rw (f refl) refl
or_mono false b true d f g h = refl
or_mono false b false d f g h = g h

closed_row :
    (p i project_id run_id : String) (to : RunStatus) (at : ℕ) (row : RunRow) (c : Bool)
    → is_open_run p i (if c then record row { status = some to; ended_at = some at } else row)
      ≡ true
    → is_open_run p i row ≡ true
closed_row p i project_id run_id to at row true h =
    absurd (closed (str_eq row.project_id p) (str_eq row.id i) h)
  where
    closed : (a b : Bool) → (a && (b && false)) ≡ true → ⊥
    closed true true h = cc
    closed true false h = cc
    closed false b h = cc
closed_row p i project_id run_id to at row false h = h

update_mono :
    (p i project_id run_id : String) (to : RunStatus) (at : ℕ) (rows : List RunRow)
    → any (is_open_run p i) (update_runs project_id run_id to at rows) ≡ true
    → any (is_open_run p i) rows ≡ true
unfolding update_runs
update_mono p i project_id run_id to at [] h = h
update_mono p i project_id run_id to at (row ∷ rows) h =
    or_mono _ _ _ _ (closed_row p i project_id run_id to at row (is_open_run project_id run_id row))
      (update_mono p i project_id run_id to at rows) h

affected-open :
    (project_id run_id : String) (rows : List RunRow)
    → affected_runs project_id run_id rows ≡ 1
    → any (is_open_run project_id run_id) rows ≡ true
unfolding affected_runs
affected-open project_id run_id [] h = absurd (omega arith)
affected-open project_id run_id (row ∷ rows) h =
    ground (arith, affected-open project_id run_id rows)

open_rows-le :
    (p i : String) (after before : List RunRow)
    → (any (is_open_run p i) after ≡ true → any (is_open_run p i) before ≡ true)
    → open_rows p i after ≤ open_rows p i before
open_rows-le p i after before h = elim (Bool-cases (any (is_open_run p i) after)) [
  | inl t ↦ rw (t, h t) (omega arith)
  | inr f ↦ rw f (omega arith)
]

open_rows-closed :
    (p i : String) (rows : List RunRow)
    → any (is_open_run p i) rows ≡ false
    → open_rows p i rows ≡ 0
open_rows-closed p i rows h = rw h refl

open_rows-found :
    (p i : String) (rows : List RunRow) → any (is_open_run p i) rows ≡ true → open_rows p i rows ≡ 1
open_rows-found p i rows h = rw h refl

-- The cell that a finalization of a run adds counts for that run alone.
wins_one :
    (p i project_id run_id : String) (cell : ℕ)
    → (wins p i (record { cell = cell; project_id = project_id; run_id = run_id } ∷ []) ≡ 0)
      ⊎ ((project_id ≡ p)
          × (run_id ≡ i)
          × (wins p i (record { cell = cell; project_id = project_id; run_id = run_id } ∷ []) ≡ 1))
wins_one p i project_id run_id cell = elim (Bool-cases (str_eq project_id p)) [
  | inl a ↦ elim (Bool-cases (str_eq run_id i)) [
    | inl b ↦ inr ((eq_iff project_id p).0 a, (eq_iff run_id i).0 b, rw (a, b) refl)
    | inr b ↦ inl (rw (a, b) refl)
  ]
  | inr a ↦ inl (rw a refl)
]

perform-wins :
    (p i : String) (w : Write) (db : Db)
    → wins p i (perform w db).1 + open_rows p i (perform w db).0.runs ≤ open_rows p i db.runs
unfolding perform finalize_status_cas
perform-wins p i (upsert s) db = omega arith
perform-wins p i (finalize cell project_id run_id status at) db =
    let mono = open_rows-le p i _ db.runs (update_mono p i project_id run_id status at db.runs) in
    elim (Bool-cases (affected_runs project_id run_id db.runs == 1)) [
      | inr f ↦ rw f (omega (arith, mono))
      | inl t ↦ rw t (elim (wins_one p i project_id run_id cell) [
        | inl none_won ↦ omega (arith, mono, none_won)
        | inr (is_p, is_i, one) ↦
            let before =
              open_rows-found project_id run_id db.runs
                (affected-open project_id run_id db.runs (ground arith)) in
            let after =
              open_rows-closed project_id run_id _
                (update-closes project_id run_id status at db.runs) in
            omega (
              arith,
              one,
              subst (λ x. open_rows x i db.runs ≡ 1) is_p
                  (subst (λ y. open_rows project_id y db.runs ≡ 1) is_i before),
              subst (λ x. open_rows x i (update_runs project_id run_id status at db.runs) ≡ 0) is_p
                  (subst
                    (λ y.
                      open_rows project_id y (update_runs project_id run_id status at db.runs) ≡ 0)
                    is_i after),
            )
      ])
    ]

flush_write-wins :
    (p i : String) (v : ℕ → Verdict) (w : Write) (db : Db)
    → wins p i (flush_write v w db).1 + open_rows p i (flush_write v w db).0.runs
      ≤ open_rows p i db.runs
unfolding flush_write
flush_write-wins p i v w db = elim (Bool-cases (persist_with_retry v)) [
  | inl t ↦ rw t (perform-wins p i w db)
  | inr f ↦ rw f (omega arith)
]

-- Whatever writes are flushed, and whichever of their tries fail, at most one finalization of a run
-- changes its row, and none does if the table has no open row of the run; and if one does, no open
-- row of the run is left.
pub flush_writes-wins :
    (p i : String) (v : ℕ → ℕ → Verdict) (n : ℕ) (ws : List Write) (db : Db)
    → wins p i (flush_writes v n ws db).1 + open_rows p i (flush_writes v n ws db).0.runs
      ≤ open_rows p i db.runs
unfolding flush_writes
flush_writes-wins p i v n [] db = omega arith
flush_writes-wins p i v n (w ∷ ws) db =
    let (db', a) = flush_write (v n) w db in
    omega (
      arith,
      wins-append p i (flush_write (v n) w db).1
          (flush_writes v (suc n) ws (flush_write (v n) w db).0).1,
      flush_write-wins p i (v n) w db,
      flush_writes-wins p i v (suc n) ws (flush_write (v n) w db).0,
    )
