-- ===== src/Notebooks/History.antt =====
-- internal/store/sqlite/notebook.go: the history of a run.
use piper.Notebooks.{
  NotebookServer, NotebookHistory, NotebookStore, PendingReport, is_run, end_history, new_history,
  record_run, finish_server, finish_run, ended_server, has_ended, get_server, start_run, set_status,
}
use piper.Notebooks.Sink.{
  is_owned, NotebookInput, notebook_step, notebook_run, begin_update, accept_report, resume_update,
  end_update, write_report, publish_finished, publish_status, drop_update, reported, resumed,
  dropped, started, set, finished, deleted,
}
use piper.Prelude.{
  ◌||◌, ℕ, String, Bool, true, false, Option, none, some, List, [], ◌∷◌, ◌++◌, map, any, pick,
  str_eq, if◌then◌else◌, ◌≡◌, refl, arith, ◌≤◌, ◌+◌, Bool-cases, inl, inr, eq_iff,
}

-- The rows of a run.
abbrev pub count_runs_of : String → String → ℕ → List NotebookHistory → ℕ
count_runs_of p name at [] = 0
count_runs_of p name at (h ∷ history) =
    (if is_run p name at h then 1 else 0) + count_runs_of p name at history

module _ (p name : String) (at : ℕ) where
  abbrev rows : List NotebookHistory → ℕ
  rows = count_runs_of p name at

  end_history-is_run :
      (now : ℕ) (nb : NotebookServer) (h : NotebookHistory)
      → is_run p name at (end_history now nb h) ≡ is_run p name at h
  unfolding end_history is_run
  end_history-is_run now nb h = elim (Bool-cases (is_run nb.project_id nb.name nb.started_at h)) [
    | inl t ↦ rw t refl
    | inr f ↦ rw f refl
  ]

  rows-end_history :
      (now : ℕ) (nb : NotebookServer) (history : List NotebookHistory)
      → rows (map (end_history now nb) history) ≡ rows history
  rows-end_history now nb [] = refl
  rows-end_history now nb (h ∷ history) =
      rw (end_history-is_run now nb h, rows-end_history now nb history) refl

  rows-snoc :
      (history : List NotebookHistory) (h : NotebookHistory)
      → rows (history ++ h ∷ []) ≡ rows history + (if is_run p name at h then 1 else 0)
  rows-snoc [] h = omega arith
  rows-snoc (x ∷ history) h = omega (arith, rows-snoc history h)

  rows-any :
      (history : List NotebookHistory) → any (is_run p name at) history ≡ false → rows history ≡ 0
  rows-any [] f = refl
  rows-any (h ∷ history) f = elim (Bool-cases (is_run p name at h)) [
    | inl t ↦ absurd (ground (arith, f, t))
    | inr n ↦ rw n (omega (arith, rows-any history (ground (arith, f, n))))
  ]

  -- A new row has the key of the notebook's run.
  new_history-is_run :
      (now : ℕ) (nb : NotebookServer)
      → is_run p name at (new_history now nb) ≡ true
      → (nb.project_id ≡ p) × (nb.name ≡ name) × (nb.started_at ≡ at)
  unfolding is_run new_history
  new_history-is_run now nb t = (
    (eq_iff nb.project_id p).0 (ground (arith, t)),
    (eq_iff nb.name name).0 (ground (arith, t)),
    ground (arith, t),
  )

  rows-append :
      (now : ℕ) (nb : NotebookServer) (history : List NotebookHistory)
      → any (is_run nb.project_id nb.name nb.started_at) history ≡ false
      → rows history ≤ 1
      → rows (history ++ new_history now nb ∷ []) ≤ 1
  rows-append now nb history new one = elim (Bool-cases (is_run p name at (new_history now nb))) [
    | inl t ↦
        let (a, b, c) = new_history-is_run now nb t in
        omega (
          arith,
          rw t at (rows-snoc history (new_history now nb)),
          rows-any history (key a b c new),
        )
    | inr f ↦ omega (arith, rw f at (rows-snoc history (new_history now nb)), one)
  ]
    where
      key :
          {q m : String} {e : ℕ}
          → q ≡ p
          → m ≡ name
          → e ≡ at
          → any (is_run q m e) history ≡ false
          → any (is_run p name at) history ≡ false
      key a b c n = rw⁻¹ (a, b, c) n

  record_run-rows :
      (now : ℕ) (nb : NotebookServer) (history : List NotebookHistory)
      → rows history ≤ 1
      → rows (record_run now nb history) ≤ 1
  unfolding record_run
  record_run-rows now nb history one =
      elim (Bool-cases (any (is_run nb.project_id nb.name nb.started_at) history)) [
        | inl t ↦ rw (t, rows-end_history now nb history) one
        | inr f ↦ rw f (rows-append now nb history f one)
      ]

  finish_run-rows :
      (now : ℕ) (q m status reason : String) (s : NotebookStore)
      → rows s.history ≤ 1
      → rows (finish_run now q m status reason s).1.history ≤ 1
  unfolding finish_run
  finish_run-rows now q m status reason s one = found (get_server q m s.servers)
    where
      found : (o : Option NotebookServer) → rows (finish_server now status reason o s).1.history ≤ 1
      found none = unfold finish_server in one
      found (some nb) =
          unfold finish_server in
          elim (Bool-cases (has_ended nb.status)) [
            | inl t ↦ rw t one
            | inr f ↦ rw f (record_run-rows now (ended_server now status reason nb) s.history one)
          ]

  end_update-rows :
      (now : ℕ) (u : PendingReport) (s : NotebookStore)
      → rows s.history ≤ 1
      → rows (end_update now u s).history ≤ 1
  unfolding end_update
  end_update-rows now u s one = elim (Bool-cases (has_ended u.report.status)) [
    | inl t ↦ rw t (
        published
          (finish_run now u.snapshot.project_id u.snapshot.name u.report.status u.report.reason s)
          (finish_run-rows now u.snapshot.project_id u.snapshot.name u.report.status u.report.reason
            s one))
    | inr f ↦ rw f written
  ]
    where
      published :
          (r : Bool × NotebookStore)
          → rows r.1.history ≤ 1
          → rows (publish_finished u.snapshot.project_id u.snapshot.name u.report r).history ≤ 1
      published (true, x) h = unfold publish_finished publish_status in h
      published (false, x) h = unfold publish_finished in h

      written : rows (write_report now u s).history ≤ 1
      written =
          unfold write_report publish_status in
          elim (Bool-cases
            (str_eq u.report.status "" || str_eq u.report.status u.snapshot.status)) [
              | inl t ↦ rw t one
              | inr f ↦ rw f one
            ]

  notebook_step-rows :
      (i : NotebookInput) (s : NotebookStore)
      → rows s.history ≤ 1
      → rows (notebook_step i s).history ≤ 1
  unfolding notebook_step
  notebook_step-rows (reported q rt m r) s one =
      unfold begin_update in
      elim (Bool-cases (str_eq q "")) [
        | inl t ↦ rw t one
        | inr f ↦ rw f (accepted (get_server q m s.servers))
      ]
    where
      accepted : (o : Option NotebookServer) → rows (accept_report rt r o s).history ≤ 1
      accepted none = unfold accept_report in one
      accepted (some nb) =
          unfold accept_report in
          elim (Bool-cases (is_owned rt nb)) [ inl t ↦ rw t one | inr f ↦ rw f one ]
  notebook_step-rows (resumed now n) s one = resume (pick n s.pending)
    where
      resume :
          (o : Option (PendingReport × List PendingReport))
          → rows (resume_update now o s).history ≤ 1
      resume none = unfold resume_update in one
      resume (some (u, rest)) =
          unfold resume_update in end_update-rows now u (record s { pending = rest }) one
  notebook_step-rows (dropped n written) s one = drop (pick n s.pending)
    where
      drop :
          (o : Option (PendingReport × List PendingReport))
          → rows (drop_update written o s).history ≤ 1
      drop none = unfold drop_update in one
      drop (some (u, rest)) = unfold drop_update in one
  notebook_step-rows (started now q m) s one = unfold start_run in one
  notebook_step-rows (set now q m status reason) s one = unfold set_status in one
  notebook_step-rows (finished now q m status reason) s one =
      finish_run-rows now q m status reason s one
  notebook_step-rows (deleted q m) s one = one

  -- If the history has at most one row of a run, it has at most one after any interleaving of reports,
  -- whose two sections other statements may separate, of starts and ends of runs, and of deletions.
  pub notebook_run-rows :
      (inputs : List NotebookInput) (s : NotebookStore)
      → count_runs_of p name at s.history ≤ 1
      → count_runs_of p name at (notebook_run inputs s).history ≤ 1
  unfolding notebook_run
  notebook_run-rows [] s one = one
  notebook_run-rows (i ∷ inputs) s one =
      notebook_run-rows inputs (notebook_step i s) (notebook_step-rows i s one)
