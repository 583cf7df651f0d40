-- ===== src/Notebooks/Late.antt =====
-- pkg/notebook/status.go: a report that is written after the notebook's run has ended.
use piper.Notebooks.{
  record_run, NotebookServer, NotebookStore, StatusReport, is_server, get_server, update_server,
  finish_server, finish_run, ended_server, has_ended, written_server,
}
use piper.Notebooks.Sink.{
  NotebookInput, notebook_step, notebook_run, begin_update, accept_report, resume_update,
  end_update, write_report, publish_status, reported_server, is_owned, reported, resumed, finished,
}
use piper.Prelude.{
  pick, ◌∙◌, ap, ◌||◌, ℕ, String, true, false, some, List, [], ◌∷◌, str_eq, ◌≡◌, refl, arith,
  Bool-cases, inl, inr, eq_iff,
}

get-update_server :
    (p name : String) (change : NotebookServer → NotebookServer)
    → ((nb : NotebookServer) → is_server p name (change nb) ≡ is_server p name nb)
    → (servers : List NotebookServer) (nb : NotebookServer) → get_server p name servers ≡ some nb
    → get_server p name (update_server p name change servers) ≡ some (change nb)
unfolding get_server update_server
get-update_server p name change keeps [] nb e = cc e
get-update_server p name change keeps (x ∷ servers) nb e = elim (Bool-cases (is_server p name x)) [
  | inl t ↦ rw (t, keeps x, t) (cc (rw t at e))
  | inr f ↦ rw (f, f) (get-update_server p name change keeps servers nb (rw f at e))
]

get-is_server :
    (p name : String) (servers : List NotebookServer) (nb : NotebookServer)
    → get_server p name servers ≡ some nb
    → is_server p name nb ≡ true
unfolding get_server
get-is_server p name [] nb e = cc e
get-is_server p name (x ∷ servers) nb e = elim (Bool-cases (is_server p name x)) [
  | inl t ↦ ground (arith, e, t)
  | inr f ↦ get-is_server p name servers nb (ground (arith, e, f))
]

get_server-key :
    (p name : String) (servers : List NotebookServer) (nb : NotebookServer)
    → get_server p name servers ≡ some nb
    → (nb.project_id ≡ p) × (nb.name ≡ name)
unfolding is_server
get_server-key p name servers nb e =
    let t = get-is_server p name servers nb e in
    ((eq_iff nb.project_id p).0 (ground (arith, t)), (eq_iff nb.name name).0 (ground (arith, t)))

-- The two sections of a report, with the end of the run between them.
abbrev pub around :
    (project_id runtime_id name : String) → StatusReport → (ended now : ℕ) → List NotebookInput
around p rt name r ended now =
    reported p rt name r ∷ finished ended p name "stopped" "" ∷ resumed now 0 ∷ []

module _ (nb : NotebookServer) (p name : String) (r : StatusReport) where
  -- The first section of the report.
  begin_update-pending :
      (s : NotebookStore) (rt : String)
      → get_server p name s.servers ≡ some nb
      → str_eq p "" ≡ false
      → is_owned rt nb ≡ true
      → begin_update p rt name r s
        ≡ record s { pending = record { snapshot = nb; report = r } ∷ s.pending }
  unfolding begin_update accept_report
  begin_update-pending s rt found named owned = rw (named, found, owned) refl

  -- The end of the run.
  finish_run-open :
      (s : NotebookStore) (ended : ℕ)
      → get_server p name s.servers ≡ some nb
      → has_ended nb.status ≡ false
      → (finish_run ended p name "stopped" "" s).1 ≡ record s {
        servers = update_server nb.project_id nb.name (ended_server ended "stopped" "") s.servers;
        history = record_run ended (ended_server ended "stopped" "" nb) s.history;
      }
  unfolding finish_run finish_server
  finish_run-open s ended found open' = rw (found, open') refl

  -- The second section of the report.
  end_update-servers :
      (s : NotebookStore) (now : ℕ)
      → has_ended r.status ≡ false
      → (end_update now (record { snapshot = nb; report = r }) s).servers
        ≡ update_server nb.project_id nb.name (written_server now (reported_server r nb)) s.servers
  unfolding end_update write_report publish_status reported_server
  end_update-servers s now running =
      elim (Bool-cases (str_eq r.status "" || str_eq r.status nb.status)) [
        | inl t ↦ rw (running, t) refl
        | inr f ↦ rw (running, f) refl
      ]

around-servers :
    (s : NotebookStore) (nb : NotebookServer) (p rt name : String) (r : StatusReport)
    (ended now : ℕ)
    → get_server p name s.servers ≡ some nb
    → str_eq p "" ≡ false
    → is_owned rt nb ≡ true
    → has_ended nb.status ≡ false
    → has_ended r.status ≡ false
    → (notebook_run (around p rt name r ended now) s).servers
      ≡ update_server nb.project_id nb.name
          (written_server now (reported_server r nb))
          (update_server nb.project_id nb.name (ended_server ended "stopped" "") s.servers)
unfolding notebook_run notebook_step resume_update
around-servers s nb p rt name r ended now found named owned open' running =
    ap (λ t. (end_of (finish_run ended p name "stopped" "" t).1).servers)
      (begin_update-pending nb p name r s rt found named owned)
    ∙ ap (λ t. (end_of t).servers)
        (finish_run-open nb p name r
          (record s { pending = record { snapshot = nb; report = r } ∷ s.pending }) ended found
          open')
    ∙ end_update-servers nb p name r _ now running
  where
    end_of : NotebookStore → NotebookStore
    end_of t = resume_update now (pick 0 t.pending) t

-- A report of a status that is not an end, for a notebook of which the reporter may be the owner: if
-- the notebook is read for the report, then its run is ended as stopped, and then the report is
-- written, with nothing else between, the notebook is not stopped but has the report's status.
pub notebook_run-late :
    (s : NotebookStore) (nb : NotebookServer) (p rt name : String) (r : StatusReport)
    (ended now : ℕ)
    → get_server p name s.servers ≡ some nb
    → str_eq p "" ≡ false
    → is_owned rt nb ≡ true
    → has_ended nb.status ≡ false
    → str_eq r.status "" ≡ false
    → has_ended r.status ≡ false
    → (x : NotebookServer) × (get_server p name
          (notebook_run (around p rt name r ended now) s).servers
        ≡ some x)
      × (x.status ≡ r.status)
notebook_run-late s nb p rt name r ended now found named owned open' given running =
    let (a, b) = get_server-key p name s.servers nb found in
    (
      written_server now (reported_server r nb) (ended_server ended "stopped" "" nb),
      ap (get_server p name)
            (around-servers s nb p rt name r ended now found named owned open' running)
          ∙ at_key a b,
      unfold written_server reported_server in rw given refl,
    )
  where
    written_keeps :
        (x : NotebookServer)
        → is_server p name (written_server now (reported_server r nb) x) ≡ is_server p name x
    written_keeps x = unfold written_server is_server in refl

    ended_keeps :
        (x : NotebookServer)
        → is_server p name (ended_server ended "stopped" "" x) ≡ is_server p name x
    ended_keeps x = unfold ended_server is_server in refl

    at_key :
        {q m : String}
        → q ≡ p
        → m ≡ name
        → get_server p name (
            update_server q m
              (written_server now (reported_server r nb))
              (update_server q m (ended_server ended "stopped" "") s.servers))
          ≡ some (written_server now (reported_server r nb) (ended_server ended "stopped" "" nb))
    at_key a b =
        rw (a, b)
          (get-update_server p name (written_server now (reported_server r nb)) written_keeps
            (update_server p name (ended_server ended "stopped" "") s.servers)
            (ended_server ended "stopped" "" nb)
            (get-update_server p name (ended_server ended "stopped" "") ended_keeps s.servers nb
              found))
