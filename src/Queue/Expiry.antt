-- ===== src/Queue/Expiry.antt =====
-- internal/queue/queue.go: which runs Cleanup drops, and that it finalizes them.
use piper.Queue.Finish.{append_success, finalize_run}
use mathlib.Core.List.{append_assoc, append-nil}
use piper.Queue.Timers.{
  release_run_slot, append_effect, append_write, call, stop_timer, stop_entry_timer,
}
use piper.Queue.Sound.Reachable.{expire_entries-Frame}
use piper.Queue.Frame.{finalize_run-Frame}
use piper.Queue.Types.{
  run_expired, Event, is_terminal, finalize, Write, TaskEntry, RunStatus, Queue, RunEntry,
}
use piper.Queue.Tasks.{delete_run}
use piper.Queue.Sweep.{
  expire_entry, expire_entries, run_expired_locked, expire_run, cleanup, cleanup_runs,
}
use piper.Prelude.{
  Bool, true, if◌then◌else◌, keep, ◌++◌, All-append, not, eq_refl, subst, All-map, eq_iff, sym, ap,
  ◌∙◌, str_eq, ◌-◌, Bool-cases, All, arith, false, refl, ℕ, String, ◌≡◌, List, [], ◌∷◌, ◌⊎◌, inl,
  inr,
}

-- The ids of the runs are the keys of a Go map, so no two runs have the same.
abbrev pub Distinct : List RunEntry → Type 0
Distinct [] = Unit
Distinct (x ∷ xs) = All (λ y. str_eq y.run_id x.run_id ≡ false) xs × Distinct xs

-- Among the writes is the one that finalizes the run as failed at this time.
abbrev pub FinalizedIn : ℕ → RunEntry → List Write → Type 0
FinalizedIn now r [] = ⊥
FinalizedIn now r (w ∷ ws) =
    ((cell : ℕ) × (w ≡ finalize cell r.project_id r.run_id RunStatus.failed now))
    ⊎ FinalizedIn now r ws

FinalizedIn-left :
    (now : ℕ) (r : RunEntry) (a b : List Write) → FinalizedIn now r a → FinalizedIn now r (a ++ b)
FinalizedIn-left now r [] b h = absurd h
FinalizedIn-left now r (w ∷ a) b (inl h) = inl h
FinalizedIn-left now r (w ∷ a) b (inr h) = inr (FinalizedIn-left now r a b h)

FinalizedIn-right :
    (now : ℕ) (r : RunEntry) (a b : List Write) → FinalizedIn now r b → FinalizedIn now r (a ++ b)
FinalizedIn-right now r [] b h = h
FinalizedIn-right now r (w ∷ a) b h = inr (FinalizedIn-right now r a b h)

pending_writes-stop_entry_timer :
    (e : TaskEntry) (q : Queue) → (stop_entry_timer e q).1.pending_writes ≡ q.pending_writes
unfolding stop_entry_timer stop_timer
pending_writes-stop_entry_timer e q = ground arith

expire_entry-writes :
    (now : ℕ) (r : RunEntry) (e : TaskEntry) (q : Queue)
    → (ws : List Write) × ((expire_entry now r e q).1.pending_writes ≡ q.pending_writes ++ ws)
unfolding expire_entry append_write
expire_entry-writes now r e q = elim (Bool-cases (is_terminal e.status)) [
  | inl t ↦ rw t ([], sym (append-nil q.pending_writes))
  | inr f ↦ rw (f, pending_writes-stop_entry_timer e q) (_, refl)
]

expire_entries-writes :
    (now : ℕ) (r : RunEntry) (tasks : List TaskEntry) (q : Queue)
    → (ws : List Write) × ((expire_entries now r tasks q).1.pending_writes ≡ q.pending_writes ++ ws)
unfolding expire_entries
expire_entries-writes now r [] q = ([], sym (append-nil q.pending_writes))
expire_entries-writes now r (e ∷ tasks) q =
    let (ws, p) = expire_entry-writes now r e q in
    let (ws', p') = expire_entries-writes now r tasks (expire_entry now r e q).1 in
    (ws ++ ws', p' ∙ ap (λ (l : List Write). l ++ ws') p ∙ append_assoc q.pending_writes ws ws')

pending_writes-finalize_run :
    (now : ℕ) (r : RunEntry) (status : RunStatus) (event : Event) (q : Queue)
    → (finalize_run now r status event q).pending_writes
      ≡ q.pending_writes ++ finalize q.next_id r.project_id r.run_id status now ∷ []
unfolding finalize_run append_success append_effect append_write release_run_slot call
pending_writes-finalize_run now r status event q = ground arith

module _ (now : ℕ) (x : RunEntry) (q : Queue) where
  abbrev last_write : Queue → List Write
  last_write q' = finalize q'.next_id x.project_id x.run_id RunStatus.failed now ∷ []

  expire_run-writes :
      (ws : List Write) × ((expire_run now x q).pending_writes ≡ q.pending_writes ++ ws)
      × FinalizedIn now x ws
  unfolding expire_run
  expire_run-writes =
      let q' : Queue = (expire_entries now x x.tasks q).1 in
      let (ws, p) = expire_entries-writes now x x.tasks q in
      (
        ws ++ last_write q',
        pending_writes-finalize_run now (record x { tasks = (expire_entries now x x.tasks q).0 })
              RunStatus.failed (run_expired x.run_id RunStatus.failed) q'
            ∙ ap (λ (l : List Write). l ++ last_write q') p
            ∙ append_assoc q.pending_writes ws (last_write q'),
        FinalizedIn-right now x ws (last_write q') (inl (q'.next_id, refl)),
      )

  expire_run-runs : (expire_run now x q).runs ≡ delete_run x.run_id q.runs
  unfolding expire_run
  expire_run-runs =
      (finalize_run-Frame now _ RunStatus.failed _ (expire_entries now x x.tasks q).1).runs
      ∙ ap (delete_run x.run_id) (expire_entries-Frame now x x.tasks q).runs

  -- What was finalized before, and this run.
  still_finalized :
      (r : RunEntry)
      → FinalizedIn now r q.pending_writes
      → FinalizedIn now r (expire_run now x q).pending_writes
  still_finalized r h =
      let (ws, p, _) = expire_run-writes in
      subst (FinalizedIn now r) (sym p) (FinalizedIn-left now r q.pending_writes ws h)

  now_finalized : FinalizedIn now x (expire_run now x q).pending_writes
  now_finalized =
      let (ws, p, h) = expire_run-writes in
      subst (FinalizedIn now x) (sym p) (FinalizedIn-right now x q.pending_writes ws h)

module _ (now cutoff : ℕ) where
  cleanup_runs-expired :
      (x : RunEntry) (left : List RunEntry) (q : Queue)
      → run_expired_locked cutoff x ≡ true
      → cleanup_runs now cutoff (x ∷ left) q ≡ cleanup_runs now cutoff left (expire_run now x q)
  unfolding cleanup_runs
  cleanup_runs-expired x left q t =
      ap (λ (b : Bool). cleanup_runs now cutoff left (if b then expire_run now x q else q)) t

  cleanup_runs-live :
      (x : RunEntry) (left : List RunEntry) (q : Queue)
      → run_expired_locked cutoff x ≡ false
      → cleanup_runs now cutoff (x ∷ left) q ≡ cleanup_runs now cutoff left q
  unfolding cleanup_runs
  cleanup_runs-live x left q f =
      ap (λ (b : Bool). cleanup_runs now cutoff left (if b then expire_run now x q else q)) f

  cleanup_runs-keeps :
      (left : List RunEntry) (r : RunEntry) (q : Queue)
      → FinalizedIn now r q.pending_writes
      → FinalizedIn now r (cleanup_runs now cutoff left q).pending_writes
  unfolding cleanup_runs
  cleanup_runs-keeps [] r q h = h
  cleanup_runs-keeps (x ∷ left) r q h = elim (Bool-cases (run_expired_locked cutoff x)) [
    | inl t ↦
        rw (cleanup_runs-expired x left q t)
          (cleanup_runs-keeps left r (expire_run now x q) (still_finalized now x q r h))
    | inr f ↦ rw (cleanup_runs-live x left q f) (cleanup_runs-keeps left r q h)
  ]

  cleanup_runs-FinalizedIn :
      (left : List RunEntry) (q : Queue)
      → All
          (λ r. FinalizedIn now r (cleanup_runs now cutoff left q).pending_writes)
          (keep (run_expired_locked cutoff) left)
  unfolding cleanup_runs
  cleanup_runs-FinalizedIn [] q = tt
  cleanup_runs-FinalizedIn (x ∷ left) q = elim (Bool-cases (run_expired_locked cutoff x)) [
    | inl t ↦
        rw (cleanup_runs-expired x left q t, t)
          (
            cleanup_runs-keeps left x (expire_run now x q) (now_finalized now x q),
            cleanup_runs-FinalizedIn left (expire_run now x q),
          )
    | inr f ↦ rw (cleanup_runs-live x left q f, f) (cleanup_runs-FinalizedIn left q)
  ]

  -- The runs that the sweep has passed, and the others, none of which has the id of one passed.
  abbrev Passed : List RunEntry → List RunEntry → Type 0
  Passed passed left = All (λ y. All (λ z. str_eq z.run_id y.run_id ≡ false) left) passed

  Passed-rest :
      (passed : List RunEntry) (x : RunEntry) (left : List RunEntry)
      → Passed passed (x ∷ left)
      → Passed passed left
  Passed-rest passed x left h = All-map _ _ passed (λ y a. a.1) h

  Passed-keep :
      (passed : List RunEntry) (x : RunEntry) (left : List RunEntry)
      → Passed passed (x ∷ left)
      → All (λ z. str_eq z.run_id x.run_id ≡ false) left
      → Passed (passed ++ x ∷ []) left
  Passed-keep passed x left h a =
      All-append (λ y. All (λ z. str_eq z.run_id y.run_id ≡ false) left) passed (x ∷ [])
        (Passed-rest passed x left h) (a, tt)

  delete-absent :
      (id : String) (runs : List RunEntry)
      → All (λ z. str_eq z.run_id id ≡ false) runs
      → delete_run id runs ≡ runs
  unfolding delete_run
  delete-absent id [] h = refl
  delete-absent id (z ∷ runs) h = rw (h.0, delete-absent id runs h.1) refl

  delete-Passed :
      (passed : List RunEntry) (x : RunEntry) (left : List RunEntry)
      → Passed passed (x ∷ left)
      → All (λ z. str_eq z.run_id x.run_id ≡ false) left
      → delete_run x.run_id (passed ++ x ∷ left) ≡ passed ++ left
  unfolding delete_run
  delete-Passed [] x left h a = rw (eq_refl x.run_id) (delete-absent x.run_id left a)
  delete-Passed (y ∷ passed) x left h a =
      let apart : str_eq y.run_id x.run_id ≡ false =
        ground (arith, h.0.0, eq_iff x.run_id y.run_id, eq_iff y.run_id x.run_id) in
      rw (apart, delete-Passed passed x left h.1 a) refl

  cleanup_runs-runs :
      (passed left : List RunEntry) (q : Queue)
      → Passed passed left
      → Distinct left
      → q.runs ≡ passed ++ left
      → (cleanup_runs now cutoff left q).runs
        ≡ passed ++ keep (λ r. not (run_expired_locked cutoff r)) left
  unfolding cleanup_runs
  cleanup_runs-runs passed [] q h d e = e
  cleanup_runs-runs passed (x ∷ left) q h d e = elim (Bool-cases (run_expired_locked cutoff x)) [
    | inl t ↦
        rw (cleanup_runs-expired x left q t, t)
          (cleanup_runs-runs passed left (expire_run now x q) (Passed-rest passed x left h) d.1 (
            expire_run-runs now x q
            ∙ ap (delete_run x.run_id) e
            ∙ delete-Passed passed x left h d.0))
    | inr f ↦
        rw (cleanup_runs-live x left q f, f)
          (cleanup_runs-runs (passed ++ x ∷ []) left q (Passed-keep passed x left h d.0) d.1
              (e ∙ sym (append_assoc passed (x ∷ []) left))
            ∙ append_assoc passed (x ∷ []) _)
  ]

-- After Cleanup the tracked runs are exactly those that had no running or recovering entry with a lease
-- older than the cutoff, and each of the others has a pending write that finalizes it as failed. The
-- runs have different ids, as the keys of a map.
pub cleanup_complete :
    (now ttl : ℕ) (q : Queue)
    → Distinct q.runs
    → ((cleanup now ttl q).runs ≡ keep (λ r. not (run_expired_locked (now - ttl) r)) q.runs)
      × All
          (λ r. FinalizedIn now r (cleanup now ttl q).pending_writes)
          (keep (run_expired_locked (now - ttl)) q.runs)
unfolding cleanup
cleanup_complete now ttl q d = (
  cleanup_runs-runs now (now - ttl) [] q.runs q tt d refl,
  cleanup_runs-FinalizedIn now (now - ttl) q.runs q,
)
