-- ===== src/Queue/Sound/Submissions.antt =====
-- internal/queue/queue.go: soundness under submissions and recovery.
use piper.Queue.Dispatch.{promote_ready}
use piper.Queue.Tasks.{all_terminal, store_run}
use piper.Queue.Frame.{
  arm_timer-Frame, stop_entry_timer-Frame, promote_ready-Frame, note-Frame, Frame-trans, Frame-refl,
  Frame,
}
use piper.Queue.Timers.{arm_timer, stop_entry_timer, call, transition_task, emit}
use piper.Pipeline.Defaults.{apply_defaults}
use piper.Queue.Sound.{promote_ready-IsSound, set_task-All, IsSound}
use piper.Queue.Sound.Runs.{
  finalize_run-SoundQueue, store_run-SoundQueue, Frame-SoundQueue, SoundQueue, AllSound,
}
use piper.Pipeline.{Step}
use piper.Queue.Types.{TaskEntry, Queue, RunEntry}
use piper.Queue.Submit.{
  new_run, schedule_recovery_grace, resume_run, recover_running, Submission, recover_steps,
  add_steps, recover_entry, RecoveredStep, new_entry, add_with_env, find_recovered,
  recover_with_env,
}
use piper.Prelude.{
  sym, subst, Bool-cases, Option, Option-cases, ◌≤◌, some, none, refl, ℕ, String, ◌≡◌, Bool, List,
  [], ◌∷◌, arith, inl, inr, All,
}

new_entry-IsSound :
    (now : ℕ) (sub : Submission) (s : Step) (q : Queue)
    → 1 ≤ q.max_attempts
    → IsSound (new_entry now sub s q)
unfolding new_entry
new_entry-IsSound now sub s q h = ground arith

add_steps-IsSound :
    (now : ℕ) (marshals : Step → Bool) (sub : Submission) (q : Queue) (steps : List Step)
    (tasks : List TaskEntry)
    → 1 ≤ q.max_attempts
    → All IsSound tasks
    → All IsSound (add_steps now marshals sub q steps tasks)
unfolding add_steps
add_steps-IsSound now marshals sub q [] tasks m h = h
add_steps-IsSound now marshals sub q (s ∷ steps) tasks m h =
    add_steps-IsSound now marshals sub q steps _ m (elim (Bool-cases (marshals s)) [
      | inl t ↦ rw t (set_task-All IsSound _ tasks (new_entry-IsSound now sub s q m) h)
      | inr f ↦ rw f h
    ])

promoted-SoundQueue :
    (now : ℕ) (r : RunEntry) (q : Queue)
    → AllSound r
    → SoundQueue q
    → SoundQueue (store_run (promote_ready now r q).0 (promote_ready now r q).1)
promoted-SoundQueue now r q a h =
    store_run-SoundQueue _ _ (promote_ready-IsSound now r q a)
      (Frame-SoundQueue (promote_ready-Frame now r q) h)

pub add_with_env-SoundQueue :
    (now : ℕ) (marshals : Step → Bool) (sub : Submission) (q : Queue)
    → SoundQueue q
    → SoundQueue (add_with_env now marshals sub q)
unfolding add_with_env
add_with_env-SoundQueue now marshals sub q h =
    promoted-SoundQueue now _ q
      (unfold new_run in add_steps-IsSound now marshals sub q _ [] h.attempts tt) h

-- The persisted attempts do not exceed what the queue allows.
abbrev pub FitsAttempts : ℕ → List RecoveredStep → Type 0
FitsAttempts m recovered = All (λ rs. rs.attempts ≤ m) recovered

find_recovered-fits :
    (m : ℕ) (name : String) (recovered : List RecoveredStep) (rs : RecoveredStep)
    → FitsAttempts m recovered
    → find_recovered name recovered ≡ some rs
    → rs.attempts ≤ m
unfolding find_recovered
find_recovered-fits m name [] rs h p = cc
find_recovered-fits m name (x ∷ rest) rs h p = elim (Option-cases (find_recovered name rest)) [
  | inl e ↦ ground arith
  | inr (y, e) ↦ find_recovered-fits m name rest rs h.1 (ground arith)
]

recover_entry-IsSound :
    (now : ℕ) (sub : Submission) (s : Step) (o : Option RecoveredStep) (q : Queue)
    → 1 ≤ q.max_attempts
    → ((rs : RecoveredStep) → o ≡ some rs → rs.attempts ≤ q.max_attempts)
    → IsSound (recover_entry now sub o (new_entry now sub s q) q).0
unfolding recover_entry
recover_entry-IsSound now sub s none q m fits = new_entry-IsSound now sub s q m
recover_entry-IsSound now sub s (some rs) q m fits = elim (Bool-cases rs.done) [
  | inl d ↦ rw d (unfold new_entry transition_task in ground arith)
  | inr d ↦ elim (Option-cases rs.started_at) [
    | inl p ↦ rw (d, p, recover_entry) (new_entry-IsSound now sub s q m)
    | inr (at, p) ↦
        let f = fits rs refl in
        rw (d, p, recover_entry)
          (unfold recover_running schedule_recovery_grace new_entry transition_task stop_entry_timer
              arm_timer in
            ground arith)
  ]
]

recover_entry-Frame :
    (now : ℕ) (sub : Submission) (o : Option RecoveredStep) (e : TaskEntry) (q : Queue)
    → Frame q (recover_entry now sub o e q).1
unfolding recover_entry recover_running schedule_recovery_grace emit call
recover_entry-Frame now sub none e q = Frame-refl q
recover_entry-Frame now sub (some rs) e q = elim (Bool-cases rs.done) [
  | inl d ↦ rw d (Frame-refl q)
  | inr d ↦ elim (Option-cases rs.started_at) [
    | inl p ↦ rw (d, p, recover_entry) (Frame-refl q)
    | inr (at, p) ↦
        rw (d, p, recover_entry)
          (Frame-trans (Frame-trans (note-Frame q _ _ _) (stop_entry_timer-Frame _ _))
            (arm_timer-Frame _ _ _ _ _))
  ]
]

recover_steps-IsSound :
    (now : ℕ) (sub : Submission) (recovered : List RecoveredStep) (steps : List Step)
    (tasks : List TaskEntry) (q : Queue)
    → 1 ≤ q.max_attempts
    → FitsAttempts q.max_attempts recovered
    → All IsSound tasks
    → All IsSound (recover_steps now sub recovered steps tasks q).0
      × Frame q (recover_steps now sub recovered steps tasks q).1
unfolding recover_steps
recover_steps-IsSound now sub recovered [] tasks q m fits h = (h, Frame-refl q)
recover_steps-IsSound now sub recovered (s ∷ steps) tasks q m fits h =
    let o = find_recovered s.name recovered in
    let f = recover_entry-Frame now sub o (new_entry now sub s q) q in
    let sound =
      recover_entry-IsSound now sub s o q m
        (λ rs p. find_recovered-fits q.max_attempts s.name recovered rs fits p) in
    let rest =
      recover_steps-IsSound now sub recovered steps _ _ (rw f.max_attempts m)
        (subst (λ k. FitsAttempts k recovered) (sym f.max_attempts) fits)
        (set_task-All IsSound _ tasks sound h) in
    (rest.0, Frame-trans f rest.1)

pub recover_with_env-SoundQueue :
    (now : ℕ) (sub : Submission) (recovered : List RecoveredStep) (q : Queue)
    → FitsAttempts q.max_attempts recovered
    → SoundQueue q
    → SoundQueue (recover_with_env now sub recovered q)
unfolding recover_with_env resume_run
recover_with_env-SoundQueue now sub recovered q fits h =
    let (sound, f) =
      recover_steps-IsSound now sub recovered (apply_defaults sub.pl).steps [] q h.attempts fits
        tt in
    let k = Frame-SoundQueue f h in
    elim (Bool-cases (
      all_terminal
        (new_run now sub
          (recover_steps now sub recovered (apply_defaults sub.pl).steps [] q).0).tasks)) [
            | inl t ↦ rw t (finalize_run-SoundQueue now _ _ _ _ k)
            | inr t ↦ rw t (promoted-SoundQueue now _ _ (unfold new_run in sound) k)
          ]
