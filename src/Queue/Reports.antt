-- ===== src/Queue/Reports.antt =====
-- internal/queue/queue.go: the tests of completeLocked.
use piper.Queue.Types.{is_terminal, Queue, TaskStatus, TaskResult}
use piper.Queue.Complete.{complete_cases, complete, applied, judge_attempts, int_attempt}
use piper.Prelude.{
  ◌&&◌, pos, ltb_ℤ, ◌≤ℤ◌, ℤ, eq_iff, ◌≢◌, ◌↔◌, ◌⊎◌, arith, false, refl, ℕ, String, ◌≡◌,
}

-- The result names the runtime that owns the task, or nobody owns it.
abbrev pub FromOwner : (owner runtime_id : String) → Type 0
FromOwner owner runtime_id = (owner ≡ "") ⊎ (runtime_id ≡ owner)

-- The result is for the current attempt. An entry whose count is zero or less takes a result for any
-- attempt below it too: the code looks for a stale attempt only behind a positive count.
abbrev pub FromAttempt : (attempts attempt : ℤ) → Type 0
FromAttempt attempts attempt = (attempt ≡ attempts) ⊎ ((attempts ≤ℤ pos 0) × (attempt ≤ℤ attempts))

-- A result is accepted exactly if the entry's status is not terminal, the result is for its current
-- attempt, or for any lower one where the entry's count of attempts is not positive (a missing number
-- of the result counts as 1), and it comes from the owner of the task or the task has no owner. The
-- count and the number are any signed integers.
pub judge_iff :
    (owner runtime_id : String) (status : TaskStatus) (attempts attempt : ℤ)
    → (judge_attempts owner runtime_id status attempts attempt ≡ applied) ↔ (
        (is_terminal status ≡ false)
        × FromAttempt attempts (int_attempt attempt)
        × FromOwner owner runtime_id)
unfolding judge_attempts
judge_iff owner runtime_id status attempts attempt = (
  λ h. (
    ground arith,
    attempts_of attempts (int_attempt attempt) (ground (arith, h)) (ground (arith, h)),
    ground (arith, eq_iff owner "", eq_iff runtime_id owner),
  ),
  λ h. accepts h.0 h.1 h.2,
)
  where
    attempts_of :
        (a b : ℤ) → (ltb_ℤ (pos 0) a && ltb_ℤ b a) ≡ false → ltb_ℤ a b ≡ false → FromAttempt a b
    attempts_of a b stale future = ground arith

    accepts :
        is_terminal status ≡ false
        → FromAttempt attempts (int_attempt attempt)
        → FromOwner owner runtime_id
        → judge_attempts owner runtime_id status attempts attempt ≡ applied
    accepts open' a o =
        ground (arith, eq_iff owner "", eq_iff runtime_id "", eq_iff runtime_id owner)

-- A completion that is not applied, because it is rejected or because it is late or a duplicate,
-- leaves the whole queue as it was: no event, write, release or timer.
pub complete_unapplied :
    (now : ℕ) (result : TaskResult) (q : Queue)
    → (complete now result q).0 ≢ applied
    → (complete now result q).1 ≡ q
complete_unapplied now result q =
    complete_cases (λ c p. c ≢ applied → p ≡ q) now result q (λ c n _. refl)
      (λ r e acc n. absurd (n refl))
