-- ===== src/Tunnel/FrameQueue/Wakes.antt =====
-- internal/membertunnel/framequeue.go: the wake-ups of a consumer that waits.
use piper.Tunnel.FrameQueue.{
  Stream, StreamAction, StreamEvent, act, consume, iteration, try_pop, push, close, wake, log, run,
  popped, ended, push_frame, close_queue, call_wake, call_pop, iterate, receive, context_done,
  Consumer, idle, looping, selecting, new_stream,
}
use piper.Prelude.{
  subst, inr, Bool-cases, inl, List-cases, Nat-cases, not, ltb, ◌||◌, ◌&&◌, Bool, true, false, ◌≡◌,
  refl, List, [], ◌∷◌, arith,
}

abbrev is_selecting : Consumer → Bool
is_selecting selecting = true
is_selecting _ = false

abbrev is_empty {ℓ} : {A : Type ℓ} → List A → Bool
is_empty [] = true
is_empty (x ∷ xs) = false

module _ {ℓ} {A : Type ℓ} where
  -- The consumer waits although pop has something to return.
  abbrev pub is_asleep : Stream A → Bool
  is_asleep s = is_selecting s.consumer && (not (is_empty s.queue.buf) || s.queue.closed)

  -- A consumer that waits although pop has something to return has a token, or is about to get one.
  abbrev pub IsAwake : Stream A → Type 0
  IsAwake s = is_asleep s ≡ true → (s.queue.notify || ltb 0 s.wakes) ≡ true

  try_pop-IsAwake : (s : Stream A) → IsAwake (iteration (try_pop s.queue) s).1
  unfolding try_pop iteration
  try_pop-IsAwake s = elim (List-cases s.queue.buf) [
    | inl e ↦ elim (Bool-cases s.queue.closed) [
      | inl t ↦ rw (e, t) (ground arith)
      | inr n ↦ rw (e, n) (ground arith)
    ]
    | inr h ↦ let (f, rest, e) = h in rw e (ground arith)
  ]

  consume-IsAwake :
      (a : StreamAction A) (c : Consumer) (s : Stream A)
      → s.consumer ≡ c
      → IsAwake s
      → IsAwake (consume a c s).1
  unfolding consume
  consume-IsAwake call_pop idle s e h = ground arith
  consume-IsAwake iterate looping s e h = try_pop-IsAwake s
  consume-IsAwake receive selecting s e h = ground (arith, h)
  consume-IsAwake context_done selecting s e h = ground arith
  consume-IsAwake _ _ s e h = h

  act-IsAwake : (a : StreamAction A) (s : Stream A) → IsAwake s → IsAwake (act a s).1
  unfolding act push close wake
  act-IsAwake (push_frame f) s h = ground arith
  act-IsAwake close_queue s h = ground arith
  act-IsAwake call_wake s h = elim (Nat-cases s.wakes) [
    | inl e ↦ rw e (ground (arith, h, e))
    | inr m ↦ let (n, e) = m in rw e (ground arith)
  ]
  act-IsAwake a s h = consume-IsAwake a s.consumer s refl h

  run-IsAwake :
      (actions : List (StreamAction A)) (s : Stream A) → IsAwake s → IsAwake (run actions s).1
  unfolding run
  run-IsAwake [] s h = h
  run-IsAwake (a ∷ rest) s h = run-IsAwake rest (act a s).1 (act-IsAwake a s h)

  -- What pop returns on a queue, if it returns.
  abbrev pub result : List A → Bool → List (StreamEvent A)
  result (f ∷ rest) closed' = popped f ∷ []
  result [] true = ended ∷ []
  result [] false = []

  -- The token of an awake consumer arrives.
  awake-returns :
      (s : Stream A)
      → IsAwake s
      → s.consumer ≡ selecting
      → (run (call_wake ∷ receive ∷ iterate ∷ []) s).0 ≡ result s.queue.buf s.queue.closed
  unfolding run act consume iteration try_pop wake log
  awake-returns s h at = elim (Nat-cases s.wakes) [
    | inl z ↦ elim (Bool-cases s.queue.notify) [
      | inl t ↦ elim (List-cases s.queue.buf) [
        | inl e ↦ elim (Bool-cases s.queue.closed) [
          | inl c ↦ rw (z, at, t, e, c) refl
          | inr o ↦ rw (z, at, t, e, o) refl
        ]
        | inr m ↦ let (f, rest, e) = m in rw (z, at, t, e) refl
      ]
      | inr n ↦ elim (List-cases s.queue.buf) [
        | inl e ↦ elim (Bool-cases s.queue.closed) [
          | inl c ↦ absurd (ground (arith, h, z, n, e, c, at))
          | inr o ↦ rw (z, at, n, e, o) refl
        ]
        | inr m ↦ let (f, rest, e) = m in absurd (ground (arith, h, z, n, e, at))
      ]
    ]
    | inr w ↦
        let (n, z) = w in
        elim (List-cases s.queue.buf) [
          | inl e ↦ elim (Bool-cases s.queue.closed) [
            | inl c ↦ rw (z, at, e, c) refl
            | inr o ↦ rw (z, at, e, o) refl
          ]
          | inr m ↦ let (f, rest, e) = m in rw (z, at, e) refl
        ]
  ]

  -- Whatever has happened since the queue was made, a consumer that waits in pop is at most one wake,
  -- one receive and one iteration away from what it waits for: it returns the first frame if there is
  -- one, and the end of the queue if that is closed and empty.
  pub pop_returns :
      (actions : List (StreamAction A)) (s : Stream A)
      → (run actions new_stream).1 ≡ s
      → s.consumer ≡ selecting
      → (run (call_wake ∷ receive ∷ iterate ∷ []) s).0 ≡ result s.queue.buf s.queue.closed
  pop_returns actions s reached at =
      awake-returns s (subst IsAwake reached (run-IsAwake actions new_stream (λ i. cc i))) at
