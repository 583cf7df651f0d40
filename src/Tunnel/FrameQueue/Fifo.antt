-- ===== src/Tunnel/FrameQueue/Fifo.antt =====
-- internal/membertunnel/framequeue.go: what a caller sees of the queue.
use piper.Tunnel.FrameQueue.{
  log, run, call_pop, iterate, receive, context_done, close_queue, call_wake, idle, looping,
  selecting, push_frame, wake, Consumer, close, push, StreamAction, try_pop, Stream, consume, act,
  iteration, StreamEvent, pushed, closing, popped, ended, gave_up,
}
use piper.Prelude.{
  List-cases, Nat-cases, subst, inr, Bool-cases, inl, refl, Option, some, none, Bool, true, ◌≡◌,
  List, [], ◌∷◌, ◌++◌,
}

-- An abstract queue: its frames in order, and whether it is closed.
pub record Fifo {ℓ} (A : Type ℓ) : Type ℓ where
  pub frames : List A
  pub is_closed : Bool

-- What the abstract queue may do.
pub data Serves {ℓ} {A : Type ℓ} (s u : Fifo A) : StreamEvent A → Type ℓ where
  puts : (f : A) → u ≡ record s { frames = s.frames ++ f ∷ [] } → Serves s u (pushed f)
  closes : u ≡ record s { is_closed = true } → Serves s u closing
  takes : (f : A) → s ≡ record u { frames = f ∷ u.frames } → Serves s u (popped f)
  ends : s.frames ≡ [] → s.is_closed ≡ true → u ≡ s → Serves s u ended
  leaves : u ≡ s → Serves s u gave_up

-- A sequence of events of the abstract queue.
pub data ServesAll {ℓ} {A : Type ℓ} : Fifo A → List (StreamEvent A) → Fifo A → Type ℓ where
  nil : {s : Fifo A} → ServesAll s [] s
  cons :
      {s t u : Fifo A} {e : StreamEvent A} {es : List (StreamEvent A)}
      → Serves s t e
      → ServesAll t es u
      → ServesAll s (e ∷ es) u

module _ {ℓ} {A : Type ℓ} where
  abbrev pub contents : Stream A → Fifo A
  contents s = record { frames = s.queue.buf; is_closed = s.queue.closed }

  -- An action without an event leaves the abstract queue as it is.
  Refines : Stream A → Option (StreamEvent A) × Stream A → Type ℓ
  Refines s (none, u) = contents u ≡ contents s
  Refines s (some e, u) = Serves (contents s) (contents u) e

  iterate-Refines : (s : Stream A) → Refines s (iteration (try_pop s.queue) s)
  unfolding iteration try_pop Refines
  iterate-Refines s = elim (List-cases s.queue.buf) [
    | inl e ↦ rw e (elim (Bool-cases s.queue.closed) [
      | inl t ↦ rw t (ends refl refl refl)
      | inr n ↦ rw n refl
    ])
    | inr h ↦ let (f, rest, e) = h in rw e (takes f refl)
  ]

  consume-Refines : (a : StreamAction A) (c : Consumer) (s : Stream A) → Refines s (consume a c s)
  unfolding consume Refines
  consume-Refines call_pop idle s = refl
  consume-Refines iterate looping s = iterate-Refines s
  consume-Refines receive selecting s = elim (Bool-cases s.queue.notify) [
    | inl t ↦ rw t refl
    | inr n ↦ rw n refl
  ]
  consume-Refines context_done selecting s = leaves refl
  consume-Refines _ _ s = refl

  act-Refines : (a : StreamAction A) (s : Stream A) → Refines s (act a s)
  unfolding act push close wake Refines
  act-Refines (push_frame f) s = puts f refl
  act-Refines close_queue s = closes refl
  act-Refines call_wake s = elim (Nat-cases s.wakes) [
    | inl e ↦ rw e refl
    | inr h ↦ let (n, e) = h in rw e refl
  ]
  act-Refines a s = consume-Refines a s.consumer s

  log-Serves :
      {es : List (StreamEvent A)} {c : Fifo A} (s : Stream A)
      (r : Option (StreamEvent A) × Stream A)
      → Refines s r
      → ServesAll (contents r.1) es c
      → ServesAll (contents s) (log r.0 es) c
  unfolding log Refines
  log-Serves {es} {c} s (none, u) h served = subst (λ d. ServesAll d es c) h served
  log-Serves s (some e, u) h served = cons h served

  -- Any interleaving of pushes, closes, wakes and pops is a run of the abstract queue: frames come out
  -- in the order in which they went in, none is lost or repeated, and pop reports the end of the queue
  -- only when it is closed and empty.
  pub run-Serves :
      (actions : List (StreamAction A)) (s : Stream A)
      → ServesAll (contents s) (run actions s).0 (contents (run actions s).1)
  unfolding run log
  run-Serves [] s = nil
  run-Serves (a ∷ rest) s = log-Serves s (act a s) (act-Refines a s) (run-Serves rest (act a s).1)
