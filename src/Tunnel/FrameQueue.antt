-- ===== src/Tunnel/FrameQueue.antt =====
-- internal/membertunnel/framequeue.go: the frames of one HTTP stream. The critical sections of q.mu,
-- the sends and receives on q.notify and the end of the context are single actions; pushes and
-- closes come from any number of goroutines, pops from the stream's one consumer.
pub mod Fifo
pub mod Wakes
use piper.Prelude.{
  ℕ, zero, suc, Bool, true, false, Option, none, some, List, [], ◌∷◌, ◌++◌, if◌then◌else◌,
}

-- httpFrameQueue; `notify` tells whether the channel, of capacity 1, holds a token.
pub record HttpFrameQueue {ℓ} (A : Type ℓ) : Type ℓ where
  pub buf : List A
  pub notify : Bool
  pub closed : Bool

-- What one critical section of pop finds.
pub data Found {ℓ} (A : Type ℓ) : Type ℓ where
  found : A → Found A
  drained : Found A
  nothing : Found A

module _ {ℓ} {A : Type ℓ} where
  -- newHTTPFrameQueue
  abbrev pub new_frame_queue : HttpFrameQueue A
  new_frame_queue = record { buf = []; notify = false; closed = false }

  -- The critical section of push.
  unfoldable pub push : A → HttpFrameQueue A → HttpFrameQueue A
  push frame q = record q { buf = q.buf ++ frame ∷ [] }

  -- The critical section of close.
  unfoldable pub close : HttpFrameQueue A → HttpFrameQueue A
  close q = record q { closed = true }

  -- wake: a send that does not wait, and has no effect on a full channel.
  unfoldable pub wake : HttpFrameQueue A → HttpFrameQueue A
  wake q = record q { notify = true }

  -- The critical section of one iteration of pop.
  unfoldable pub try_pop : HttpFrameQueue A → Found A × HttpFrameQueue A
  try_pop q = elim q.buf [
    | f ∷ rest ↦ (found f, record q { buf = rest })
    | [] ↦ (if q.closed then drained else nothing, q)
  ]

-- Where the consumer is: outside pop, before its critical section, or in its select.
pub data Consumer : Type 0 where
  idle : Consumer
  looping : Consumer
  selecting : Consumer

-- The queue with the goroutines around it. `wakes` counts the pushes and closes that have left the
-- critical section and not yet called wake.
pub record Stream {ℓ} (A : Type ℓ) : Type ℓ where
  pub queue : HttpFrameQueue A
  pub wakes : ℕ
  pub consumer : Consumer

pub data StreamAction {ℓ} (A : Type ℓ) : Type ℓ where
  push_frame : A → StreamAction A
  close_queue : StreamAction A
  call_wake : StreamAction A
  call_pop : StreamAction A
  iterate : StreamAction A
  receive : StreamAction A
  context_done : StreamAction A

-- What a caller sees: a frame went in, the queue was closed, pop returned a frame, pop returned
-- false since the queue had ended, pop returned false since its context had.
pub data StreamEvent {ℓ} (A : Type ℓ) : Type ℓ where
  pushed : A → StreamEvent A
  closing : StreamEvent A
  popped : A → StreamEvent A
  ended : StreamEvent A
  gave_up : StreamEvent A

module _ {ℓ} {A : Type ℓ} where
  abbrev pub new_stream : Stream A
  new_stream = record { queue = new_frame_queue; wakes = 0; consumer = idle }

  unfoldable pub iteration :
      Found A × HttpFrameQueue A → Stream A → Option (StreamEvent A) × Stream A
  iteration (found f, q) s = (some (popped f), record s { queue = q; consumer = idle })
  iteration (drained, q) s = (some ended, record s { queue = q; consumer = idle })
  iteration (nothing, q) s = (none, record s { queue = q; consumer = selecting })

  -- The consumer's part of an action; where it is elsewhere, nothing happens.
  unfoldable pub consume : StreamAction A → Consumer → Stream A → Option (StreamEvent A) × Stream A
  consume call_pop idle s = (none, record s { consumer = looping })
  consume iterate looping s = iteration (try_pop s.queue) s
  consume receive selecting s =
      if s.queue.notify
      then (none, record s { queue = record (s.queue) { notify = false }; consumer = looping })
      else (none, s)
  consume context_done selecting s = (some gave_up, record s { consumer = idle })
  consume _ _ s = (none, s)

  unfoldable pub act : StreamAction A → Stream A → Option (StreamEvent A) × Stream A
  act (push_frame f) s = (some (pushed f), record s { queue = push f s.queue; wakes = suc s.wakes })
  act close_queue s = (some closing, record s { queue = close s.queue; wakes = suc s.wakes })
  act call_wake s = elim s.wakes [
    | zero ↦ (none, s)
    | suc n ↦ (none, record s { queue = wake s.queue; wakes = n })
  ]
  act a s = consume a s.consumer s

  unfoldable pub log : Option (StreamEvent A) → List (StreamEvent A) → List (StreamEvent A)
  log none es = es
  log (some e) es = e ∷ es

  -- The events of a sequence of actions, and the state after it.
  unfoldable pub run : List (StreamAction A) → Stream A → List (StreamEvent A) × Stream A
  run [] s = ([], s)
  run (a ∷ rest) s = let (e, s') = act a s in let (es, end) = run rest s' in (log e es, end)
