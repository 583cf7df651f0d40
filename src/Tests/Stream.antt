-- ===== src/Tests/Stream.antt =====
-- internal/membertunnel/framequeue.go: the theorems at a stream of two frames.
use piper.Tunnel.FrameQueue.Fifo.{run-Serves, ServesAll, contents}
use piper.Tunnel.FrameQueue.Wakes.{pop_returns}
use piper.Tunnel.FrameQueue.{
  Stream, StreamAction, act, consume, iteration, try_pop, push, log, run, popped, push_frame,
  call_wake, call_pop, iterate, receive, selecting, new_stream,
}
use piper.Prelude.{ℕ, false, ◌≡◌, refl, List, [], ◌∷◌}

-- The consumer waits before the first frame comes.
abbrev early_pop : List (StreamAction ℕ)
early_pop = call_pop ∷ iterate ∷ push_frame 7 ∷ push_frame 8 ∷ []

abbrev waiting_stream : Stream ℕ
waiting_stream = record {
  queue = record { buf = 7 ∷ 8 ∷ []; notify = false; closed = false };
  wakes = 2;
  consumer = selecting;
}

early_pop-waits : (run early_pop new_stream).1 ≡ waiting_stream
unfolding run act consume iteration try_pop push log
early_pop-waits = refl

pop_returns_example : (run (call_wake ∷ receive ∷ iterate ∷ []) waiting_stream).0 ≡ popped 7 ∷ []
pop_returns_example = pop_returns early_pop waiting_stream early_pop-waits refl

run-Serves_example :
    ServesAll
      (contents waiting_stream)
      (run (call_wake ∷ receive ∷ iterate ∷ []) waiting_stream).0
      (contents (run (call_wake ∷ receive ∷ iterate ∷ []) waiting_stream).1)
run-Serves_example = run-Serves (call_wake ∷ receive ∷ iterate ∷ []) waiting_stream
