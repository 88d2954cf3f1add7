-- ===== src/Net/Loop.antt =====
-- The functor queue and the wake-up of an event loop: include/net/EventLoop.h and
-- src/net/EventLoop.cc. The loop's thread and any number of other threads take turns; one step is
-- what a thread does without the others being able to see half of it. `waking` counts the other
-- threads that have changed the loop and not yet written to the eventfd.
pub mod Wakeup
use cluster_chat_server.Prelude.{ℕ, suc, ◌≡◌, List, [], ◌∷◌, ◌++◌, Bool, true, false, if◌then◌else◌}

-- Where the loop's thread is in `loop()`: before the test of `quit_`, in `poll`, among the events,
-- in `doPendingFunctors`, or behind the `while`.
pub data Phase : Type 0 where
  testing polling handling calling finished : Phase

-- `pending` is `pendingFunctors_`; `current` are the functors of the running `doPendingFunctors` that
-- have still to run; `ran` and `queued` are all that ran and all that were queued, in order.
pub record EventLoop : Type 0 where
  pub phase : Phase
  pub quit : Bool
  pub calling_pending : Bool
  pub pending : List ℕ
  pub current : List ℕ
  pub counter : ℕ
  pub waking : ℕ
  pub ran : List ℕ
  pub queued : List ℕ

-- At the start of `loop()`, which sets `quit_` to false.
unfoldable pub init : EventLoop
init = record {
  phase = testing;
  quit = false;
  calling_pending = false;
  pending = [];
  current = [];
  counter = 0;
  waking = 0;
  ran = [];
  queued = [];
}

unfoldable pub push : ℕ → EventLoop → EventLoop
push f s = record s { pending = s.pending ++ f ∷ []; queued = s.queued ++ f ∷ [] }

-- The eventfd counts what is written to it, and a read sets it to 0.
unfoldable pub wakeup : EventLoop → EventLoop
wakeup s = record s { counter = suc s.counter }

unfoldable pub handle_read : EventLoop → EventLoop
handle_read s = record s { counter = 0 }

-- `queueInLoop` and `quit` in the loop's own thread.
unfoldable pub queue_in_loop : ℕ → EventLoop → EventLoop
unfolding push wakeup
queue_in_loop f s = if s.calling_pending then wakeup (push f s) else push f s

unfoldable pub quit_in_loop : EventLoop → EventLoop
quit_in_loop s = record s { quit = true }

-- The same from another thread, up to the write of `wakeup()`.
unfoldable pub queue_from_other : ℕ → EventLoop → EventLoop
unfolding push
queue_from_other f s = record (push f s) { waking = suc s.waking }

unfoldable pub quit_from_other : EventLoop → EventLoop
quit_from_other s = record s { quit = true; waking = suc s.waking }

-- `doPendingFunctors`: the swap, one functor, the end.
unfoldable pub swap_pending : EventLoop → EventLoop
swap_pending s = record s {
  phase = calling;
  calling_pending = true;
  current = s.pending;
  pending = [];
}

unfoldable pub run_first : ℕ → List ℕ → EventLoop → EventLoop
run_first f fs s = record s { current = fs; ran = s.ran ++ f ∷ [] }

unfoldable pub end_pending : EventLoop → EventLoop
end_pending s = record s { phase = testing; calling_pending = false }

-- `while (!quit_)`
unfoldable pub test_quit : EventLoop → EventLoop
test_quit s = record s { phase = if s.quit then finished else polling }

pub data Step (s : EventLoop) : EventLoop → Type 0 where
  tests : s.phase ≡ testing → Step s (test_quit s)
  -- `poll` returns on an event or after its timeout
  poll_returns : s.phase ≡ polling → Step s (record s { phase = handling })
  -- the read callback of the wake-up channel, and what other callbacks do
  reads_wakeup : s.phase ≡ handling → Step s (handle_read s)
  event_queues : (f : ℕ) → s.phase ≡ handling → Step s (queue_in_loop f s)
  event_quits : s.phase ≡ handling → Step s (quit_in_loop s)
  swaps : s.phase ≡ handling → Step s (swap_pending s)
  runs : (f : ℕ) (fs : List ℕ) → s.phase ≡ calling → s.current ≡ f ∷ fs → Step s (run_first f fs s)
  functor_queues : (f : ℕ) → s.phase ≡ calling → Step s (queue_in_loop f s)
  functor_quits : s.phase ≡ calling → Step s (quit_in_loop s)
  ends : s.phase ≡ calling → s.current ≡ [] → Step s (end_pending s)
  other_queues : (f : ℕ) → Step s (queue_from_other f s)
  other_quits : Step s (quit_from_other s)
  other_wakes : (n : ℕ) → s.waking ≡ suc n → Step s (record (wakeup s) { waking = n })

pub data Reachable : EventLoop → Type 0 where
  start : Reachable init
  next : (s t : EventLoop) → Reachable s → Step s t → Reachable t

-- Any number of steps.
pub data Runs (s : EventLoop) : EventLoop → Type 0 where
  stays : Runs s s
  goes : (t u : EventLoop) → Runs s t → Step t u → Runs s u
