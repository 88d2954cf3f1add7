-- ===== src/Net/Thread.antt =====
-- How a loop's thread comes up: src/net/Thread.cc and src/net/EventLoopThread.cc, as steps of the
-- thread that calls `startLoop` and of the new one. What `ThreadFunc` does under its mutex is one
-- step: a waiting caller cannot see half of it.
pub mod Handshake
use cluster_chat_server.Prelude.{ℕ, zero, suc, ◌≡◌, Option, none, some}

-- Where the caller is: before `thread_.start()`, in its `sem_wait`, at the test of `cond_.wait`,
-- asleep there, or returned with a loop, perhaps a null one.
pub data Caller : Type 0 where
  before_start in_sem_wait tests_loop asleep : Caller
  returned : Option ℕ → Caller

-- Where the new thread is: not there, before `sem_post`, before it stores its loop, in `loop()`, or
-- behind it with the loop taken back.
pub data Worker : Type 0 where
  absent before_post before_store looping ended : Worker

pub record Start : Type 0 where
  pub caller : Caller
  pub worker : Worker
  pub loop : Option ℕ
  pub posts : ℕ

unfoldable pub init : Start
init = record { caller = before_start; worker = absent; loop = none; posts = 0 }

-- The predicate of `cond_.wait`.
unfoldable pub after_test : Option ℕ → Caller
after_test none = asleep
after_test (some loop) = returned (some loop)

-- `notify_all`.
unfoldable pub woken : Caller → Caller
woken before_start = before_start
woken in_sem_wait = in_sem_wait
woken tests_loop = tests_loop
woken asleep = tests_loop
woken (returned loop) = returned loop

-- `Thread::start` makes the thread, and waits for its post.
unfoldable pub spawn : Start → Start
spawn s = record s { caller = in_sem_wait; worker = before_post }

unfoldable pub take_post : ℕ → Start → Start
take_post n s = record s { caller = tests_loop; posts = n }

unfoldable pub test_loop : Start → Start
unfolding after_test
test_loop s = record s { caller = after_test s.loop }

-- The new thread posts, stores its loop and notifies, and takes the loop back when `loop()` is over.
unfoldable pub post : Start → Start
post s = record s { worker = before_store; posts = suc s.posts }

unfoldable pub store : ℕ → Start → Start
unfolding woken
store object s = record s { caller = woken s.caller; worker = looping; loop = some object }

unfoldable pub leave : Start → Start
leave s = record s { worker = ended; loop = none }

-- One step of the code; `object` is the `EventLoop` of the new thread.
pub data Step (object : ℕ) : Start → Start → Type 0 where
  spawns : (s : Start) → s.caller ≡ before_start → Step object s (spawn s)
  takes_post :
      (s : Start) (n : ℕ) → s.caller ≡ in_sem_wait → s.posts ≡ suc n → Step object s (take_post n s)
  tests : (s : Start) → s.caller ≡ tests_loop → Step object s (test_loop s)
  posts_once : (s : Start) → s.worker ≡ before_post → Step object s (post s)
  stores : (s : Start) → s.worker ≡ before_store → Step object s (store object s)
  leaves : (s : Start) → s.worker ≡ looping → Step object s (leave s)

-- A sleeping thread can wake up by itself, at any time.
pub data Move (object : ℕ) : Start → Start → Type 0 where
  steps : {s t : Start} → Step object s t → Move object s t
  wakes_up : (s : Start) → s.caller ≡ asleep → Move object s (record s { caller = tests_loop })

pub data Reachable (object : ℕ) : Start → Type 0 where
  start : Reachable object init
  next : {s t : Start} → Reachable object s → Move object s t → Reachable object t

-- A run in which no thread wakes up by itself.
pub data Runs (object : ℕ) : Start → Start → Type 0 where
  done : {s : Start} → Runs object s s
  then_ : {s t u : Start} → Step object s t → Runs object t u → Runs object s u
