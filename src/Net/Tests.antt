-- ===== src/Net/Tests.antt =====
-- Runs of the network library: a poller over a kernel that keeps a table of interests, and one
-- connection.
use cluster_chat_server.Prelude.{
  ◌<◌, ◌≢◌, inl, ℕ, ◌≡◌, refl, List, [], ◌∷◌, ◌++◌, arith, Bool, true, false, Option, none, some,
  if◌then◌else◌, ◌==◌,
}
use cluster_chat_server.Prelude.Text.{codes}
use cluster_chat_server.Buffer.{done, failed}
use cluster_chat_server.Buffer.Inv.{contents}
use cluster_chat_server.Net.Channel
use cluster_chat_server.Net.Channel.{
  Channel, Ready, Interest, on_read, on_write, on_error, on_close, times, handle_event, all_set,
  handle_event_lem, reading_stays, disable_reading, enable_reading, is_reading, new,
}
use cluster_chat_server.Net.Poller.{
  Epoll, Ctl, add, mod_, del, Call, calls_enable_reading, calls_enable_writing, calls_disable_all,
  calls_remove, has_fd,
}
use cluster_chat_server.Net.Poller.Sync.{
  EpollLaws, AllInSync, at_new, Loop as PolledLoop, call_all, call_all-AllInSync,
}
use cluster_chat_server.Net.Loop
use cluster_chat_server.Net.Loop.{
  Reachable, start, next, tests, other_queues, other_wakes, Runs, testing,
}
use cluster_chat_server.Net.Loop.Wakeup.{no_lost_wakeup, turn_empties}
use cluster_chat_server.Net.Thread
use cluster_chat_server.Net.Thread.Handshake.{ReturnsLoop, start_loop_lem}
use cluster_chat_server.Net.Connection
use cluster_chat_server.Net.Connection.{
  Connection, connected, disconnected, disconnecting, ewouldblock, connection_established,
  connection_destroyed, handler_close, handler_write, send, shutdown,
}
use cluster_chat_server.Net.Connection.Run.{Op, sends, writes, reads, shuts_down, perform_all}
use cluster_chat_server.Net.Connection.Order.{in_order}
use cluster_chat_server.Net.Connection.Life.{told, told_twice}

-- A functor from another thread, up to the state in which the loop could sleep.
abbrev pushed : Loop.EventLoop
pushed = Loop.queue_from_other 7 (Loop.test_quit Loop.init)

abbrev woken : Loop.EventLoop
woken = record (Loop.wakeup pushed) { waking = 0 }

woken-Reachable : Reachable woken
unfolding Loop.init Loop.test_quit Loop.queue_from_other Loop.push Loop.wakeup
woken-Reachable =
    next _ _ (next _ _ (next _ _ start (tests refl)) (other_queues 7)) (other_wakes 0 refl)

no_lost_wakeup_example : 0 < woken.counter
unfolding Loop.init Loop.test_quit Loop.queue_from_other Loop.push Loop.wakeup
no_lost_wakeup_example = no_lost_wakeup woken woken-Reachable refl refl (inl (λ p. cc))

turn_empties_example :
    (t : Loop.EventLoop) × Runs woken t
    × (t.phase ≡ testing)
    × (t.ran ≡ woken.queued)
    × (t.queued ≡ woken.queued)
    × (t.waking ≡ woken.waking)
unfolding Loop.init Loop.test_quit Loop.queue_from_other Loop.push Loop.wakeup
turn_empties_example = turn_empties woken woken-Reachable refl

abbrev Table : Type 0
Table = ℕ → Option Interest

abbrev put : ℕ → Option Interest → Table → Table
put fd entry k = λ j. if fd == j then entry else k j

-- One call: it succeeds if the entry is there, or for ADD if it is not.
abbrev answer : Ctl → ℕ → Interest → Table → Option Interest → Bool × Table
answer add fd ev k none = (true, put fd (some ev) k)
answer add fd ev k (some old) = (false, k)
answer mod_ fd ev k none = (false, k)
answer mod_ fd ev k (some old) = (true, put fd (some ev) k)
answer del fd ev k none = (false, k)
answer del fd ev k (some old) = (true, put fd none k)

abbrev toy_epoll : Epoll
toy_epoll = record { Kernel = Table; epoll_ctl = λ op fd ev k. answer op fd ev k (k fd) }

abbrev toy_epoll_laws : EpollLaws toy_epoll
toy_epoll_laws = record {
  registered = λ k. k;
  ctl_add = λ fd ev k h. rw h refl;
  registered_add = λ fd j ev k h. rw h refl;
  ctl_mod = λ fd old ev k h. rw h refl;
  registered_mod = λ fd j old ev k h. rw h refl;
  ctl_del = λ fd old ev k h. rw h refl;
  registered_del = λ fd j old ev k h. rw h refl;
}

abbrev idle : PolledLoop ⦃E = toy_epoll⦄
idle = record {
  chans = Channel.init;
  poller = record { kernel = λ fd. none; channels = []; capacity = 16 };
}

idle-AllInSync : AllInSync ⦃E = toy_epoll⦄ toy_epoll_laws idle
unfolding Channel.init has_fd
idle-AllInSync = record { fds = λ j. refl; sync = λ j. at_new refl refl refl }

abbrev calls : List (ℕ × Call)
calls =
    (5, calls_enable_reading)
    ∷ (6, calls_enable_reading)
    ∷ (5, calls_enable_writing)
    ∷ (6, calls_disable_all)
    ∷ (5, calls_remove)
    ∷ (6, calls_remove)
    ∷ []

call_all-AllInSync_example :
    (l : PolledLoop ⦃E = toy_epoll⦄) × (call_all ⦃E = toy_epoll⦄ calls idle ≡ some l)
    × AllInSync ⦃E = toy_epoll⦄ toy_epoll_laws l
call_all-AllInSync_example =
    call_all-AllInSync ⦃E = toy_epoll⦄ toy_epoll_laws calls idle idle-AllInSync

abbrev both_ways : Ready
both_ways = record { epollin = true; epollout = true; epollerr = false; epollhup = true }

abbrev plain_channel : Channel
plain_channel = record {
  fd = 5;
  events = record { read = true; write = true };
  revents = both_ways;
  index = new;
  tied = true;
}

-- A connection that sends in two pieces: the socket takes three bytes at once and the rest later;
-- the shutdown comes before the rest is written.
abbrev ops : List Op
ops =
    sends (codes "hello") (done 3)
    ∷ reads 104 (codes "i")
    ∷ sends (codes "!") (failed ewouldblock)
    ∷ shuts_down
    ∷ writes (done 2)
    ∷ sends (codes "late") (done 4)
    ∷ writes (done 1)
    ∷ []

abbrev up : Connection
up = connection_established (Connection.init 5)

in_order_example :
    let c = perform_all ops up in
    (c.wire ++ contents c.output ≡ codes "hello!")
    × (Channel.is_writing c.channel ≡ false → c.wire ≡ codes "hello!")
    × (c.half_closed ≡ true → c.wire ≡ codes "hello!")
in_order_example =
    in_order 5 ops
      (omega arith, (((λ p. omega (arith, p)), (λ p. omega (arith, p))), (omega arith, tt)))
      (omega arith)

told_twice_example :
    let c = handler_close (perform_all ops up) in
    (told (connection_destroyed c).called ≡ true ∷ false ∷ [])
    × (connection_destroyed c ≡ record c { removed = true })
    × (Channel.is_none_event c.channel ≡ true)
told_twice_example = told_twice 5 ops

-- The same connection with two bytes pending.
abbrev waiting : Connection
waiting = send (codes "hello") (done 3) up

-- The caller waits for a post that the new thread has made.
abbrev posted : Thread.Start
posted = Thread.post (Thread.spawn Thread.init)

posted-Reachable : Thread.Reachable 5 posted
unfolding Thread.spawn Thread.init Thread.post
posted-Reachable =
    Thread.next (Thread.next Thread.start (Thread.steps (Thread.spawns Thread.init refl)))
      (Thread.steps (Thread.posts_once (Thread.spawn Thread.init) refl))

posted-runs : posted.worker ≢ Thread.ended
unfolding Thread.post
posted-runs e = ground (arith, e)

start_loop_lem_example :
    ReturnsLoop 5 posted.caller
    × (t : Thread.Start) × Thread.Runs 5 posted t
    × (t.caller ≡ Thread.returned (some 5))
start_loop_lem_example = start_loop_lem 5 {s = posted} posted-Reachable posted-runs
