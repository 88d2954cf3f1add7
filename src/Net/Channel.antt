-- ===== src/Net/Channel.antt =====
-- A file descriptor with the events that it waits for: include/net/Channel.h and src/net/Channel.cc.
-- What `update()` and `remove()` do in the poller is in `Net.Poller`.
use cluster_chat_server.Prelude.{
  ℕ, suc, ◌+◌, ◌≤◌, ◌≡◌, refl, List, [], ◌∷◌, ◌++◌, Bool, true, false, not, ◌&&◌, arith,
  if◌then◌else◌,
}

-- `events_`, whose bits are those of `kReadEvent` and `kWriteEvent`; none of them is `kNoneEvent`.
pub record Interest : Type 0 where
  pub read : Bool
  pub write : Bool

abbrev pub none_event : Interest
none_event = record { read = false; write = false }

-- `revents_`, as `epoll_wait` reports it.
pub record Ready : Type 0 where
  pub epollin : Bool
  pub epollout : Bool
  pub epollerr : Bool
  pub epollhup : Bool

-- `index_`: kNew, kAdded, kDelete.
pub data Index : Type 0 where
  new added delete : Index

pub record Channel : Type 0 where
  pub fd : ℕ
  pub events : Interest
  pub revents : Ready
  pub index : Index
  pub tied : Bool

abbrev pub nothing_ready : Ready
nothing_ready = record { epollin = false; epollout = false; epollerr = false; epollhup = false }

unfoldable pub init : ℕ → Channel
init fd = record {
  fd = fd;
  events = none_event;
  revents = nothing_ready;
  index = new;
  tied = false;
}

-- The changes of `events_`. `disableReading` clears the bits of `kNoneEvent`, of which there are
-- none.
unfoldable pub enable_reading : Channel → Channel
enable_reading c = record c { events = record { read = true; write = c.events.write } }

unfoldable pub disable_reading : Channel → Channel
disable_reading c = record c {
  events = record {
    read = c.events.read && not none_event.read;
    write = c.events.write && not none_event.write;
  };
}

unfoldable pub enable_writing : Channel → Channel
enable_writing c = record c { events = record { read = c.events.read; write = true } }

unfoldable pub disable_writing : Channel → Channel
disable_writing c = record c { events = record { read = c.events.read; write = false } }

unfoldable pub disable_all : Channel → Channel
disable_all c = record c { events = none_event }

unfoldable pub is_none_event : Channel → Bool
is_none_event c = not c.events.read && not c.events.write

unfoldable pub is_writing : Channel → Bool
is_writing c = c.events.write

unfoldable pub is_reading : Channel → Bool
is_reading c = c.events.read

unfoldable pub tie : Channel → Channel
tie c = record c { tied = true }

-- The callbacks that are set, and those that `handleEvent` calls, in order.
pub data Callback : Type 0 where
  on_close on_error on_read on_write : Callback

pub record Handlers : Type 0 where
  pub has_close : Bool
  pub has_error : Bool
  pub has_read : Bool
  pub has_write : Bool

abbrev when : Bool → Callback → List Callback
when b c = if b then c ∷ [] else []

unfoldable pub handle_event_with_guard : Handlers → Ready → List Callback
handle_event_with_guard h r =
    when (r.epollhup && not r.epollin && h.has_close) on_close
    ++ (when (r.epollerr && h.has_error) on_error
        ++ (when (r.epollin && h.has_read) on_read ++ when (r.epollout && h.has_write) on_write))

-- A tied channel calls back only if its owner is still alive (`tie_.lock()`).
unfoldable pub handle_event : Handlers → Bool → Channel → List Callback
unfolding handle_event_with_guard
handle_event h alive c =
    if c.tied
    then (if alive then handle_event_with_guard h c.revents else [])
    else handle_event_with_guard h c.revents

abbrev pub all_set : Handlers
all_set = record { has_close = true; has_error = true; has_read = true; has_write = true }

abbrev pub same_callback : Callback → Callback → Bool
same_callback on_close on_close = true
same_callback on_error on_error = true
same_callback on_read on_read = true
same_callback on_write on_write = true
same_callback _ _ = false

-- How often a callback is called.
abbrev pub times : Callback → List Callback → ℕ
times c [] = 0
times c (d ∷ ds) = if same_callback d c then suc (times c ds) else times c ds

-- In one round of event handling with all callbacks set, on a channel whose owner lives: the read
-- callback is called once on EPOLLIN and not else, the write callback once on EPOLLOUT and not else,
-- the error callback once on EPOLLERR and not else, the close callback once on EPOLLHUP without
-- EPOLLIN and not else, so the close and the read callback never in one round. If the owner of a
-- tied channel is gone, nothing is called.
pub handle_event_lem :
    (c : Channel) (r : Ready)
    → let calls = handle_event all_set true (record c { revents = r }) in
      (times on_read calls ≡ (if r.epollin then 1 else 0))
      × (times on_write calls ≡ (if r.epollout then 1 else 0))
      × (times on_error calls ≡ (if r.epollerr then 1 else 0))
      × (times on_close calls ≡ (if r.epollhup && not r.epollin then 1 else 0))
      × (times on_close calls + times on_read calls ≤ 1)
      × (c.tied ≡ true → handle_event all_set false (record c { revents = r }) ≡ [])
unfolding handle_event
handle_event_lem c r = ground arith

-- A channel that waits for reading still does after `disableReading`.
pub reading_stays : (c : Channel) → is_reading (disable_reading (enable_reading c)) ≡ true
unfolding disable_reading enable_reading is_reading
reading_stays c = refl
