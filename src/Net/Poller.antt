-- ===== src/Net/Poller.antt =====
-- The epoll poller: src/net/EpollPoller.cc and src/net/Poller.cc. The kernel is the parameter `Epoll`,
-- with the documented behaviour of `epoll_ctl`. `none` is the exit of `LOG_FATAL`.
pub mod Sync
use cluster_chat_server.Prelude.{
  ℕ, ◌*◌, ◌≡◌, List, [], ◌∷◌, ◌++◌, map, Bool, true, false, Option, none, some, if◌then◌else◌, ◌==◌,
  ltb, length, ◌>>=◌,
}
use cluster_chat_server.Buffer.{Io, failed, done}
use cluster_chat_server.Net.Channel
use cluster_chat_server.Net.Channel.{
  Channel, Interest, Ready, Index, new, added, delete, is_none_event,
}

pub data Ctl : Type 0 where
  add mod_ del : Ctl

pub record Epoll : Type 1 where
  pub Kernel : Type 0
  -- `epoll_ctl(epfd, op, fd, &ev)`: whether it succeeded.
  pub epoll_ctl : Ctl → ℕ → Interest → Kernel → Bool × Kernel

-- `channels_`, from descriptors to channels.
abbrev pub ChannelMap : Type 0
ChannelMap = List ℕ

pub record Poller ⦃E : Epoll⦄ : Type 0 where
  pub kernel : E.Kernel
  pub channels : ChannelMap
  -- the size of the vector `events_`
  pub capacity : ℕ

unfoldable pub has_fd : ℕ → ChannelMap → Bool
has_fd fd [] = false
has_fd fd (f ∷ fs) = let rest = has_fd fd fs in if f == fd then true else rest

unfoldable pub erase_fd : ℕ → ChannelMap → ChannelMap
erase_fd fd [] = []
erase_fd fd (f ∷ fs) = let rest = erase_fd fd fs in if f == fd then rest else f ∷ rest

-- `channels_[fd] = channel`
unfoldable pub set_fd : ℕ → ChannelMap → ChannelMap
unfolding has_fd
set_fd fd fs = if has_fd fd fs then fs else fd ∷ fs

module _ ⦃E : Epoll⦄ where
  -- `update(operation, channel)`: a failure of EPOLL_CTL_DEL is logged, any other ends the process.
  unfoldable pub update : Ctl → Channel → Poller → Option Poller
  update op c p =
      let (succeeded, kernel) = E.epoll_ctl op c.fd c.events p.kernel in
      if succeeded
      then some (record p { kernel = kernel })
      else elim op [ del ↦ some (record p { kernel = kernel }) | add ↦ none | mod_ ↦ none ]

  -- `updateChannel`
  unfoldable pub update_channel : Channel → Poller → Option (Channel × Poller)
  update_channel c p = elim c.index [
    | new ↦ do
      p' ← update add (record c { index = added }) (record p { channels = set_fd c.fd p.channels })
      some (record c { index = added }, p')
    | delete ↦ do
      p' ← update add (record c { index = added }) p
      some (record c { index = added }, p')
    | added ↦
        if is_none_event c
        then (do p' ← update del c p; some (record c { index = delete }, p'))
        else (do p' ← update mod_ c p; some (c, p'))
  ]

  -- `removeChannel`
  unfoldable pub remove_channel : Channel → Poller → Option (Channel × Poller)
  remove_channel c p =
      let p1 = record p { channels = erase_fd c.fd p.channels } in
      elim c.index [
        | added ↦ do p' ← update del c p1; some (record c { index = new }, p')
        | new ↦ some (record c { index = new }, p1)
        | delete ↦ some (record c { index = new }, p1)
      ]

  -- `poll`, given what `epoll_wait` returned: the ready channels in the kernel's order; the array
  -- doubles when it was full.
  unfoldable pub poll : Io (List (Channel × Ready)) → Poller → List Channel × Poller
  poll (failed errno) p = ([], p)
  poll (done []) p = ([], p)
  poll (done (r ∷ rs)) p = (
    map (λ e. record (e.0) { revents = e.1 }) (r ∷ rs),
    if length (r ∷ rs) == p.capacity then record p { capacity = p.capacity * 2 } else p,
  )

  -- `Channel::enableReading` and the others: change the events, then `update()`.
  unfoldable pub enable_reading : Channel → Poller → Option (Channel × Poller)
  enable_reading c p = update_channel (Channel.enable_reading c) p

  unfoldable pub disable_reading : Channel → Poller → Option (Channel × Poller)
  disable_reading c p = update_channel (Channel.disable_reading c) p

  unfoldable pub enable_writing : Channel → Poller → Option (Channel × Poller)
  enable_writing c p = update_channel (Channel.enable_writing c) p

  unfoldable pub disable_writing : Channel → Poller → Option (Channel × Poller)
  disable_writing c p = update_channel (Channel.disable_writing c) p

  unfoldable pub disable_all : Channel → Poller → Option (Channel × Poller)
  disable_all c p = update_channel (Channel.disable_all c) p

-- The calls that a channel's owner makes.
pub data Call : Type 0 where
  calls_enable_reading calls_disable_reading calls_enable_writing : Call
  calls_disable_writing calls_disable_all calls_remove : Call

module _ ⦃E : Epoll⦄ where
  unfoldable pub perform : Call → Channel → Poller → Option (Channel × Poller)
  unfolding enable_reading disable_reading enable_writing disable_writing disable_all
  perform calls_enable_reading c p = enable_reading c p
  perform calls_disable_reading c p = disable_reading c p
  perform calls_enable_writing c p = enable_writing c p
  perform calls_disable_writing c p = disable_writing c p
  perform calls_disable_all c p = disable_all c p
  perform calls_remove c p = remove_channel c p
