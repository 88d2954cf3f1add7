-- ===== src/Net/Connection.antt =====
-- One TCP connection: include/net/TcpConnection.h and src/net/TcpConnection.cc. `wire` is all that
-- `write` handed to the kernel; `queued` are the functors put into the loop's queue, `called` the
-- callbacks made, oldest first. What the kernel answers to a call is an argument. The methods are
-- those that run in the loop's own thread; calls from other threads are in Remote.
pub mod Drain
pub mod Fifo
pub mod Life
pub mod Order
pub mod Run
pub mod Remote
mod Tests
use cluster_chat_server.Prelude.{
  ℕ, ◌+◌, ◌-◌, ◌*◌, List, [], ◌∷◌, ◌++◌, Bool, true, false, not, ◌&&◌, ◌||◌, if◌then◌else◌, ◌==◌,
  ltb, leb, length, take, drop, size_sub, size_add,
}
use cluster_chat_server.Prelude.Text.{Bytes}
use cluster_chat_server.Buffer
use cluster_chat_server.Buffer.{Buffer, Io, failed, done, initial_size}
use cluster_chat_server.Net.Channel
use cluster_chat_server.Net.Channel.{Channel}

-- `StateE`
pub data State : Type 0 where
  disconnected connecting connected disconnecting : State

pub data Callback : Type 0 where
  -- the user's `connectionCallback_`, with what `connected()` says then
  on_connection : Bool → Callback
  on_message on_close : Callback

pub data Functor : Type 0 where
  write_complete : Functor
  high_water_mark : ℕ → Functor

pub record Connection : Type 0 where
  pub state : State
  pub channel : Channel
  pub input : Buffer
  pub output : Buffer
  pub high_water : ℕ
  -- whether `writeCompleteCallback_` and `highWaterMarkCallback_` are set
  pub has_write_complete : Bool
  pub has_high_water : Bool
  pub wire : Bytes
  -- whether `socket_->shutDownWrite()` was called
  pub half_closed : Bool
  pub queued : List Functor
  pub called : List Callback
  -- whether `channel_->remove()` was called; what the poller does then is in Net.Poller
  pub removed : Bool

abbrev pub ewouldblock : ℕ
ewouldblock = 11

abbrev pub epipe : ℕ
epipe = 32

abbrev pub econnreset : ℕ
econnreset = 104

abbrev pub is_state : State → State → Bool
is_state disconnected disconnected = true
is_state connecting connecting = true
is_state connected connected = true
is_state disconnecting disconnecting = true
is_state _ _ = false

-- The constructor, for the socket `fd`.
unfoldable pub init : ℕ → Connection
init fd = record {
  state = connecting;
  channel = Channel.init fd;
  input = Buffer.init initial_size;
  output = Buffer.init initial_size;
  high_water = 64 * 1024 * 1024;
  has_write_complete = false;
  has_high_water = false;
  wire = [];
  half_closed = false;
  queued = [];
  called = [];
  removed = false;
}

unfoldable pub queue_functor : Bool → Functor → Connection → Connection
queue_functor wanted f c = if wanted then record c { queued = c.queued ++ f ∷ [] } else c

unfoldable pub call : Callback → Connection → Connection
call f c = record c { called = c.called ++ f ∷ [] }

-- The pending bytes reach the high-water mark with the next `remaining` ones.
unfoldable pub notify_high_water : ℕ → Connection → Connection
notify_high_water remaining c =
    let old_len = Buffer.readable_bytes c.output in
    queue_functor
      (leb c.high_water (size_add old_len remaining)
        && ltb old_len c.high_water
        && c.has_high_water)
      (high_water_mark (size_add old_len remaining)) c

-- Append to the output buffer, and wait for the socket to take more.
unfoldable pub store_rest : Bytes → Connection → Connection
store_rest rest c =
    let channel =
      if Channel.is_writing c.channel then c.channel else Channel.enable_writing c.channel in
    record c { output = Buffer.append c.output rest; channel = channel }

-- Keep what was not written.
unfoldable pub keep_rest : Bytes → Connection → Connection
keep_rest rest c = store_rest rest (notify_high_water (length rest) c)

-- `remaining > 0`
unfoldable pub keep_if_any : Bytes → Connection → Connection
keep_if_any rest c = if length rest == 0 then c else keep_rest rest c

-- The direct `write`, tried when nothing is pending.
unfoldable pub write_direct : Bytes → Io ℕ → Connection → Connection
write_direct message (done n) c =
    let c1 = record c { wire = c.wire ++ take n message } in
    let rest = drop n message in
    if length rest == 0
    then queue_functor c.has_write_complete write_complete c1
    else keep_rest rest c1
write_direct message (failed errno) c =
    if not (errno == ewouldblock) && (errno == epipe || errno == econnreset)
    then c
    else keep_if_any message c

-- `sendInLoop(message, message.size())`, given what `write` answers.
unfoldable pub send_in_loop : Bytes → Io ℕ → Connection → Connection
send_in_loop message reply c =
    if is_state c.state disconnected
    then c
    else if not (Channel.is_writing c.channel) && Buffer.readable_bytes c.output == 0
    then write_direct message reply c
    else keep_if_any message c

-- `send` in the loop's thread.
unfoldable pub send : Bytes → Io ℕ → Connection → Connection
send message reply c = if is_state c.state connected then send_in_loop message reply c else c

unfoldable pub shutdown_in_loop : Connection → Connection
shutdown_in_loop c = if Channel.is_writing c.channel then c else record c { half_closed = true }

unfoldable pub shutdown : Connection → Connection
shutdown c =
    if is_state c.state connected then shutdown_in_loop (record c { state = disconnecting }) else c

-- All is written: stop waiting, tell the user, and finish a shutdown that waited for this.
unfoldable pub drained : Connection → Connection
drained c =
    let c1 =
      queue_functor c.has_write_complete write_complete
        (record c { channel = Channel.disable_writing c.channel }) in
    if is_state c.state disconnecting then shutdown_in_loop c1 else c1

-- `handlerWrite`, given how many of the pending bytes `write` took.
unfoldable pub handler_write : Io ℕ → Connection → Connection
handler_write (failed errno) c = c
handler_write (done n) c =
    if Channel.is_writing c.channel && ltb 0 n
    then (let c1 = record c {
      wire = c.wire ++ take n (Buffer.peek c.output (Buffer.readable_bytes c.output));
      output = Buffer.retrieve c.output n;
    } in
        if Buffer.readable_bytes c1.output == 0 then drained c1 else c1)
    else c

-- `handlerClose`
unfoldable pub handler_close : Connection → Connection
handler_close c = call on_close (
    call (on_connection false)
      (record c { state = disconnected; channel = Channel.disable_all c.channel }))

-- `handleRead`, given what `readv` answered.
unfoldable pub handle_read : Io Bytes → Connection → Connection
handle_read (failed errno) c = c
handle_read (done []) c = handler_close c
handle_read (done (x ∷ xs)) c =
    call on_message (record c { input = (Buffer.read_fd c.input (done (x ∷ xs))).1 })

unfoldable pub connection_established : Connection → Connection
connection_established c =
    call (on_connection true)
      (record c { state = connected; channel = Channel.enable_reading (Channel.tie c.channel) })

-- `connectionDestroyed`.
unfoldable pub connection_destroyed : Connection → Connection
connection_destroyed c =
    let told =
      if is_state c.state connected
      then call (on_connection false)
          (record c { state = disconnected; channel = Channel.disable_all c.channel })
      else c in
    record told { removed = true }
