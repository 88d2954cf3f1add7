-- ===== src/System.antt =====
-- The server put together: src/server/chatServer.cc between src/net/TcpConnection.cc and
-- src/server/chatService.cc, on the loops of src/net/TcpServer.cc. What the loops report of a
-- connection goes through the connection to the service, and what the service sends goes back
-- through the connections: at once to those of the loop whose thread runs the handler, through the
-- functors of their loops to the others. A text that a handler gives to `send` reaches its
-- connection behind the handler, which no other handler interrupts here; handlers do not read the
-- connections.
pub mod Stream
pub mod Requests
pub mod Wire
pub mod Order
pub mod Ended
pub mod Answers
pub mod Start
mod Tests
use cluster_chat_server.Prelude.{
  ℕ, suc, ◌+◌, ◌==◌, List, [], ◌∷◌, ◌++◌, Bool, true, false, Option, some, if◌then◌else◌, ℤ, length,
  ◌>>=◌, map,
}
use cluster_chat_server.Prelude.Text.{Bytes}
use cluster_chat_server.Buffer.{Io, failed, done}
use cluster_chat_server.Json.{JsonLib}
use cluster_chat_server.Sql.{MySql}
use cluster_chat_server.Net.Connection
use cluster_chat_server.Net.Connection.{
  Connection, connecting, is_state, handle_read, handler_write, handler_close,
  connection_established,
}
use cluster_chat_server.Net.Connection.Remote.{Shared, send_from_other, run_first}
use cluster_chat_server.Service.State.{Service, Conn}
use cluster_chat_server.Service.Chat.{handle_redis_subscribe_message}
use cluster_chat_server.Service.Dispatch.{on_message, on_connection}

-- What the kernel answers to the `write` of a text: how many entries the log had before it, and the
-- text.
abbrev pub Kernel : Type 0
Kernel = ℕ → Bytes → Io ℕ

pub data Entry : Type 0 where
  -- `send` to a connection, in the thread of its loop or in another one
  gave : Conn → Bool → Bytes → Entry
  -- the loop of a connection came to the first functor that waits for it
  ran : Conn → Entry

-- `log` is all that happened to the texts that the service sent, oldest first; `sent` of the service
-- are those that `send` was not yet called for.
pub record System ⦃S : MySql⦄ : Type 0 where
  pub links : Conn → Shared
  pub service : Service
  pub log : List Entry

unfoldable pub set_link : Conn → Shared → (Conn → Shared) → Conn → Shared
set_link conn c links other = if other == conn then c else links other

unfoldable pub set_conn : Conn → Connection → (Conn → Shared) → Conn → Shared
unfolding set_link
set_conn conn c links = set_link conn (record (links conn) { conn = c }) links

-- `send`, with what `isInLoopThread()` says.
unfoldable pub send_text : Bool → Bytes → Io ℕ → Shared → Shared
send_text here text reply c =
    if here then record c { conn = Connection.send text reply c.conn } else send_from_other text c

-- `conn->send(text)` of each text in turn, in a thread that is that of the loops of some connections.
unfoldable pub send_texts :
    Kernel → (Conn → Bool) → ℕ → List (Conn × Bytes) → (Conn → Shared) → Conn → Shared
unfolding set_link send_text
send_texts kernel here k [] links = links
send_texts kernel here k ((conn, text) ∷ rest) links =
    send_texts kernel here (suc k) rest
      (set_link conn (send_text (here conn) text (kernel k text) (links conn)) links)

abbrev pub entries : (Conn → Bool) → List (Conn × Bytes) → List Entry
entries here [] = []
entries here ((conn, text) ∷ rest) = gave conn (here conn) text ∷ entries here rest

-- What the loops report: a new connection, what `readv` and `write` answered, a functor of `send` that
-- is run; and the observer of Redis, a thread of its own: a message.
pub data Event : Type 0 where
  opened : Conn → Event
  readable : Conn → Io Bytes → Event
  writable : Conn → Io ℕ → Event
  -- EPOLLHUP without EPOLLIN: the close callback of the channel
  hung_up : Conn → Event
  runs_functor : Conn → Event
  from_redis : ℤ → Bytes → Event

-- Whether the thread in which an event is handled is that of the loop of a connection; `loop_of` gives
-- the loop of each connection.
unfoldable pub in_loop_thread : (Conn → ℕ) → Event → Conn → Bool
in_loop_thread loop_of (opened conn) other = loop_of conn == loop_of other
in_loop_thread loop_of (readable conn reply) other = loop_of conn == loop_of other
in_loop_thread loop_of (writable conn reply) other = loop_of conn == loop_of other
in_loop_thread loop_of (hung_up conn) other = loop_of conn == loop_of other
in_loop_thread loop_of (runs_functor conn) other = loop_of conn == loop_of other
in_loop_thread loop_of (from_redis id text) other = false

module _ ⦃S : MySql⦄ where
  unfoldable pub settle : Kernel → (Conn → Bool) → System → System
  unfolding send_texts
  settle kernel here s = record {
    links = send_texts kernel here (length s.log) s.service.sent s.links;
    service = record s.service { sent = [] };
    log = s.log ++ entries here s.service.sent;
  }

  -- `doPendingFunctors`, as far as the first functor for one connection.
  unfoldable pub run_functor : Kernel → Conn → System → System
  unfolding set_link
  run_functor kernel conn s =
      let c = s.links conn in
      record s {
        links = set_link conn (run_first (kernel (length s.log)) c.tasks c.conn) s.links;
        log = s.log ++ ran conn ∷ [];
      }

module _ ⦃J : JsonLib⦄ ⦃S : MySql⦄ where
  -- `handleRead` with the callbacks that it makes.
  unfoldable pub read_event : Conn → Io Bytes → System → Option System
  unfolding set_conn
  read_event conn (failed errno) s =
      some (record s {
        links = set_conn conn (handle_read (failed errno) (s.links conn).conn) s.links;
      })
  read_event conn (done []) s = some (record {
    links = set_conn conn (handle_read (done []) (s.links conn).conn) s.links;
    service = on_connection false conn s.service;
    log = s.log;
  })
  read_event conn (done (x ∷ xs)) s = do
    let c = handle_read (done (x ∷ xs)) (s.links conn).conn
    (rest, t) ← on_message conn c.input s.service
    some (record {
      links = set_conn conn (record c { input = rest }) s.links;
      service = t;
      log = s.log;
    })

  -- `connectEstablished` runs once, for a connection that is new.
  unfoldable pub open_link : Conn → System → System
  unfolding set_conn
  open_link conn s =
      if is_state (s.links conn).conn.state connecting
      then record s {
        links = set_conn conn (connection_established (s.links conn).conn) s.links;
        service = on_connection true conn s.service;
      }
      else s

  unfoldable pub act : Kernel → Event → System → Option System
  unfolding set_conn run_functor
  act kernel (opened conn) s = some (open_link conn s)
  act kernel (readable conn reply) s = read_event conn reply s
  act kernel (writable conn reply) s =
      some (record s { links = set_conn conn (handler_write reply (s.links conn).conn) s.links })
  act kernel (hung_up conn) s = some (record {
    links = set_conn conn (handler_close (s.links conn).conn) s.links;
    service = on_connection false conn s.service;
    log = s.log;
  })
  act kernel (runs_functor conn) s = some (run_functor kernel conn s)
  act kernel (from_redis id text) s =
      some (record s { service = handle_redis_subscribe_message id text s.service })

  unfoldable pub step : Kernel → (Conn → ℕ) → Event → System → Option System
  step kernel loop_of e s = do t ← act kernel e s; some (settle kernel (in_loop_thread loop_of e) t)

  -- `none`: a handler threw, which ends the process.
  unfoldable pub run : Kernel → (Conn → ℕ) → List Event → System → Option System
  run kernel loop_of [] s = some s
  run kernel loop_of (e ∷ es) s = step kernel loop_of e s >>= run kernel loop_of es
