-- ===== src/Net/Connection/Run.antt =====
-- The methods of src/net/TcpConnection.cc that the loop and the user call on an established
-- connection, in any order.
use cluster_chat_server.Prelude.{ℕ, List, [], ◌∷◌}
use cluster_chat_server.Prelude.Text.{Bytes}
use cluster_chat_server.Buffer.{Io, failed, done}
use cluster_chat_server.Net.Connection.{Connection, send, handler_write, handle_read, shutdown}

-- What the loop does with a connection that the peer has not closed. A read brings at least one
-- byte.
pub data Op : Type 0 where
  sends : Bytes → Io ℕ → Op
  writes : Io ℕ → Op
  reads : ℕ → Bytes → Op
  read_fails : ℕ → Op
  shuts_down : Op

unfoldable pub perform : Op → Connection → Connection
perform (sends message reply) c = send message reply c
perform (writes reply) c = handler_write reply c
perform (reads x xs) c = handle_read (done (x ∷ xs)) c
perform (read_fails errno) c = handle_read (failed errno) c
perform shuts_down c = shutdown c

unfoldable pub perform_all : List Op → Connection → Connection
perform_all [] c = c
perform_all (op ∷ ops) c = perform_all ops (perform op c)
