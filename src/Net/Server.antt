-- ===== src/Net/Server.antt =====
-- A server and its connections: include/net/TcpServer.h, src/net/TcpServer.cc, and what its parts
-- src/net/Acceptor.cc and src/net/InetAddress.cc do for it. What `accept4` and `inet_ntop` give is an
-- argument. What is handed to a loop with `runInLoop` or `queueInLoop` is recorded with the loop.
pub mod Names
pub mod Live
pub mod Sound
pub mod Turns
mod Tests
use cluster_chat_server.Prelude.{
  ℕ, zero, suc, ◌+◌, List, [], ◌∷◌, ◌++◌, map, Bool, true, false, Option, none, some, if◌then◌else◌,
  ◌==◌, ℤ, pos, negsuc, take,
}
use cluster_chat_server.Prelude.Text.{Bytes, show, bytes_eq}
use cluster_chat_server.Net.Pool
use cluster_chat_server.Net.Pool.{Pool}

-- `InetAddress::toIpPort`, given the text that `inet_ntop` writes.
unfoldable pub to_ip_port : Bytes → ℕ → Bytes
to_ip_port ip port = ip ++ b':' ∷ show (pos port)

-- What a server knows of a `TcpConnection`.
pub record TcpConn : Type 0 where
  pub name : Bytes
  pub sockfd : ℕ
  pub loop : ℕ

pub data Task : Type 0 where
  listen : Task
  established destroyed : TcpConn → Task

-- `connections_`
abbrev pub ConnectionMap : Type 0
ConnectionMap = List (Bytes × TcpConn)

unfoldable pub lookup : Bytes → ConnectionMap → Option TcpConn
lookup key [] = none
lookup key ((k, c) ∷ m) = let rest = lookup key m in if bytes_eq k key then some c else rest

-- `connections_[name] = conn`
unfoldable pub assign : Bytes → TcpConn → ConnectionMap → ConnectionMap
assign key conn [] = (key, conn) ∷ []
assign key conn ((k, c) ∷ m) =
    let rest = assign key conn m in if bytes_eq k key then (k, conn) ∷ m else (k, c) ∷ rest

unfoldable pub erase : Bytes → ConnectionMap → ConnectionMap
erase key [] = []
erase key ((k, c) ∷ m) = let rest = erase key m in if bytes_eq k key then m else (k, c) ∷ rest

pub record TcpServer : Type 0 where
  pub ip_port : Bytes
  pub name : Bytes
  pub pool : Pool
  pub started : ℕ
  pub next_conn_id : ℕ
  pub connections : ConnectionMap
  -- The loops that were asked, and for what, oldest first.
  pub asked : List (ℕ × Task)

unfoldable pub init : ℕ → Bytes → Bytes → TcpServer
init loop ip_port name = record {
  ip_port = ip_port;
  name = name;
  pool = Pool.init loop;
  started = 0;
  next_conn_id = 1;
  connections = [];
  asked = [];
}

-- `start`, given the loops of the threads that the pool starts.
unfoldable pub start : List ℕ → TcpServer → TcpServer
start loops s =
    let first = record s {
      pool = Pool.start loops s.pool;
      started = suc s.started;
      asked = s.asked ++ (s.pool.base_loop, listen) ∷ [];
    } in
    if s.started == 0 then first else record s { started = suc s.started }

-- The name of a connection: what fits into `buf[64]` behind the server's own name.
unfoldable pub connection_name : Bytes → Bytes → ℕ → Bytes
connection_name name ip_port id = name ++ take 63 (b'-' ∷ (ip_port ++ b'#' ∷ show (pos id)))

-- `newConnection`.
unfoldable pub new_connection : ℕ → TcpServer → TcpServer
new_connection sockfd s =
    let (io_loop, pool) = Pool.get_next_loop s.pool in
    let name = connection_name s.name s.ip_port s.next_conn_id in
    let conn : TcpConn = record { name = name; sockfd = sockfd; loop = io_loop } in
    record s {
      pool = pool;
      next_conn_id = suc s.next_conn_id;
      connections = assign name conn s.connections;
      asked = s.asked ++ (io_loop, established conn) ∷ [];
    }

-- `Acceptor::handRead`, given the result of `accept4`, where the server has set its callback.
unfoldable pub hand_read : ℤ → TcpServer → TcpServer
unfolding new_connection
hand_read (pos zero) s = s
hand_read (pos (suc n)) s = new_connection (suc n) s
hand_read (negsuc n) s = s

-- `removeConnection`, which the main loop runs as `removeConnectionInLoop`.
unfoldable pub remove_connection : TcpConn → TcpServer → TcpServer
remove_connection conn s = record s {
  connections = erase conn.name s.connections;
  asked = s.asked ++ (conn.loop, destroyed conn) ∷ [];
}

-- The loop of the destructor; the order of the map, which the source leaves open, is that of
-- assignment.
unfoldable pub destroy_all : ConnectionMap → List (ℕ × Task)
destroy_all [] = []
destroy_all ((k, c) ∷ m) = (c.loop, destroyed c) ∷ destroy_all m

-- `~TcpServer`.
unfoldable pub destruct : TcpServer → TcpServer
unfolding destroy_all
destruct s = record s { connections = []; asked = s.asked ++ destroy_all s.connections }

pub data Event : Type 0 where
  starts : List ℕ → Event
  -- the listening socket is readable, and `accept4` gave this
  readable : ℤ → Event
  -- a connection has called its close callback
  closes : TcpConn → Event

unfoldable pub step : Event → TcpServer → TcpServer
unfolding start hand_read remove_connection
step (starts loops) s = start loops s
step (readable connfd) s = hand_read connfd s
step (closes conn) s = remove_connection conn s

unfoldable pub run : List Event → TcpServer → TcpServer
unfolding step
run [] s = s
run (e ∷ es) s = run es (step e s)
