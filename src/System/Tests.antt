-- ===== src/System/Tests.antt =====
-- The server put together, run on the concrete libraries of `Service.Toy` and `Service.ToyDb`.
use cluster_chat_server.Prelude.{
  ℕ, ◌≡◌, refl, ◌≤◌, List, [], ◌∷◌, ◌++◌, map, some, arith, pos, negsuc, length, false, ◌+◌, ◌%◌,
  sym, subst,
}
use cluster_chat_server.Prelude.Text.{Bytes, codes, c_str, atoi}
use cluster_chat_server.Buffer.{done, initial_size}
use cluster_chat_server.Buffer.Inv.{contents}
use cluster_chat_server.Buffer.Queue.{init-IsValid, init_size}
use cluster_chat_server.Model.Types.{User}
use cluster_chat_server.Net.Connection.{connected, init, connection_established, call}
use cluster_chat_server.Net.Connection.Fifo.{Usable}
use cluster_chat_server.Service.State.{Service, Conn, find, send, erase, key_of, call_redis}
use cluster_chat_server.Service.Session.{
  client_close_exception, set_offline, erase_found, id_or_unset,
}
use cluster_chat_server.Service.Chat.{deliver}
use cluster_chat_server.Service.Toy.{toy_json, toy_json-JsonLaws}
use cluster_chat_server.Service.ToyDb.{toy_sql}
use cluster_chat_server.Client.{wire, chat_request}
use cluster_chat_server.Client.Requests.{Request, chats, json_of}
use cluster_chat_server.System.{System, Kernel, Entry, in_loop_thread, run}
use cluster_chat_server.Net.Server
use cluster_chat_server.Net.Server.{
  to_ip_port, TcpServer, TcpConn, Event, readable, hand_read, established,
}
use cluster_chat_server.System.Start.{
  Machine, Succeeded, running, main, main_runs, make_server, start_server, to_port, thread_loops,
}
use cluster_chat_server.System.Stream.{nothing, promise, Fits}
use cluster_chat_server.System.Ended.{NeverEnds, stays_up}
use cluster_chat_server.System.Order.{to, From, texts_of, all_in_order}
use cluster_chat_server.System.Wire.{fresh, Kept, on_wire}
use cluster_chat_server.System.Requests.{
  Arrival, asks, hangs_up, lets_run, event_of, total, AllProper, AllReady, serve, served_all,
}
use cluster_chat_server.System.Answers.{answered}

abbrev li : User
li = record { id = pos 1; name = codes "li"; password = codes "pw"; state = codes "online" }

abbrev wu : User
wu = record { id = pos 2; name = codes "wu"; password = []; state = codes "offline" }

abbrev hello : Request
hello = chats li (pos 2) (codes "hi") (codes "12:00")

abbrev to_self : Request
to_self = chats wu (pos 2) (codes "me") (codes "12:01")

abbrev self_wire : Bytes
self_wire = wire ⦃J = toy_json⦄ (json_of ⦃J = toy_json⦄ to_self)

abbrev hello_wire : Bytes
hello_wire = wire ⦃J = toy_json⦄ (json_of ⦃J = toy_json⦄ hello)

-- The kernel takes everything.
abbrev takes : Kernel
takes k m = done (length m)

takes-Usable : (k : ℕ) (m : Bytes) → Usable (length m) (takes k m)
takes-Usable k m = omega arith

-- User 2 is connected over 8, and user 1 over 7.
abbrev service : Service ⦃S = toy_sql⦄
service = record {
  conn_map = (pos 1, 7) ∷ (pos 2, 8) ∷ [];
  db = record { users = []; mail = []; result = [] };
  redis = [];
  sent = [];
}

abbrev server : System ⦃S = toy_sql⦄
server = record { links = fresh; service = service; log = [] }

-- The two connections are in different loops.
abbrev loop_of : Conn → ℕ
loop_of conn = conn % 2

-- A chat message from the other loop and one from the own loop, before the loop runs the functor of
-- the first; and the first sender leaves.
abbrev arrivals : List Arrival
arrivals = asks 7 hello ∷ asks 8 to_self ∷ lets_run 8 ∷ hangs_up 7 ∷ []

abbrev final : Service ⦃S = toy_sql⦄ × List Entry
final = serve ⦃J = toy_json⦄ ⦃S = toy_sql⦄ loop_of arrivals service []

final-Fits : Fits (promise 8 final.1 nothing)
unfolding find send erase key_of call_redis client_close_exception set_offline erase_found
    id_or_unset deliver chat_request c_str in_loop_thread
final-Fits = omega arith

hello_wire-short : length hello_wire ≤ 400
unfolding wire chat_request c_str
hello_wire-short = omega arith

self_wire-short : length self_wire ≤ 400
unfolding wire chat_request c_str
self_wire-short = omega arith

-- Fresh connections are ready for a little.
fresh-Ready : (n : ℕ) → n ≤ 1000 → AllReady n server.links
unfolding connection_established init call
fresh-Ready n h conn =
    let b = init-IsValid initial_size (omega arith) in
    record { valid = b.0; empty = b.1; small = omega (arith, h, init_size initial_size) }

arrivals-AllProper : AllProper ⦃J = toy_json⦄ arrivals
arrivals-AllProper = (
  ((omega arith, omega arith), omega (arith, hello_wire-short)),
  (((omega arith, omega arith), omega (arith, self_wire-short)), (tt, (tt, tt))),
)

arrivals-AllReady : AllReady (total ⦃J = toy_json⦄ arrivals) server.links
arrivals-AllReady =
    fresh-Ready (total ⦃J = toy_json⦄ arrivals) (omega (arith, hello_wire-short, self_wire-short))

answered_example :
    (t : System ⦃S = toy_sql⦄) × (run ⦃J = toy_json⦄ ⦃S = toy_sql⦄ takes loop_of
        (map (event_of ⦃J = toy_json⦄) arrivals)
        server
      ≡ some t)
    × (t.service ≡ final.0)
    × Kept (promise 8 final.1 nothing) (t.links 8)
answered_example =
    answered ⦃J = toy_json⦄ toy_json-JsonLaws ⦃S = toy_sql⦄ takes takes-Usable loop_of 8 arrivals
      server 8 refl refl arrivals-AllProper arrivals-AllReady final-Fits

finished :
    (t : System ⦃S = toy_sql⦄) × (run ⦃J = toy_json⦄ ⦃S = toy_sql⦄ takes loop_of
        (map (event_of ⦃J = toy_json⦄) arrivals)
        server
      ≡ some t)
    × ((t.service, t.log) ≡ final)
finished =
    served_all ⦃J = toy_json⦄ toy_json-JsonLaws ⦃S = toy_sql⦄ takes loop_of arrivals server
      arrivals-AllProper arrivals-AllReady

log-Fits : Fits (promise 8 finished.0.log nothing)
log-Fits = subst (λ p. Fits (promise 8 p.1 nothing)) (sym finished.2) final-Fits

on_wire_example : Kept (promise 8 finished.0.log nothing) (finished.0.links 8)
on_wire_example =
    on_wire ⦃J = toy_json⦄ ⦃S = toy_sql⦄ takes takes-Usable loop_of 8
      (map (event_of ⦃J = toy_json⦄) arrivals) server finished.0 8 refl refl finished.1 log-Fits

-- The message alone, which still waits.
abbrev message : List Arrival
message = asks 7 hello ∷ []

abbrev sent_one : Service ⦃S = toy_sql⦄ × List Entry
sent_one = serve ⦃J = toy_json⦄ ⦃S = toy_sql⦄ loop_of message service []

sent_one-Fits : Fits (promise 8 sent_one.1 nothing)
unfolding find send deliver chat_request c_str in_loop_thread
sent_one-Fits = omega arith

sent_one-From : From false 8 sent_one.1
unfolding find send deliver chat_request c_str in_loop_thread
sent_one-From = ((λ p. refl), tt)

delivered :
    (t : System ⦃S = toy_sql⦄) × (run ⦃J = toy_json⦄ ⦃S = toy_sql⦄ takes loop_of
        (map (event_of ⦃J = toy_json⦄) message)
        server
      ≡ some t)
    × ((t.service, t.log) ≡ sent_one)
delivered =
    served_all ⦃J = toy_json⦄ toy_json-JsonLaws ⦃S = toy_sql⦄ takes loop_of message server
      (((omega arith, omega arith), omega (arith, hello_wire-short)), tt)
      (fresh-Ready (total ⦃J = toy_json⦄ message) (omega (arith, hello_wire-short)))

message-NeverEnds : NeverEnds 8 (map (event_of ⦃J = toy_json⦄) message)
unfolding wire chat_request c_str
message-NeverEnds = tt

all_in_order_example :
    let c = delivered.0.links 8 in
    (c.conn.state ≡ connected)
    × ((c.conn.wire ++ contents c.conn.output) ++ texts_of c.tasks ≡ to 8 delivered.0.log)
all_in_order_example =
    all_in_order ⦃J = toy_json⦄ ⦃S = toy_sql⦄ takes takes-Usable loop_of 8
      (map (event_of ⦃J = toy_json⦄) message) server delivered.0 8 false refl refl delivered.1
      (subst (λ p. Fits (promise 8 p.1 nothing)) (sym delivered.2) sent_one-Fits)
      (subst (λ p. From false 8 p.1) (sym delivered.2) sent_one-From) message-NeverEnds

-- The end of the other connection is not that of this one.
arrivals-NeverEnds : NeverEnds 8 (map (event_of ⦃J = toy_json⦄) arrivals)
unfolding wire chat_request c_str
arrivals-NeverEnds = ((λ p. omega (arith, p)), tt)

server-up : (server.links 8).conn.state ≡ connected
unfolding connection_established call
server-up = refl

stays_up_example : (finished.0.links 8).conn.state ≡ connected
stays_up_example =
    stays_up ⦃J = toy_json⦄ ⦃S = toy_sql⦄ 8 takes loop_of (map (event_of ⦃J = toy_json⦄) arrivals)
      server finished.0 arrivals-NeverEnds server-up finished.1

abbrev machine : Machine
machine = record {
  poll_wanted = false;
  epoll = pos 3;
  eventfd = pos 4;
  wakeup_ctl = pos 0;
  socket = pos 5;
  bind = pos 0;
  listen = pos 0;
  listen_ctl = pos 0;
  thread_loop = λ i. 10 + i;
}

abbrev started : TcpServer
started = Server.start (10 ∷ 11 ∷ 12 ∷ 13 ∷ []) (
    Server.init 0 (to_ip_port (codes "127.0.0.1") (to_port (atoi (codes "6000"))))
      (codes "ChatServer"))

started-running : main 3 (codes "127.0.0.1") (codes "6000") machine ≡ running started
unfolding main make_server start_server thread_loops
started-running = refl

-- One connection is accepted, then `accept4` fails.
abbrev accepts : List Event
accepts = readable (pos 6) ∷ readable (negsuc 3) ∷ []

main_runs_example :
    let t = Server.run accepts started in
    (◌≡◌ {A = ℕ} 3 3)
    × Succeeded machine
    × (started.ip_port ≡ to_ip_port (codes "127.0.0.1") (to_port (atoi (codes "6000"))))
    × (conn : TcpConn) × (conn.loop ≡ 11)
    × (conn.sockfd ≡ 7)
    × ((hand_read (pos 7) t).asked ≡ t.asked ++ (11, established conn) ∷ [])
main_runs_example =
    main_runs 3 (codes "127.0.0.1") (codes "6000") machine started accepts 0 1 6 started-running
      refl (omega arith)
