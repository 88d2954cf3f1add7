-- ===== src/System/Start.antt =====
-- The start of the server: src/server/main.cc, the constructors of src/server/chatServer.cc,
-- src/net/EventLoop.cc, src/net/Acceptor.cc and src/net/InetAddress.cc, and `bindAddress` and
-- `listen` of src/net/Socket.cc. What the system calls answer, the loops of the threads and the
-- text of the address are arguments.
use cluster_chat_server.Prelude.{
  ℕ, zero, suc, ◌+◌, ◌-◌, ◌*◌, ◌^◌, ◌%◌, ◌<◌, ◌≡◌, ◌≢◌, ◌&&◌, ◌++◌, refl, sym, ap, ◌∙◌, List, [],
  ◌∷◌, Bool, true, false, not, if◌then◌else◌, ◌==◌, arith, ℤ, pos, negsuc, ◌==ℤ◌, some, length,
  get_elem?, ==ℤ_iff,
}
use mathlib.Core.Bool.{true≢false}
use cluster_chat_server.Prelude.Text.{Bytes, codes, atoi}
use cluster_chat_server.Net.Pool
use cluster_chat_server.Net.Pool.{Pool, get_next_loop, after, round_robin}
use cluster_chat_server.Net.Server
use cluster_chat_server.Net.Server.{TcpServer, TcpConn, Event, to_ip_port, hand_read, established}
use cluster_chat_server.Net.Server.Turns.{accepted, next_asked}

-- What the system answers while the server starts: `wakeup_ctl` and `listen_ctl` are the calls of
-- `epoll_ctl` that add the wake-up channel of the main loop and the listening socket. `thread_loop i`
-- is the loop that `startLoop` of thread number i gives: that the constructors of these loops, each
-- with calls of its own, do not end the process is assumed.
pub record Machine : Type 0 where
  pub poll_wanted : Bool
  pub epoll : ℤ
  pub eventfd : ℤ
  pub wakeup_ctl : ℤ
  pub socket : ℤ
  pub bind : ℤ
  pub listen : ℤ
  pub listen_ctl : ℤ
  pub thread_loop : ℕ → ℕ

-- The process returns from `main`, ends by `LOG_FATAL`, calls a method of a null pointer, or runs the
-- loop of the main thread.
pub data Started : Type 0 where
  returned : ℕ → Started
  fatal crashed : Started
  running : TcpServer → Started

abbrev pub is_negative : ℤ → Bool
is_negative (pos n) = false
is_negative (negsuc n) = true

-- A `uint16_t` from an `int`.
unfoldable pub to_port : ℤ → ℕ
to_port (pos n) = n % 2 ^ 16
to_port (negsuc n) = 2 ^ 16 - 1 - n % 2 ^ 16

-- The loops of so many threads, in the order of their start.
unfoldable pub thread_loops : ℕ → ℕ → (ℕ → ℕ) → List ℕ
thread_loops zero i loop_of = []
thread_loops (suc n) i loop_of = loop_of i ∷ thread_loops n (suc i) loop_of

-- `ChatServer::ChatServer`: the number of threads.
abbrev pub thread_num : ℕ
thread_num = 4

-- `ChatServer::start`, with `Acceptor::listen`, which the main loop's own thread runs at once.
unfoldable pub start_server : Machine → TcpServer → Started
unfolding thread_loops
start_server m s =
    let s' = Server.start (thread_loops thread_num 0 m.thread_loop) s in
    if not (m.listen ==ℤ pos 0)
    then fatal
    else if is_negative m.listen_ctl
    then fatal
    else running s'

-- `TcpServer` with its `Acceptor`, for the address as text.
unfoldable pub make_server : Machine → Bytes → ℕ → Started
unfolding start_server
make_server m ip port =
    if is_negative m.socket
    then fatal
    else if not (m.bind ==ℤ pos 0)
    then fatal
    else start_server m (Server.init 0 (to_ip_port ip port) (codes "ChatServer"))

-- `main`, with the constructor of its loop: the poller comes first; one that is not there, from an
-- environment that asks for poll, is called by `enableReading`.
unfoldable pub main : ℕ → Bytes → Bytes → Machine → Started
unfolding make_server to_port
main argc ip port m =
    if not (argc == 3)
    then returned 0
    else if not m.poll_wanted && is_negative m.epoll
    then fatal
    else if is_negative m.eventfd
    then fatal
    else if m.poll_wanted
    then crashed
    else if is_negative m.wakeup_ctl
    then fatal
    else make_server m ip (to_port (atoi port))

-- No system call of the start failed.
pub record Succeeded (m : Machine) : Type 0 where
  pub no_poll : m.poll_wanted ≡ false
  pub epoll : is_negative m.epoll ≡ false
  pub eventfd : is_negative m.eventfd ≡ false
  pub wakeup_ctl : is_negative m.wakeup_ctl ≡ false
  pub socket : is_negative m.socket ≡ false
  pub bind : m.bind ≡ pos 0
  pub listen : m.listen ≡ pos 0
  pub listen_ctl : is_negative m.listen_ctl ≡ false

is_running : Started → Bool
is_running (running s) = true
is_running _ = false

server_of : TcpServer → Started → TcpServer
server_of d (running s) = s
server_of d _ = d

-- A test behind which a server runs was false, if it leads to an end.
passed :
    (test : Bool) (end rest : Started) (t : TcpServer)
    → is_running end ≡ false
    → (if test then end else rest) ≡ running t
    → (test ≡ false) × (rest ≡ running t)
unfolding is_running
passed true end rest t e h = absurd (true≢false (sym (ap is_running h) ∙ e))
passed false end rest t e h = (refl, h)

-- What a server that runs has been through.
main-inv :
    (argc : ℕ) (ip port : Bytes) (m : Machine) (t : TcpServer)
    → main argc ip port m ≡ running t
    → (argc ≡ 3)
      × Succeeded m
      × (t
          ≡ Server.start
              (thread_loops thread_num 0 m.thread_loop)
              (Server.init 0 (to_ip_port ip (to_port (atoi port))) (codes "ChatServer")))
unfolding main make_server start_server is_running server_of
main-inv argc ip port m t h =
    let (three, h1) = passed (not (argc == 3)) (returned 0) _ t refl h in
    let (epoll, h2) = passed (not m.poll_wanted && is_negative m.epoll) fatal _ t refl h1 in
    let (eventfd, h3) = passed (is_negative m.eventfd) fatal _ t refl h2 in
    let (poll, h4) = passed m.poll_wanted crashed _ t refl h3 in
    let (wakeup, h5) = passed (is_negative m.wakeup_ctl) fatal _ t refl h4 in
    let (socket, h6) = passed (is_negative m.socket) fatal _ t refl h5 in
    let (bind, h7) = passed (not (m.bind ==ℤ pos 0)) fatal _ t refl h6 in
    let (listen, h8) = passed (not (m.listen ==ℤ pos 0)) fatal _ t refl h7 in
    let (ctl, h9) = passed (is_negative m.listen_ctl) fatal _ t refl h8 in
    (
      ground (arith, three),
      record {
        no_poll = poll;
        epoll = rw poll at epoll;
        eventfd = eventfd;
        wakeup_ctl = wakeup;
        socket = socket;
        bind = zero_of m.bind bind;
        listen = zero_of m.listen listen;
        listen_ctl = ctl;
      },
      sym (ap (server_of t) h9),
    )
  where
    zero_of : (z : ℤ) → not (z ==ℤ pos 0) ≡ false → z ≡ pos 0
    zero_of z e = ground (arith, ==ℤ_iff z (pos 0), e)

four_loops : (loop_of : ℕ → ℕ) → length (thread_loops thread_num 0 loop_of) ≡ 4
unfolding thread_loops
four_loops loop_of = refl

thread_loop_at :
    (loop_of : ℕ → ℕ) (r : ℕ)
    → r < 4
    → get_elem? (thread_loops thread_num 0 loop_of) r ≡ some (loop_of r)
unfolding thread_loops
thread_loop_at loop_of zero h = refl
thread_loop_at loop_of (suc zero) h = refl
thread_loop_at loop_of (suc (suc zero)) h = refl
thread_loop_at loop_of (suc (suc (suc zero))) h = refl
thread_loop_at loop_of (suc (suc (suc (suc r)))) h = absurd (omega (arith, h))

some_eq : {x y : ℕ} → some x ≡ some y → x ≡ y
some_eq e = cc

-- The first `start` of a server.
first_start :
    (loops : List ℕ) (s : TcpServer)
    → s.started ≡ 0
    → ((Server.start loops s).ip_port ≡ s.ip_port)
      × ((Server.start loops s).pool ≡ Pool.start loops s.pool)
      × ((Server.start loops s).started ≡ 1)
unfolding Server.start
first_start loops s e =
    let z : (s.started == 0) ≡ true = ground (arith, e) in rw z (refl, refl, ap suc e)

-- If `main` gets to run its loop, then it had three arguments, poll was not asked for, no system
-- call of the start failed, and the server's name for itself has the port modulo 2^16; and after
-- any run of the server that accepted q * 4 + r connections, the next one, with the descriptor `suc
-- fd`, makes the server ask the loop of thread number r to establish it, the threads counted from
-- 0.
pub main_runs :
    (argc : ℕ) (ip port : Bytes) (m : Machine) (s : TcpServer) (es : List Event) (q r fd : ℕ)
    → main argc ip port m ≡ running s
    → accepted es ≡ q * 4 + r
    → r < 4
    → let t = Server.run es s in
      (argc ≡ 3)
      × Succeeded m
      × (s.ip_port ≡ to_ip_port ip (to_port (atoi port)))
      × (conn : TcpConn) × (conn.loop ≡ m.thread_loop r)
      × (conn.sockfd ≡ suc fd)
      × ((hand_read (pos (suc fd)) t).asked ≡ t.asked ++ (m.thread_loop r, established conn) ∷ [])
unfolding Server.init
main_runs argc ip port m s es q r fd h count small =
    let (three, succeeded, made) = main-inv argc ip port m s h in
    let loops = thread_loops thread_num 0 m.thread_loop in
    let (named, pooled, started) =
      first_start loops (Server.init 0 (to_ip_port ip (to_port (atoi port))) (codes "ChatServer"))
        refl in
    let turn = round_robin 0 loops q r (omega (arith, small, four_loops m.thread_loop)) in
    let size = four_loops m.thread_loop in
    let got =
      ap (λ k. (get_next_loop (after k s.pool)).0) count
      ∙ ap (λ p. (get_next_loop (after (q * 4 + r) p)).0)
          (ap (λ (x : TcpServer). x.pool) made ∙ pooled)
      ∙ ap (λ n. (get_next_loop (after (q * n + r) (Pool.start loops (Pool.init 0)))).0)
          (sym size) in
    let up : s.started ≢ 0 =
      λ z. omega (arith, z, ap (λ (x : TcpServer). x.started) made, started) in
    let (conn, on_loop, of_socket, asked) =
      next_asked es s fd (m.thread_loop r) up
        (got ∙ some_eq (sym turn ∙ thread_loop_at m.thread_loop r small)) in
    (
      three,
      succeeded,
      ap (λ (x : TcpServer). x.ip_port) made ∙ named,
      conn,
      on_loop,
      of_socket,
      asked,
    )
