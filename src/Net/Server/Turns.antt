-- ===== src/Net/Server/Turns.antt =====
-- Which loop of the pool a new connection of src/net/TcpServer.cc goes to, after any run of the
-- server.
use cluster_chat_server.Prelude.{
  ℕ, zero, suc, ◌≡◌, ◌≢◌, refl, ap, ◌∙◌, List, [], ◌∷◌, ◌++◌, pos, negsuc, arith, ◌==◌, false,
}
use cluster_chat_server.Net.Pool.{Pool, get_next_loop, after}
use cluster_chat_server.Net.Server.{
  TcpServer, TcpConn, Event, starts, readable, closes, start, hand_read, new_connection,
  remove_connection, connection_name, step, run, established,
}

-- How many connections the run accepted.
abbrev pub accepted : List Event → ℕ
accepted [] = 0
accepted (starts loops ∷ es) = accepted es
accepted (readable (pos zero) ∷ es) = accepted es
accepted (readable (pos (suc n)) ∷ es) = suc (accepted es)
accepted (readable (negsuc n) ∷ es) = accepted es
accepted (closes conn ∷ es) = accepted es

-- The first of the calls of `getNextLoop`.
after-first : (k : ℕ) (p : Pool) → after k (get_next_loop p).1 ≡ after (suc k) p
unfolding after
after-first zero p = refl
after-first (suc k) p = ap (λ q. (get_next_loop q).1) (after-first k p)

-- A server that has started does not start again.
restart-pool :
    (loops : List ℕ) (s : TcpServer)
    → s.started ≢ 0
    → ((start loops s).pool ≡ s.pool) × ((start loops s).started ≢ 0)
unfolding start
restart-pool loops s h =
    let e : (s.started == 0) ≡ false = ground (arith, h) in rw e (refl, λ p. omega (arith, p))

-- The pool has moved on by one loop for each connection.
run-pool :
    (es : List Event) (s : TcpServer) → s.started ≢ 0 → (run es s).pool ≡ after (accepted es) s.pool
unfolding run step hand_read new_connection remove_connection after
run-pool [] s h = refl
run-pool (starts loops ∷ es) s h =
    let (same, started) = restart-pool loops s h in
    run-pool es (start loops s) started ∙ ap (after (accepted es)) same
run-pool (readable (pos zero) ∷ es) s h = run-pool es s h
run-pool (readable (pos (suc n)) ∷ es) s h =
    run-pool es (new_connection (suc n) s) h ∙ after-first (accepted es) s.pool
run-pool (readable (negsuc n) ∷ es) s h = run-pool es s h
run-pool (closes conn ∷ es) s h = run-pool es (remove_connection conn s) h

-- What the next connection makes the server ask, with the loop that `getNextLoop` has come to.
pub next_asked :
    (es : List Event) (s : TcpServer) (fd loop : ℕ)
    → s.started ≢ 0
    → (get_next_loop (after (accepted es) s.pool)).0 ≡ loop
    → let t = run es s in
      (conn : TcpConn) × (conn.loop ≡ loop)
      × (conn.sockfd ≡ suc fd)
      × ((hand_read (pos (suc fd)) t).asked ≡ t.asked ++ (loop, established conn) ∷ [])
unfolding hand_read new_connection
next_asked es s fd loop h e =
    let t = run es s in
    let conn : TcpConn = record {
      name = connection_name t.name t.ip_port t.next_conn_id;
      sockfd = suc fd;
      loop = (get_next_loop t.pool).0;
    } in
    let turn = ap (λ p. (get_next_loop p).0) (run-pool es s h) ∙ e in
    (conn, turn, refl, ap (λ l. t.asked ++ (l, established conn) ∷ []) turn)
