-- ===== src/Net/Server/Sound.antt =====
-- Over every run of a server: no name is used twice, and the map holds the connections that were
-- established and not destroyed.
use cluster_chat_server.Prelude.{
  ℕ, zero, suc, ◌+◌, ◌≤◌, ◌<◌, ◌^◌, ◌≡◌, refl, List, [], ◌∷◌, ◌++◌, map, none, pos, negsuc, arith,
  length, ap, ◌∙◌, sym, subst, Bool-cases, inl, inr, ◌==◌,
}
use cluster_chat_server.Prelude.Text.{Bytes, bytes_eq, bytes_eq_refl}
use cluster_chat_server.Net.Pool
use cluster_chat_server.Net.Server.{
  TcpConn, listen, established, destroyed, ConnectionMap, TcpServer, connection_name, lookup, erase,
  new_connection, hand_read, remove_connection, start, destroy_all, destruct, Event, starts,
  readable, closes, step, run, init, to_ip_port,
}
use cluster_chat_server.Net.Server.Names.{Distinct, to_ip_port-short}
use cluster_chat_server.Net.Server.Live.{
  entry, without, alive, alive_from, Numbered, alive_from-append, map-append, erase-entries,
  assign-new, Distinct-behind, Numbered-absent, without-absent,
}

-- How many connections a run can accept.
abbrev pub accepts : List Event → ℕ
accepts [] = 0
accepts (starts loops ∷ es) = accepts es
accepts (readable connfd ∷ es) = suc (accepts es)
accepts (closes conn ∷ es) = accepts es

pub record Inv (s : TcpServer) : Type 0 where
  pub short : length s.ip_port ≤ 27
  pub distinct : Distinct s.connections
  pub numbered : Numbered s.name s.ip_port s.next_conn_id s.connections
  pub all_alive : s.connections ≡ map entry (alive s.asked)

Numbered-more :
    (name ip_port : Bytes) (next : ℕ) (m : ConnectionMap)
    → Numbered name ip_port next m
    → Numbered name ip_port (suc next) m
Numbered-more name ip_port next [] ns = tt
Numbered-more name ip_port next ((k, c) ∷ m) ((i, less, e), ns) =
    ((i, omega (arith, less), e), Numbered-more name ip_port next m ns)

Numbered-behind :
    (name ip_port : Bytes) (next : ℕ) (m : ConnectionMap) (c : TcpConn)
    → Numbered name ip_port next m
    → Numbered name ip_port (suc next) (m ++ (connection_name name ip_port next, c) ∷ [])
Numbered-behind name ip_port next [] c ns = ((next, omega arith, refl), tt)
Numbered-behind name ip_port next ((k, d) ∷ m) c ((i, less, e), ns) =
    ((i, omega (arith, less), e), Numbered-behind name ip_port next m c ns)

Numbered-erase :
    (name ip_port : Bytes) (next : ℕ) (key : Bytes) (m : ConnectionMap)
    → Numbered name ip_port next m
    → Numbered name ip_port next (erase key m)
unfolding erase
Numbered-erase name ip_port next key [] ns = tt
Numbered-erase name ip_port next key ((k, c) ∷ m) (n, ns) = elim (Bool-cases (bytes_eq k key)) [
  | inl e ↦ rw e ns
  | inr e ↦ rw e (n, Numbered-erase name ip_port next key m ns)
]

absent-erase :
    (k key : Bytes) (m : ConnectionMap) → lookup k m ≡ none → lookup k (erase key m) ≡ none
unfolding lookup erase
absent-erase k key [] h = refl
absent-erase k key ((j, c) ∷ m) h = ground (arith, h, absent-erase k key m)

Distinct-erase : (key : Bytes) (m : ConnectionMap) → Distinct m → Distinct (erase key m)
unfolding erase
Distinct-erase key [] d = tt
Distinct-erase key ((k, c) ∷ m) d = elim (Bool-cases (bytes_eq k key)) [
  | inl e ↦ rw e d.1
  | inr e ↦ rw e (absent-erase k key m d.0, Distinct-erase key m d.1)
]

init-Inv :
    (loop : ℕ) (ip name : Bytes) (port : ℕ)
    → length ip ≤ 15
    → Inv (init loop (to_ip_port ip port) name)
unfolding init
init-Inv loop ip name port h = record {
  short = to_ip_port-short ip port h;
  distinct = tt;
  numbered = tt;
  all_alive = refl;
}

start-Inv : (loops : List ℕ) (s : TcpServer) → Inv s → Inv (start loops s)
unfolding start
start-Inv loops s v = elim (Bool-cases (s.started == 0)) [
  | inl e ↦ rw e (record {
    short = v.short;
    distinct = v.distinct;
    numbered = v.numbered;
    all_alive =
        v.all_alive
        ∙ ap (map entry) (sym (alive_from-append [] s.asked ((s.pool.base_loop, listen) ∷ [])));
  })
  | inr e ↦ rw e (record {
    short = v.short;
    distinct = v.distinct;
    numbered = v.numbered;
    all_alive = v.all_alive;
  })
]

new_connection-Inv :
    (sockfd : ℕ) (s : TcpServer) → s.next_conn_id < 2 ^ 31 → Inv s → Inv (new_connection sockfd s)
unfolding new_connection
new_connection-Inv sockfd s small v =
    let name = connection_name s.name s.ip_port s.next_conn_id in
    let io_loop = (Pool.get_next_loop s.pool).0 in
    let conn : TcpConn = record { name = name; sockfd = sockfd; loop = io_loop } in
    let absent =
      Numbered-absent s.name s.ip_port s.next_conn_id s.connections v.short small v.numbered in
    rw (assign-new name conn s.connections absent) (record {
      short = v.short;
      distinct = Distinct-behind name conn s.connections v.distinct absent;
      numbered = Numbered-behind s.name s.ip_port s.next_conn_id s.connections conn v.numbered;
      all_alive =
          ap (λ m. m ++ (name, conn) ∷ []) v.all_alive
          ∙ sym (map-append (alive s.asked) (conn ∷ []))
          ∙ ap (map entry) (sym (alive_from-append [] s.asked ((io_loop, established conn) ∷ [])));
    })

remove_connection-Inv : (conn : TcpConn) (s : TcpServer) → Inv s → Inv (remove_connection conn s)
unfolding remove_connection
remove_connection-Inv conn s v = record {
  short = v.short;
  distinct = Distinct-erase conn.name s.connections v.distinct;
  numbered = Numbered-erase s.name s.ip_port s.next_conn_id conn.name s.connections v.numbered;
  all_alive =
      ap (erase conn.name) v.all_alive
      ∙ erase-entries conn.name (alive s.asked) (subst Distinct v.all_alive v.distinct)
      ∙ ap (map entry) (sym (alive_from-append [] s.asked ((conn.loop, destroyed conn) ∷ [])));
}

next_conn_id-start :
    (loops : List ℕ) (s : TcpServer) → (start loops s).next_conn_id ≡ s.next_conn_id
unfolding start
next_conn_id-start loops s = elim (Bool-cases (s.started == 0)) [
  | inl e ↦ rw e refl
  | inr e ↦ rw e refl
]

step-Inv :
    (e : Event) (es : List Event) (s : TcpServer)
    → s.next_conn_id + accepts (e ∷ es) < 2 ^ 31
    → Inv s
    → Inv (step e s) × ((step e s).next_conn_id + accepts es < 2 ^ 31)
unfolding step hand_read
step-Inv (starts loops) es s h v =
    (start-Inv loops s v, omega (arith, h, next_conn_id-start loops s))
step-Inv (readable (pos zero)) es s h v = (v, omega (arith, h))
step-Inv (readable (pos (suc n))) es s h v =
    (new_connection-Inv (suc n) s (omega (arith, h)) v, next_one)
  where
    next_one : (new_connection (suc n) s).next_conn_id + accepts es < 2 ^ 31
    next_one = omega (arith, h)
step-Inv (readable (negsuc n)) es s h v = (v, omega (arith, h))
step-Inv (closes conn) es s h v = (remove_connection-Inv conn s v, omega (arith, h))

run-Inv_server :
    (es : List Event) (s : TcpServer)
    → s.next_conn_id + accepts es < 2 ^ 31
    → Inv s
    → Inv (run es s)
unfolding run
run-Inv_server [] s h v = v
run-Inv_server (e ∷ es) s h v =
    let next = step-Inv e es s h v in run-Inv_server es (step e s) next.1 next.0

without-first :
    (c : TcpConn) (cs : List TcpConn)
    → lookup c.name (map entry cs) ≡ none
    → without c.name (c ∷ cs) ≡ cs
without-first c cs h = rw (bytes_eq_refl c.name) (without-absent c.name cs h)

destroyed_all :
    (cs : List TcpConn) → Distinct (map entry cs) → alive_from cs (destroy_all (map entry cs)) ≡ []
unfolding destroy_all
destroyed_all [] d = refl
destroyed_all (c ∷ cs) d =
    ap (λ ds. alive_from ds (destroy_all (map entry cs))) (without-first c cs d.0)
    ∙ destroyed_all cs d.1

-- For an address of at most 15 characters, as `inet_ntop` writes it, and a run in which the listening
-- socket is readable fewer than 2^31 - 1 times: no connection name is twice in the map of
-- the server, and the map holds exactly the connections that some loop was asked to establish and none
-- to destroy. When the server is destructed then, all of them are destroyed.
pub server_sound :
    (loop port : ℕ) (ip name : Bytes) (es : List Event)
    → length ip ≤ 15
    → suc (accepts es) < 2 ^ 31
    → let s = run es (init loop (to_ip_port ip port) name) in
      Distinct s.connections
      × (s.connections ≡ map entry (alive s.asked))
      × (alive (destruct s).asked ≡ [])
unfolding destruct init
server_sound loop port ip name es short few =
    let start = init loop (to_ip_port ip port) name in
    let v = run-Inv_server es start (omega (arith, few)) (init-Inv loop ip name port short) in
    let s = run es start in
    (
      v.distinct,
      v.all_alive,
      alive_from-append [] s.asked (destroy_all s.connections)
          ∙ ap (λ m. alive_from (alive s.asked) (destroy_all m)) v.all_alive
          ∙ destroyed_all (alive s.asked) (subst Distinct v.all_alive v.distinct),
    )
