-- ===== src/System/Ended.antt =====
-- A connection goes down only when its peer ends it.
use cluster_chat_server.Prelude.{
  ℕ, suc, ◌≡◌, ◌≢◌, refl, sym, ap, subst, ◌∙◌, inl, inr, ◌==◌, Bool, true, false, Bool-cases, List,
  [], ◌∷◌, ◌++◌, some, arith, take, drop, length, Always, Always-bind,
}
use mathlib.Core.Bool.{true≢false}
use cluster_chat_server.Prelude.Text.{Bytes}
use cluster_chat_server.Buffer
use cluster_chat_server.Buffer.{Io, failed, done}
use cluster_chat_server.Json.{JsonLib}
use cluster_chat_server.Sql.{MySql}
use cluster_chat_server.Net.Connection.{
  Connection, connected, connecting, is_state, send, send_in_loop, write_direct, keep_if_any,
  keep_rest, store_rest, notify_high_water, queue_functor, shutdown_in_loop, drained, handler_write,
  handle_read, call,
}
use cluster_chat_server.Net.Connection.Remote.{
  Shared, Task, sends_in_loop, shuts_down_in_loop, send_from_other, run_task, run_first,
}
use cluster_chat_server.Service.State.{Conn}
use cluster_chat_server.Service.Dispatch.{on_message}
use cluster_chat_server.System.{
  System, Kernel, Event, opened, readable, writable, hung_up, runs_functor, from_redis,
  in_loop_thread, set_link, set_conn, send_text, send_texts, settle, run_functor, open_link,
  read_event, act, step, run,
}

keep_if_any-state : (m : Bytes) (c : Connection) → (keep_if_any m c).state ≡ c.state
unfolding keep_if_any keep_rest store_rest notify_high_water queue_functor
keep_if_any-state m c = ground arith

keep_rest-state : (m : Bytes) (c : Connection) → (keep_rest m c).state ≡ c.state
unfolding keep_rest store_rest notify_high_water queue_functor
keep_rest-state m c = ground arith

write_direct-state : (m : Bytes) (r : Io ℕ) (c : Connection) → (write_direct m r c).state ≡ c.state
unfolding write_direct queue_functor
write_direct-state m (done n) c =
    ground (arith, keep_rest-state (drop n m) (record c { wire = c.wire ++ take n m }))
write_direct-state m (failed e) c = ground (arith, keep_if_any-state m c)

send_in_loop-state : (m : Bytes) (r : Io ℕ) (c : Connection) → (send_in_loop m r c).state ≡ c.state
unfolding send_in_loop
send_in_loop-state m r c = ground (arith, write_direct-state m r c, keep_if_any-state m c)

send_text-state :
    (here : Bool) (m : Bytes) (r : Io ℕ) (c : Shared)
    → (send_text here m r c).conn.state ≡ c.conn.state
unfolding send_text send_from_other send
send_text-state true m r c = ground (arith, send_in_loop-state m r c.conn)
send_text-state false m r c = ground arith

run_first-state :
    (reply : Bytes → Io ℕ) (tasks : List Task) (c : Connection)
    → (run_first reply tasks c).conn.state ≡ c.state
unfolding run_first run_task shutdown_in_loop
run_first-state reply [] c = refl
run_first-state reply (sends_in_loop m ∷ tasks) c = send_in_loop-state m (reply m) c
run_first-state reply (shuts_down_in_loop ∷ tasks) c = ground arith

drained-state : (c : Connection) → (drained c).state ≡ c.state
unfolding drained shutdown_in_loop queue_functor
drained-state c = ground arith

handler_write-state : (r : Io ℕ) (c : Connection) → (handler_write r c).state ≡ c.state
unfolding handler_write
handler_write-state (failed e) c = refl
handler_write-state (done n) c = ground (
  arith,
  drained-state (record c {
    wire = c.wire ++ take n (Buffer.peek c.output (Buffer.readable_bytes c.output));
    output = Buffer.retrieve c.output n;
  }),
)

module _ (conn : Conn) where
  abbrev IsUp : (Conn → Shared) → Type 0
  IsUp links = (links conn).conn.state ≡ connected

  -- A link is replaced by one in the same state, or one of another connection.
  set_link-IsUp :
      (other : Conn) (c : Shared) (links : Conn → Shared)
      → (conn ≡ other → (links other).conn.state ≡ connected → c.conn.state ≡ connected)
      → IsUp links
      → IsUp (set_link other c links)
  unfolding set_link
  set_link-IsUp other c links f up = elim (Bool-cases (conn == other)) [
    | inl e ↦
        let same : conn ≡ other = ground arith in
        rw e (f same (subst (λ o. (links o).conn.state ≡ connected) same up))
    | inr e ↦ rw e up
  ]

  set_conn-IsUp :
      (other : Conn) (c : Connection) (links : Conn → Shared)
      → (conn ≡ other → (links other).conn.state ≡ connected → c.state ≡ connected)
      → IsUp links
      → IsUp (set_conn other c links)
  unfolding set_conn
  set_conn-IsUp other c links f up = set_link-IsUp other _ links f up

  send_texts-IsUp :
      (kernel : Kernel) (here : Conn → Bool) (texts : List (Conn × Bytes)) (k : ℕ)
      (links : Conn → Shared)
      → IsUp links
      → IsUp (send_texts kernel here k texts links)
  unfolding send_texts
  send_texts-IsUp kernel here [] k links up = up
  send_texts-IsUp kernel here ((other, text) ∷ texts) k links up =
      send_texts-IsUp kernel here texts (suc k) _ (
        set_link-IsUp other (send_text (here other) text (kernel k text) (links other)) links
          (λ same h. send_text-state (here other) text (kernel k text) (links other) ∙ h) up)

  -- The peer of the connection does not end it in the run.
  abbrev pub NeverEnds : List Event → Type 0
  NeverEnds [] = Unit
  NeverEnds (opened other ∷ es) = NeverEnds es
  NeverEnds (readable other (failed errno) ∷ es) = NeverEnds es
  NeverEnds (readable other (done []) ∷ es) = (conn ≢ other) × NeverEnds es
  NeverEnds (readable other (done (x ∷ xs)) ∷ es) = NeverEnds es
  NeverEnds (writable other reply ∷ es) = NeverEnds es
  NeverEnds (hung_up other ∷ es) = (conn ≢ other) × NeverEnds es
  NeverEnds (runs_functor other ∷ es) = NeverEnds es
  NeverEnds (from_redis id text ∷ es) = NeverEnds es

module _ ⦃J : JsonLib⦄ ⦃S : MySql⦄ (conn : Conn) (kernel : Kernel) (loop_of : Conn → ℕ) where
  abbrev UpIn : System → Type 0
  UpIn s = IsUp conn s.links

  open_link-UpIn : (other : Conn) (s : System) → UpIn s → UpIn (open_link other s)
  unfolding open_link
  open_link-UpIn other s up = elim (Bool-cases (is_state (s.links other).conn.state connecting)) [
    | inr e ↦ rw (e, open_link) up
    | inl e ↦
        rw (e, open_link)
          (set_conn-IsUp conn other _ s.links
            (λ same h. absurd (true≢false (sym e ∙ ap (λ t. is_state t connecting) h))) up)
  ]

  act-UpIn :
      (e : Event) (s : System) → NeverEnds conn (e ∷ []) → UpIn s → Always UpIn (act kernel e s)
  unfolding act read_event run_functor handle_read call
  act-UpIn (opened other) s n up = open_link-UpIn other s up
  act-UpIn (readable other (failed errno)) s n up =
      set_conn-IsUp conn other _ s.links (λ same h. h) up
  act-UpIn (readable other (done [])) s n up =
      set_conn-IsUp conn other _ s.links (λ same h. absurd (n.0 same)) up
  act-UpIn (readable other (done (x ∷ xs))) s n up =
      Always-bind UpIn
        (on_message other (handle_read (done (x ∷ xs)) (s.links other).conn).input s.service) _
        λ (rest, t) q. set_conn-IsUp conn other _ s.links (λ same h. h) up
  act-UpIn (writable other reply) s n up =
      set_conn-IsUp conn other _ s.links
        (λ same h. handler_write-state reply (s.links other).conn ∙ h) up
  act-UpIn (hung_up other) s n up =
      set_conn-IsUp conn other _ s.links (λ same h. absurd (n.0 same)) up
  act-UpIn (runs_functor other) s n up =
      let c = s.links other in
      set_link-IsUp conn other (run_first (kernel (length s.log)) c.tasks c.conn) s.links
        (λ same h. run_first-state (kernel (length s.log)) c.tasks c.conn ∙ h) up
  act-UpIn (from_redis id text) s n up = up

  NeverEnds-split :
      (e : Event) (es : List Event)
      → NeverEnds conn (e ∷ es)
      → NeverEnds conn (e ∷ []) × NeverEnds conn es
  NeverEnds-split (opened other) es n = (tt, n)
  NeverEnds-split (readable other (failed errno)) es n = (tt, n)
  NeverEnds-split (readable other (done [])) es n = ((n.0, tt), n.1)
  NeverEnds-split (readable other (done (x ∷ xs))) es n = (tt, n)
  NeverEnds-split (writable other reply) es n = (tt, n)
  NeverEnds-split (hung_up other) es n = ((n.0, tt), n.1)
  NeverEnds-split (runs_functor other) es n = (tt, n)
  NeverEnds-split (from_redis id text) es n = (tt, n)

  step-UpIn :
      (e : Event) (s : System)
      → NeverEnds conn (e ∷ [])
      → UpIn s
      → Always UpIn (step kernel loop_of e s)
  unfolding step settle
  step-UpIn e s n up = Always-bind UpIn (act kernel e s) _ λ t q.
      send_texts-IsUp conn kernel (in_loop_thread loop_of e) t.service.sent (length t.log) t.links
        (subst (Always UpIn) q (act-UpIn e s n up))

  run-UpIn :
      (es : List Event) (s : System)
      → NeverEnds conn es
      → UpIn s
      → Always UpIn (run kernel loop_of es s)
  unfolding run
  run-UpIn [] s n up = up
  run-UpIn (e ∷ es) s n up =
      let (first, rest) = NeverEnds-split e es n in
      Always-bind UpIn (step kernel loop_of e s) (run kernel loop_of es)
        λ t q. run-UpIn es t rest (subst (Always UpIn) q (step-UpIn e s first up))

  -- In every run of the server in which the peer of a connection that is up does not end it, whatever
  -- else happens to it and to others and whatever `write` answers, the connection stays up.
  pub stays_up :
      (es : List Event) (s t : System)
      → NeverEnds conn es
      → (s.links conn).conn.state ≡ connected
      → run kernel loop_of es s ≡ some t
      → (t.links conn).conn.state ≡ connected
  stays_up es s t n up e = subst (Always UpIn) e (run-UpIn es s n up)
