-- ===== src/System/Wire.antt =====
-- Whole runs of the server: the wire of one connection against the texts that the service sent to it.
use cluster_chat_server.Prelude.{
  ◌≡◌, refl, sym, ap, subst, ◌∙◌, ◌⊎◌, inl, inr, ◌==◌, true, false, Bool, Bool-cases, List, [], ◌∷◌,
  ◌++◌, length, map, ℕ, some, arith, Always, Always-bind,
}
use mathlib.Core.Bool.{true≢false}
use mathlib.Core.List.{append-nil}
use cluster_chat_server.Prelude.Text.{Bytes}
use cluster_chat_server.Buffer.{Io, failed, done}
use cluster_chat_server.Buffer.Inv.{contents}
use cluster_chat_server.Json.{JsonLib}
use cluster_chat_server.Sql.{MySql}
use cluster_chat_server.Net.Channel
use cluster_chat_server.Net.Connection.{
  connected, connecting, disconnected, is_state, init, handle_read, connection_established,
}
use cluster_chat_server.Net.Connection.Fifo.{Usable}
use cluster_chat_server.Net.Connection.Order.{established-IsSound}
use cluster_chat_server.Net.Connection.Remote.{Shared, sends_in_loop, run_first}
use cluster_chat_server.Service.State.{Conn}
use cluster_chat_server.Service.Dispatch.{on_message}
use cluster_chat_server.System.{
  System, Kernel, Entry, ran, entries, Event, opened, readable, writable, hung_up, runs_functor,
  from_redis, in_loop_thread, set_link, settle, run_functor, open_link, read_event, act, step, run,
}
use cluster_chat_server.System.Stream.{
  Promise, nothing, promise, promise_one, promise-append, Got, Fits, Fits-before, run_first-Got,
}
use cluster_chat_server.System.Stream.Events.{
  input-Got, read-Got, write-Got, close-Got, set_conn-Got, send_texts-Got,
}

not_new : (p : Promise) (c : Shared) → Got p c → is_state c.conn.state connecting ≡ false
not_new p c (inl u) = rw u.has.up refl
not_new p c (inr k) = rw k.state refl

abbrev pub fresh : ℕ → Shared
fresh fd = record { conn = connection_established (init fd); tasks = [] }

new : (fd : ℕ) → Got nothing (fresh fd)
new fd =
    let (sound, none_yet, up, size) = established-IsSound fd in
    inl (record {
      has = record { sound = sound; up = up; whole = none_yet; waiting = refl };
      size = omega (arith, size);
    })

-- A connection against its promise: up, or down.
abbrev pub Kept : Promise → Shared → Type 0
Kept p c =
    ((c.conn.state ≡ connected)
      × (c.conn.wire ++ contents c.conn.output ≡ p.0)
      × (c.tasks ≡ map sends_in_loop p.1)
      × ((Channel.is_writing c.conn.channel ≡ true) ⊎ (c.conn.wire ≡ p.0)))
    ⊎ ((c.conn.state ≡ disconnected)
        × (rest : Bytes) × ((c.conn.wire ++ contents c.conn.output) ++ rest ≡ p.0))

conclude : (p : Promise) (c : Shared) → Got p c → Kept p c
conclude p c (inl u) = inl (u.has.up, u.has.whole, u.has.waiting, written)
  where
    written : (Channel.is_writing c.conn.channel ≡ true) ⊎ (c.conn.wire ≡ p.0)
    written = elim (Bool-cases (Channel.is_writing c.conn.channel)) [
      | inl e ↦ inl e
      | inr e ↦ inr (
          sym (append-nil c.conn.wire)
          ∙ ap (◌++◌ c.conn.wire) (sym (u.has.sound.waiting e))
          ∙ u.has.whole)
    ]
conclude p c (inr k) = inr (k.state, k.rest, k.part)

module _ ⦃S : MySql⦄ (conn : Conn) where
  -- What one part of a step adds to the log, and that the connection keeps the promise.
  record Moves (s t : System) : Type 0 where
    made : List Entry
    logged : t.log ≡ s.log ++ made
    moves :
        (p : Promise)
        → Fits (promise conn made p)
        → Got p (s.links conn)
        → Got (promise conn made p) (t.links conn)

  -- Nothing of it was about texts.
  still :
      (s t : System)
      → t.log ≡ s.log
      → ((p : Promise) → Got p (s.links conn) → Got p (t.links conn))
      → Moves s t
  still s t same f = record {
    made = [];
    logged = same ∙ sym (append-nil s.log);
    moves = λ p fits g. f p g;
  }

  -- The connection has what the log promises it, as far as its bound allows.
  abbrev pub Follows : System → Type 0
  Follows s = Fits (promise conn s.log nothing) → Got (promise conn s.log nothing) (s.links conn)

  followed : (s t : System) → Moves s t → Follows s → Follows t
  followed s t m h fits =
      let p = promise conn s.log nothing in
      let e : promise conn t.log nothing ≡ promise conn m.made p =
        ap (λ l. promise conn l nothing) m.logged ∙ promise-append conn s.log m.made nothing in
      let all : Fits (promise conn m.made p) = subst Fits e fits in
      subst (λ q. Got q (t.links conn)) (sym e) (m.moves p all (h (Fits-before conn m.made p all)))

  module _ (kernel : Kernel) (usable : (k : ℕ) (m : Bytes) → Usable (length m) (kernel k m)) where
    settle-Moves : (here : Conn → Bool) (s : System) → Moves s (settle kernel here s)
    unfolding settle
    settle-Moves here s = record {
      made = entries here s.service.sent;
      logged = refl;
      moves = λ p fits g.
          send_texts-Got kernel conn here usable s.service.sent (length s.log) s.links p fits g;
    }

    functor-Got :
        (other : Conn) (k : ℕ) (links : Conn → Shared) (p : Promise)
        → Fits (promise_one conn (ran other) p)
        → Got p (links conn)
        → Got (promise_one conn (ran other) p) (
            set_link other (run_first (kernel k) (links other).tasks (links other).conn) links conn)
    unfolding set_link
    functor-Got other k links p fits g = elim (Bool-cases (conn == other)) [
      | inr e ↦ rw e g
      | inl e ↦
          let same : conn ≡ other = ground arith in
          rw e (
            run_first-Got (kernel k) p (links other) (usable k) (rw e at fits)
              (subst (λ o. Got p (links o)) same g))
    ]

    run_functor-Moves : (other : Conn) (s : System) → Moves s (run_functor kernel other s)
    unfolding run_functor
    run_functor-Moves other s = record {
      made = ran other ∷ [];
      logged = refl;
      moves = λ p fits g. functor-Got other (length s.log) s.links p fits g;
    }

module _ ⦃J : JsonLib⦄ ⦃S : MySql⦄ (conn : Conn) where
  read_event-Moves :
      (other : Conn) (reply : Io Bytes) (s : System)
      → Always (Moves conn s) (read_event other reply s)
  unfolding read_event
  read_event-Moves other (failed e) s =
      still conn s _ refl
        λ p g. set_conn-Got conn other _ s.links p (read-Got (failed e) p (s.links other)) g
  read_event-Moves other (done []) s =
      still conn s _ refl
        λ p g. set_conn-Got conn other _ s.links p (read-Got (done []) p (s.links other)) g
  read_event-Moves other (done (y ∷ ys)) s =
      Always-bind (Moves conn s)
        (on_message other (handle_read (done (y ∷ ys)) (s.links other).conn).input s.service) _
        λ (rest, t) q. still conn s _ refl λ p g.
          set_conn-Got conn other _ s.links p
            (λ h. input-Got rest p _ (read-Got (done (y ∷ ys)) p (s.links other) h)) g

  open_link-Moves : (other : Conn) (s : System) → Moves conn s (open_link other s)
  unfolding open_link
  open_link-Moves other s = elim (Bool-cases (is_state (s.links other).conn.state connecting)) [
    | inr e ↦ rw (e, open_link) (still conn s _ refl λ p g. g)
    | inl e ↦
        rw (e, open_link)
          (still conn s _ refl λ p g.
            set_conn-Got conn other _ s.links p
              (λ h. absurd (true≢false (sym e ∙ not_new p (s.links other) h))) g)
  ]

module _ ⦃J : JsonLib⦄ ⦃S : MySql⦄ (kernel : Kernel)
    (usable : (k : ℕ) (m : Bytes) → Usable (length m) (kernel k m)) (loop_of : Conn → ℕ)
    (conn : Conn) where
  act-Moves : (e : Event) (s : System) → Always (Moves conn s) (act kernel e s)
  unfolding act
  act-Moves (opened other) s = open_link-Moves conn other s
  act-Moves (readable other reply) s = read_event-Moves conn other reply s
  act-Moves (writable other reply) s =
      still conn s _ refl
        λ p g. set_conn-Got conn other _ s.links p (write-Got reply p (s.links other)) g
  act-Moves (hung_up other) s =
      still conn s _ refl λ p g. set_conn-Got conn other _ s.links p (close-Got p (s.links other)) g
  act-Moves (runs_functor other) s = run_functor-Moves conn kernel usable other s
  act-Moves (from_redis id text) s = still conn s _ refl λ p g. g

  step-Follows :
      (e : Event) (s : System) → Follows conn s → Always (Follows conn) (step kernel loop_of e s)
  unfolding step
  step-Follows e s h = Always-bind (Follows conn) (act kernel e s) _ λ t q.
      followed conn t _ (settle-Moves conn kernel usable (in_loop_thread loop_of e) t)
        (followed conn s t (subst (Always (Moves conn s)) q (act-Moves e s)) h)

  run-Follows :
      (es : List Event) (s : System)
      → Follows conn s
      → Always (Follows conn) (run kernel loop_of es s)
  unfolding run
  run-Follows [] s h = h
  run-Follows (e ∷ es) s h =
      Always-bind (Follows conn) (step kernel loop_of e s) (run kernel loop_of es)
        λ t q. run-Follows es t (subst (Always (Follows conn)) q (step-Follows e s h))

  -- For every run of the server in which no `write` of a text takes more than it is given or answers
  -- that the connection is broken, from the moment that a connection is established: let the promise
  -- of its texts be a plain queue, in which a text is the connection's own at once if the handler runs
  -- in the thread of its loop, and else waits until the loop comes to its functor. If all its bytes
  -- are fewer than 2^63 - 1032, then the connection is up, what was written to it and what is pending
  -- are together those that are its own, in order, the functors that wait are those of the queue, and
  -- all of its own are written if it does not wait for the socket; or it is down, and what was
  -- written and is pending are the first bytes of its own.
  pub on_wire :
      (es : List Event) (s t : System) (fd : ℕ)
      → s.log ≡ []
      → s.links conn ≡ fresh fd
      → run kernel loop_of es s ≡ some t
      → Fits (promise conn t.log nothing)
      → Kept (promise conn t.log nothing) (t.links conn)
  on_wire es s t fd empty link e fits =
      conclude (promise conn t.log nothing) (t.links conn)
        (subst (Always (Follows conn)) e (run-Follows es s start) fits)
    where
      start : Follows conn s
      start h =
          subst (λ l. Got (promise conn l nothing) (s.links conn)) (sym empty)
            (subst (Got nothing) (sym link) (new fd))
