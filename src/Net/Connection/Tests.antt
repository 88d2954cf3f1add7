-- ===== src/Net/Connection/Tests.antt =====
-- Runs of a connection with other threads.
use cluster_chat_server.Prelude.{◌≡◌, refl, sym, ap, ◌∙◌, length, List, [], ◌∷◌, ◌++◌, true, arith}
use cluster_chat_server.Prelude.Text.{codes}
use cluster_chat_server.Buffer
use cluster_chat_server.Buffer.{Io, done, failed}
use cluster_chat_server.Buffer.Inv.{contents}
use cluster_chat_server.Net.Channel
use cluster_chat_server.Net.Connection.{
  Connection, connected, init, connection_established, send, send_in_loop, write_direct, keep_rest,
  store_rest, notify_high_water, queue_functor, call,
}
use cluster_chat_server.Net.Connection.Fifo.{stream, Adds, send-Adds}
use cluster_chat_server.Net.Connection.Order.{established-IsSound}
use cluster_chat_server.Net.Connection.Run.{sends, writes}
use cluster_chat_server.Net.Connection.Remote.{
  sends_in_loop, shuts_down_in_loop, Event, send_elsewhere, shutdown_elsewhere, runs_task, in_loop,
  act_all, queue_promise, closed_before_sent,
}

-- Two texts of other threads and one of the loop's; the loop runs one functor.
abbrev events : List Event
events =
    send_elsewhere (codes "ab")
    ∷ in_loop (sends (codes "cd") (done 1))
    ∷ send_elsewhere (codes "ef")
    ∷ runs_task (λ m. done (length m))
    ∷ []

queue_promise_example :
    let t = act_all events (record { conn = connection_established (init 5); tasks = [] }) in
    (t.conn.wire ++ contents t.conn.output ≡ codes "cdab")
    × (t.tasks ≡ sends_in_loop (codes "ef") ∷ [])
    × (t.conn.state ≡ connected)
queue_promise_example = queue_promise 5 events (omega arith, ((λ m. omega arith), tt)) (omega arith)

abbrev up : Connection
up = connection_established (init 5)

-- Two bytes are pending.
abbrev waiting : Connection
waiting = send (codes "hello") (done 3) up

waiting-Adds : Adds (codes "hello") up waiting
waiting-Adds =
    send-Adds (codes "hello") up (established-IsSound 5).0 (established-IsSound 5).2
      (omega (arith, (established-IsSound 5).3)) (done 3) (omega arith)

two_left : contents waiting.output ≡ codes "lo"
unfolding send send_in_loop write_direct keep_rest store_rest notify_high_water queue_functor
    connection_established init call Buffer.init Buffer.append Buffer.readable_bytes
    Buffer.ensure_writeable_bytes Buffer.writable_bytes Channel.is_writing Channel.enable_writing
    Channel.enable_reading Channel.tie Channel.init
two_left = refl

closed_before_sent_example :
    let t =
      act_all
        (send_elsewhere (codes "bye") ∷ shutdown_elsewhere ∷ in_loop (writes (done 2)) ∷ [])
        (record { conn = waiting; tasks = [] }) in
    (t.conn.half_closed ≡ true)
    × (t.conn.wire ++ contents t.conn.output ≡ stream waiting)
    × (t.tasks ≡ sends_in_loop (codes "bye") ∷ shuts_down_in_loop ∷ [])
closed_before_sent_example =
    closed_before_sent (codes "bye") waiting 2 waiting-Adds.sound
      (waiting-Adds.same_state ∙ (established-IsSound 5).2)
      (λ p. omega (arith, ap length (sym two_left ∙ p))) (omega (arith, ap length two_left))
