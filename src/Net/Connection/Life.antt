-- ===== src/Net/Connection/Life.antt =====
-- A connection from `connectEstablished` to `connectDestroyed`, with any number of sends, writable
-- and readable events and a shutdown between.
use cluster_chat_server.Prelude.{
  ℕ, ◌≡◌, refl, List, [], ◌∷◌, ◌++◌, Bool, true, false, arith, take, drop, ◌∙◌, ap,
}
use mathlib.Core.List.{append-nil}
use cluster_chat_server.Prelude.Text.{Bytes}
use cluster_chat_server.Buffer
use cluster_chat_server.Buffer.{Buffer, Io, failed, done, initial_size}
use cluster_chat_server.Net.Channel
use cluster_chat_server.Net.Connection.Fifo.{when_connected}
use cluster_chat_server.Net.Connection.Run.{
  Op, sends, writes, reads, read_fails, shuts_down, perform, perform_all,
}
use cluster_chat_server.Net.Connection.{
  Connection, Callback, on_connection, on_message, on_close, Functor, connected, disconnected, init,
  write_complete, send, send_in_loop, write_direct, keep_rest, queue_functor, notify_high_water,
  store_rest, keep_if_any, handler_write, handler_close, handle_read, shutdown, shutdown_in_loop,
  drained, call, connection_established, connection_destroyed,
}

-- What the user's connection callback was told: up or down.
abbrev pub told : List Callback → List Bool
told [] = []
told (on_connection b ∷ cs) = b ∷ told cs
told (on_message ∷ cs) = told cs
told (on_close ∷ cs) = told cs

told-append : (cs ds : List Callback) → told (cs ++ ds) ≡ told cs ++ told ds
told-append [] ds = refl
told-append (on_connection b ∷ cs) ds = ap (◌∷◌ b) (told-append cs ds)
told-append (on_message ∷ cs) ds = told-append cs ds
told-append (on_close ∷ cs) ds = told-append cs ds

queue_functor-called :
    (b : Bool) (f : Functor) (c : Connection) → (queue_functor b f c).called ≡ c.called
unfolding queue_functor
queue_functor-called true f c = refl
queue_functor-called false f c = refl

keep_rest-called : (rest : Bytes) (c : Connection) → (keep_rest rest c).called ≡ c.called
unfolding keep_rest store_rest notify_high_water
keep_rest-called rest c = queue_functor-called _ _ c

keep_if_any-called : (rest : Bytes) (c : Connection) → (keep_if_any rest c).called ≡ c.called
unfolding keep_if_any
keep_if_any-called rest c = ground (arith, keep_rest-called rest c)

write_direct-called :
    (m : Bytes) (r : Io ℕ) (c : Connection) → (write_direct m r c).called ≡ c.called
unfolding write_direct
write_direct-called m (done n) c =
    let c1 = record c { wire = c.wire ++ take n m } in
    ground (
      arith,
      queue_functor-called c.has_write_complete write_complete c1,
      keep_rest-called (drop n m) c1,
    )
write_direct-called m (failed e) c = ground (arith, keep_if_any-called m c)

send-called : (m : Bytes) (r : Io ℕ) (c : Connection) → (send m r c).called ≡ c.called
unfolding send send_in_loop
send-called m r c = ground (arith, write_direct-called m r c, keep_if_any-called m c)

shutdown-called : (c : Connection) → (shutdown c).called ≡ c.called
unfolding shutdown shutdown_in_loop
shutdown-called c = ground arith

drained-called : (c : Connection) → (drained c).called ≡ c.called
unfolding drained shutdown_in_loop
drained-called c = ground (
  arith,
  queue_functor-called c.has_write_complete write_complete
      (record c { channel = Channel.disable_writing c.channel }),
)

handler_write-called : (r : Io ℕ) (c : Connection) → (handler_write r c).called ≡ c.called
unfolding handler_write
handler_write-called (failed e) c = refl
handler_write-called (done n) c = ground (
  arith,
  drained-called (record c {
    wire = c.wire ++ take n (Buffer.peek c.output (Buffer.readable_bytes c.output));
    output = Buffer.retrieve c.output n;
  }),
)

perform-told : (op : Op) (c : Connection) → told (perform op c).called ≡ told c.called
unfolding perform handle_read call
perform-told (sends m r) c = ap told (send-called m r c)
perform-told (writes r) c = ap told (handler_write-called r c)
perform-told (reads x xs) c = told-append c.called (on_message ∷ []) ∙ append-nil (told c.called)
perform-told (read_fails e) c = refl
perform-told shuts_down c = ap told (shutdown-called c)

perform_all-told :
    (ops : List Op) (c : Connection) → told (perform_all ops c).called ≡ told c.called
unfolding perform_all
perform_all-told [] c = refl
perform_all-told (op ∷ ops) c = perform_all-told ops (perform op c) ∙ perform-told op c

-- Whatever happens to a connection between its establishment and its closing by the peer, the user's
-- connection callback hears exactly twice of it: up at first, down at the end; the later
-- `connectionDestroyed` tells nobody anything and only removes the channel, and the closed connection
-- waits for no event.
pub told_twice :
    (fd : ℕ) (ops : List Op)
    → let c = handler_close (perform_all ops (connection_established (init fd))) in
      (told (connection_destroyed c).called ≡ true ∷ false ∷ [])
      × (connection_destroyed c ≡ record c { removed = true })
      × (Channel.is_none_event c.channel ≡ true)
unfolding handler_close connection_destroyed connection_established call Channel.disable_all
    Channel.is_none_event init
told_twice fd ops =
    let up = connection_established (init fd) in
    let calls = (perform_all ops up).called in
    (
      told-append (calls ++ (on_connection false ∷ [])) (on_close ∷ [])
          ∙ append-nil (told (calls ++ (on_connection false ∷ [])))
          ∙ told-append calls (on_connection false ∷ [])
          ∙ ap (λ t. t ++ (false ∷ [])) (perform_all-told ops up),
      refl,
      refl,
    )

-- If the server destroys a connection that is up, the callback hears the same, once more.
pub destroyed_up :
    (c : Connection)
    → c.state ≡ connected
    → (told (connection_destroyed c).called ≡ told c.called ++ (false ∷ []))
      × ((connection_destroyed c).state ≡ disconnected)
      × (connection_destroyed (connection_destroyed c) ≡ connection_destroyed c)
unfolding connection_destroyed call
destroyed_up c up =
    rw (when_connected c.state up).0 (told-append c.called (on_connection false ∷ []), refl, refl)
