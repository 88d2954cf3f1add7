-- ===== src/Net/Connection/Order.antt =====
-- Over a whole run of a connection: what is on the wire is what was sent, in order.
use cluster_chat_server.Prelude.{
  ℕ, ◌+◌, ◌^◌, ◌<◌, ◌≡◌, refl, List, [], ◌∷◌, ◌++◌, true, false, arith, length, length-append, ◌∙◌,
  ap, sym,
}
use mathlib.Core.Bool.{true≢false}
use mathlib.Core.List.{append-nil, append_assoc}
use cluster_chat_server.Prelude.Text.{Bytes}
use cluster_chat_server.Buffer.{Io, failed, done, initial_size}
use cluster_chat_server.Buffer.Inv.{contents}
use cluster_chat_server.Buffer.Queue.{init-IsValid, init_size}
use cluster_chat_server.Net.Channel
use cluster_chat_server.Net.Connection.{
  Connection, connected, disconnecting, is_state, init, send, handle_read, shutdown, call,
  connection_established,
}
use cluster_chat_server.Net.Connection.Fifo.{IsSound, stream, Usable, Room, Adds, send-Adds}
use cluster_chat_server.Net.Connection.Drain.{Keeps, handler_write_lem, shutdown_lem}
use cluster_chat_server.Net.Connection.Run.{
  Op, sends, writes, reads, read_fails, shuts_down, perform, perform_all,
}

-- The bytes given to `send` before the first `shutdown`.
abbrev pub sent : List Op → Bytes
sent [] = []
sent (sends message reply ∷ ops) = message ++ sent ops
sent (writes reply ∷ ops) = sent ops
sent (reads x xs ∷ ops) = sent ops
sent (read_fails errno ∷ ops) = sent ops
sent (shuts_down ∷ ops) = []

-- No `write` of `send` answers that the connection is broken, or takes more than it was given.
abbrev pub AllUsable : List Op → Type 0
AllUsable [] = Unit
AllUsable (sends message reply ∷ ops) = Usable (length message) reply × AllUsable ops
AllUsable (writes reply ∷ ops) = AllUsable ops
AllUsable (reads x xs ∷ ops) = AllUsable ops
AllUsable (read_fails errno ∷ ops) = AllUsable ops
AllUsable (shuts_down ∷ ops) = AllUsable ops

pub reads-Keeps :
    (x : ℕ) (xs : Bytes) (c : Connection) → IsSound c → Keeps c (handle_read (done (x ∷ xs)) c)
unfolding handle_read call
reads-Keeps x xs c s = (
  record { valid = s.valid; waiting = s.waiting; idle = s.idle; flushed = s.flushed },
  refl,
  refl,
  refl,
)

pub read_fails-Keeps :
    (errno : ℕ) (c : Connection) → IsSound c → Keeps c (handle_read (failed errno) c)
unfolding handle_read
read_fails-Keeps errno c s = (s, refl, refl, refl)

not_sent :
    (message : Bytes) (reply : Io ℕ) (c : Connection)
    → c.state ≡ disconnecting
    → send message reply c ≡ c
unfolding send
not_sent message reply c down =
    let e : is_state c.state connected ≡ false = rw down refl in rw e refl

shut_already : (c : Connection) → c.state ≡ disconnecting → shutdown c ≡ c
unfolding shutdown
shut_already c down = let e : is_state c.state connected ≡ false = rw down refl in rw e refl

perform-down :
    (op : Op) (c : Connection) → IsSound c → c.state ≡ disconnecting → Keeps c (perform op c)
unfolding perform
perform-down (sends m r) c s down = rw (not_sent m r c down) (s, refl, refl, refl)
perform-down (writes r) c s down = handler_write_lem c r s
perform-down (reads x xs) c s down = reads-Keeps x xs c s
perform-down (read_fails e) c s down = read_fails-Keeps e c s
perform-down shuts_down c s down = rw (shut_already c down) (s, refl, refl, refl)

-- After a shutdown the stream stays.
run-down :
    (ops : List Op) (c : Connection)
    → IsSound c
    → c.state ≡ disconnecting
    → IsSound (perform_all ops c) × (stream (perform_all ops c) ≡ stream c)
unfolding perform_all
run-down [] c s down = (s, refl)
run-down (op ∷ ops) c s down =
    let h = perform-down op c s down in
    let t = run-down ops (perform op c) h.0 (h.2 ∙ down) in (t.0, t.1 ∙ h.1)

-- The stream is behind with `rest`, which is still to be sent.
record Ends (rest : Bytes) (c t : Connection) : Type 0 where
  sound : IsSound t
  whole : stream t ≡ stream c ++ rest

run-Keeps : {rest : Bytes} {c c' t : Connection} → Keeps c c' → Ends rest c' t → Ends rest c t
run-Keeps {rest} k h = record { sound = h.sound; whole = h.whole ∙ ap (λ s. s ++ rest) k.1 }

run-Adds :
    {xs rest : Bytes} {c c' t : Connection} → Adds xs c c' → Ends rest c' t → Ends (xs ++ rest) c t
run-Adds {xs} {rest} {c} a h = record {
  sound = h.sound;
  whole = h.whole ∙ ap (λ s. s ++ rest) a.added ∙ append_assoc (stream c) xs rest;
}

-- From a sound connection that is up.
run-up :
    (ops : List Op) (c : Connection)
    → IsSound c
    → c.state ≡ connected
    → AllUsable ops
    → Room c (sent ops)
    → Ends (sent ops) c (perform_all ops c)
unfolding perform_all perform
run-up [] c s up usable room = record { sound = s; whole = sym (append-nil (stream c)) }
run-up (sends m r ∷ ops) c s up (u, us) room =
    let size = length-append m (sent ops) in
    let a = send-Adds m c s up (omega (arith, size)) r u in
    run-Adds a
      (run-up ops (send m r c) a.sound (a.same_state ∙ up) us (omega (arith, size, a.growth)))
run-up (writes r ∷ ops) c s up us room =
    let k = handler_write_lem c r s in
    run-Keeps k (run-up ops _ k.0 (k.2 ∙ up) us (omega (arith, k.3)))
run-up (reads x xs ∷ ops) c s up us room =
    let k = reads-Keeps x xs c s in
    run-Keeps k (run-up ops _ k.0 (k.2 ∙ up) us (omega (arith, k.3)))
run-up (read_fails e ∷ ops) c s up us room =
    let k = read_fails-Keeps e c s in
    run-Keeps k (run-up ops _ k.0 (k.2 ∙ up) us (omega (arith, k.3)))
run-up (shuts_down ∷ ops) c s up us room =
    let (sound, same, down, _, _) = shutdown_lem c s up in
    let h = run-down ops (shutdown c) sound down in
    record { sound = h.0; whole = h.1 ∙ same ∙ sym (append-nil (stream c)) }

pub established-IsSound :
    (fd : ℕ)
    → let c = connection_established (init fd) in
      IsSound c × (stream c ≡ []) × (c.state ≡ connected) × (length c.output.buffer ≡ 1032)
unfolding connection_established call init Channel.init Channel.enable_reading Channel.tie
    Channel.is_writing
established-IsSound fd =
    let b = init-IsValid initial_size (omega arith) in
    (
      record {
        valid = b.0;
        waiting = λ e. b.1;
        idle = λ e. refl;
        flushed = λ e. absurd (true≢false (sym e));
      },
      b.1,
      refl,
      init_size initial_size,
    )

-- In every run of a connection from its establishment, with sends, writable and readable events and
-- a shutdown in any order, in which fewer than 2^63 - 1032 bytes are sent and no direct `write` takes
-- more than it is given or answers that the connection is broken: what was written and what is
-- pending are together exactly the bytes sent before the shutdown, in order. When the connection does
-- not wait for the socket, all of them are written; and the writing half is closed only once all are
-- written.
pub in_order :
    (fd : ℕ) (ops : List Op)
    → AllUsable ops
    → 1032 + length (sent ops) < 2 ^ 63
    → let c = perform_all ops (connection_established (init fd)) in
      (c.wire ++ contents c.output ≡ sent ops)
      × (Channel.is_writing c.channel ≡ false → c.wire ≡ sent ops)
      × (c.half_closed ≡ true → c.wire ≡ sent ops)
in_order fd ops usable small =
    let up = connection_established (init fd) in
    let e = established-IsSound fd in
    let h = run-up ops up e.0 e.2 usable (omega (arith, e.3)) in
    let whole = h.whole ∙ ap (λ s. s ++ sent ops) e.1 in
    let all : contents (perform_all ops up).output ≡ [] → (perform_all ops up).wire ≡ sent ops =
      λ none. sym (append-nil _) ∙ ap (◌++◌ (perform_all ops up).wire) (sym none) ∙ whole in
    (whole, λ p. all (h.sound.waiting p), λ p. all (h.sound.flushed p).0)
