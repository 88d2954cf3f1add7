-- ===== src/Net/Connection/Remote.antt =====
-- `send` and `shutdown` of src/net/TcpConnection.cc from another thread than the loop's: the state is
-- tested and changed at once, the rest is a functor in the loop's queue.
use cluster_chat_server.Prelude.{
  ℕ, ◌+◌, ◌^◌, ◌<◌, ◌≤◌, ◌≡◌, ◌≢◌, refl, sym, ap, ◌∙◌, List, [], ◌∷◌, ◌++◌, map, true, arith,
  if◌then◌else◌, length, length-drop, inl, inr, Bool-cases, ◌==◌, ltb,
}
use cluster_chat_server.Prelude.Text.{Bytes}
use cluster_chat_server.Buffer
use cluster_chat_server.Buffer.{Io, failed, done}
use cluster_chat_server.Buffer.Inv.{contents, sizes, length-contents}
use cluster_chat_server.Buffer.Queue.{retrieve_lem}
use cluster_chat_server.Net.Channel
use cluster_chat_server.Net.Connection.{
  Connection, connected, disconnecting, is_state, init, send, send_in_loop, shutdown_in_loop,
  handler_write, drained, queue_functor, handle_read, connection_established,
}
use cluster_chat_server.Net.Connection.Fifo.{IsSound, stream, Usable, send-Adds, when_connected}
use cluster_chat_server.Net.Connection.Drain.{handler_write_lem}
use cluster_chat_server.Net.Connection.Run.{
  Op, sends, writes, reads, read_fails, shuts_down, perform,
}
use cluster_chat_server.Net.Connection.Order.{reads-Keeps, read_fails-Keeps, established-IsSound}

-- A functor of another thread.
pub data Task : Type 0 where
  sends_in_loop : Bytes → Task
  shuts_down_in_loop : Task

-- The connection, and what waits in its loop's queue for it.
pub record Shared : Type 0 where
  pub conn : Connection
  pub tasks : List Task

pub data Event : Type 0 where
  send_elsewhere : Bytes → Event
  shutdown_elsewhere : Event
  -- the loop runs the first functor, with what `write` answers to a text
  runs_task : (Bytes → Io ℕ) → Event
  in_loop : Op → Event

-- `send`, where `isInLoopThread()` is false.
unfoldable pub send_from_other : Bytes → Shared → Shared
send_from_other message s =
    if is_state s.conn.state connected
    then record s { tasks = s.tasks ++ sends_in_loop message ∷ [] }
    else s

unfoldable pub shutdown_from_other : Shared → Shared
shutdown_from_other s =
    if is_state s.conn.state connected
    then record {
      conn = record s.conn { state = disconnecting };
      tasks = s.tasks ++ shuts_down_in_loop ∷ [];
    }
    else s

unfoldable pub run_task : (Bytes → Io ℕ) → Task → Connection → Connection
run_task reply (sends_in_loop message) c = send_in_loop message (reply message) c
run_task reply shuts_down_in_loop c = shutdown_in_loop c

unfoldable pub run_first : (Bytes → Io ℕ) → List Task → Connection → Shared
unfolding run_task
run_first reply [] c = record { conn = c; tasks = [] }
run_first reply (task ∷ tasks) c = record { conn = run_task reply task c; tasks = tasks }

unfoldable pub act : Event → Shared → Shared
unfolding send_from_other shutdown_from_other run_first
act (send_elsewhere message) s = send_from_other message s
act shutdown_elsewhere s = shutdown_from_other s
act (runs_task reply) s = run_first reply s.tasks s.conn
act (in_loop op) s = record s { conn = perform op s.conn }

unfoldable pub act_all : List Event → Shared → Shared
act_all [] s = s
act_all (e ∷ es) s = act_all es (act e s)

-- What is promised: the bytes that have been sent, and the texts that wait, a plain queue.
abbrev pub promised : List Event → Bytes → List Bytes → Bytes × List Bytes
promised [] out queue = (out, queue)
promised (send_elsewhere message ∷ es) out queue = promised es out (queue ++ message ∷ [])
promised (shutdown_elsewhere ∷ es) out queue = promised es out queue
promised (runs_task reply ∷ es) out [] = promised es out []
promised (runs_task reply ∷ es) out (message ∷ queue) = promised es (out ++ message) queue
promised (in_loop (sends message reply) ∷ es) out queue = promised es (out ++ message) queue
promised (in_loop (writes reply) ∷ es) out queue = promised es out queue
promised (in_loop (reads x xs) ∷ es) out queue = promised es out queue
promised (in_loop (read_fails errno) ∷ es) out queue = promised es out queue
promised (in_loop shuts_down ∷ es) out queue = promised es out queue

-- How many bytes are given to `send`.
abbrev pub given : List Event → ℕ
given [] = 0
given (send_elsewhere message ∷ es) = length message + given es
given (shutdown_elsewhere ∷ es) = given es
given (runs_task reply ∷ es) = given es
given (in_loop (sends message reply) ∷ es) = length message + given es
given (in_loop (writes reply) ∷ es) = given es
given (in_loop (reads x xs) ∷ es) = given es
given (in_loop (read_fails errno) ∷ es) = given es
given (in_loop shuts_down ∷ es) = given es

-- Nobody calls `shutdown`, and no `write` takes more than it is given or answers that the connection
-- is broken.
abbrev pub StaysUp : List Event → Type 0
StaysUp [] = Unit
StaysUp (send_elsewhere message ∷ es) = StaysUp es
StaysUp (shutdown_elsewhere ∷ es) = ⊥
StaysUp (runs_task reply ∷ es) = ((m : Bytes) → Usable (length m) (reply m)) × StaysUp es
StaysUp (in_loop (sends message reply) ∷ es) = Usable (length message) reply × StaysUp es
StaysUp (in_loop (writes reply) ∷ es) = StaysUp es
StaysUp (in_loop (reads x xs) ∷ es) = StaysUp es
StaysUp (in_loop (read_fails errno) ∷ es) = StaysUp es
StaysUp (in_loop shuts_down ∷ es) = ⊥

abbrev pub bytes_of : List Bytes → ℕ
bytes_of [] = 0
bytes_of (m ∷ ms) = length m + bytes_of ms

pub bytes_of-append :
    (ms : List Bytes) (m : Bytes) → bytes_of (ms ++ m ∷ []) ≡ bytes_of ms + length m
bytes_of-append [] m = omega arith
bytes_of-append (x ∷ ms) m = omega (arith, bytes_of-append ms m)

pub map-append :
    (ms : List Bytes) (m : Bytes)
    → map sends_in_loop (ms ++ m ∷ []) ≡ map sends_in_loop ms ++ sends_in_loop m ∷ []
map-append [] m = refl
map-append (x ∷ ms) m = ap (◌∷◌ (sends_in_loop x)) (map-append ms m)

-- The connection is up with these bytes, and these texts wait.
pub record Has (out : Bytes) (queue : List Bytes) (s : Shared) : Type 0 where
  pub sound : IsSound s.conn
  pub up : s.conn.state ≡ connected
  pub whole : stream s.conn ≡ out
  pub waiting : s.tasks ≡ map sends_in_loop queue

pub send_in_loop-send :
    (m : Bytes) (r : Io ℕ) (c : Connection) → c.state ≡ connected → send_in_loop m r c ≡ send m r c
unfolding send
send_in_loop-send m r c up = rw (when_connected c.state up).0 refl

-- One text goes through `send` of the loop's thread.
pub sent-Has :
    (m : Bytes) (r : Io ℕ) (out : Bytes) (queue : List Bytes) (c : Connection)
    → IsSound c
    → c.state ≡ connected
    → stream c ≡ out
    → Usable (length m) r
    → length c.output.buffer + length m < 2 ^ 63
    → let t = send m r c in
      Has (out ++ m) queue (record { conn = t; tasks = map sends_in_loop queue })
      × (length t.output.buffer ≤ length c.output.buffer + length m)
sent-Has m r out queue c sound up whole usable room =
    let a = send-Adds m c sound up room r usable in
    (
      record {
        sound = a.sound;
        up = a.same_state ∙ up;
        whole = a.added ∙ ap (λ t. t ++ m) whole;
        waiting = refl;
      },
      a.growth,
    )

refines :
    (es : List Event) (s : Shared) (out : Bytes) (queue : List Bytes)
    → Has out queue s
    → StaysUp es
    → length s.conn.output.buffer + bytes_of queue + given es < 2 ^ 63
    → let p = promised es out queue in Has p.0 p.1 (act_all es s)
unfolding act_all act send_from_other run_first run_task perform
refines [] s out queue h up room = h
refines (send_elsewhere m ∷ es) s out queue h up room = rw (when_connected s.conn.state h.up).0 (
    refines es (record s { tasks = s.tasks ++ sends_in_loop m ∷ [] }) out (queue ++ m ∷ [])
      (record {
        sound = h.sound;
        up = h.up;
        whole = h.whole;
        waiting = ap (λ t. t ++ sends_in_loop m ∷ []) h.waiting ∙ sym (map-append queue m);
      })
      up (omega (arith, room, bytes_of-append queue m)))
refines (shutdown_elsewhere ∷ es) s out queue h up room = elim up [ ]
refines (runs_task reply ∷ es) s out [] h (usable, up) room = rw h.waiting (
    refines es (record { conn = s.conn; tasks = [] }) out []
      (record { sound = h.sound; up = h.up; whole = h.whole; waiting = refl }) up room)
refines (runs_task reply ∷ es) s out (m ∷ queue) h (usable, up) room =
    let (has, size) =
      sent-Has m (reply m) out queue s.conn h.sound h.up h.whole (usable m) (omega (arith, room)) in
    rw (h.waiting, send_in_loop-send m (reply m) s.conn h.up)
      (refines es (record { conn = send m (reply m) s.conn; tasks = map sends_in_loop queue })
        (out ++ m) queue has up (omega (arith, room, size)))
refines (in_loop (sends m reply) ∷ es) s out queue h (usable, up) room =
    let (has, size) =
      sent-Has m reply out queue s.conn h.sound h.up h.whole usable (omega (arith, room)) in
    refines es (record s { conn = send m reply s.conn }) (out ++ m) queue
      (record { sound = has.sound; up = has.up; whole = has.whole; waiting = h.waiting }) up
      (omega (arith, room, size))
refines (in_loop (writes reply) ∷ es) s out queue h up room =
    let k = handler_write_lem s.conn reply h.sound in
    refines es (record s { conn = handler_write reply s.conn }) out queue
      (record { sound = k.0; up = k.2 ∙ h.up; whole = k.1 ∙ h.whole; waiting = h.waiting }) up
      (omega (arith, room, k.3))
refines (in_loop (reads x xs) ∷ es) s out queue h up room =
    let k = reads-Keeps x xs s.conn h.sound in
    refines es (record s { conn = handle_read (done (x ∷ xs)) s.conn }) out queue
      (record { sound = k.0; up = k.2 ∙ h.up; whole = k.1 ∙ h.whole; waiting = h.waiting }) up
      (omega (arith, room, k.3))
refines (in_loop (read_fails errno) ∷ es) s out queue h up room =
    let k = read_fails-Keeps errno s.conn h.sound in
    refines es (record s { conn = handle_read (failed errno) s.conn }) out queue
      (record { sound = k.0; up = k.2 ∙ h.up; whole = k.1 ∙ h.whole; waiting = h.waiting }) up
      (omega (arith, room, k.3))
refines (in_loop shuts_down ∷ es) s out queue h up room = elim up [ ]

-- In every run of a connection from its establishment in which nobody calls `shutdown`, no `write`
-- takes more than it is given or answers that the connection is broken, and fewer than 2^63 - 1032
-- bytes are given to `send`, in the loop's thread and in others: what is written and pending is
-- exactly what a plain queue promises, which holds what other threads send until the loop runs the
-- functor, and the functors that wait are those of the queue.
pub queue_promise :
    (fd : ℕ) (es : List Event)
    → StaysUp es
    → 1032 + given es < 2 ^ 63
    → let t = act_all es (record { conn = connection_established (init fd); tasks = [] }) in
      let p = promised es [] [] in
      (t.conn.wire ++ contents t.conn.output ≡ p.0)
      × (t.tasks ≡ map sends_in_loop p.1)
      × (t.conn.state ≡ connected)
queue_promise fd es up room =
    let (sound, none_yet, is_up, size) = established-IsSound fd in
    let h =
      refines es (record { conn = connection_established (init fd); tasks = [] }) [] []
        (record { sound = sound; up = is_up; whole = none_yet; waiting = refl }) up
        (omega (arith, room, size)) in
    (h.whole, h.waiting, h.up)

-- The state that `shutdown` sets first keeps the connection sound.
leaving-IsSound :
    (c : Connection)
    → IsSound c
    → c.state ≡ connected
    → IsSound (record c { state = disconnecting })
leaving-IsSound c s up = record {
  valid = s.valid;
  waiting = s.waiting;
  idle = s.idle;
  flushed = λ p. ((s.flushed p).0, λ q. cc);
}

positive : (xs : Bytes) → xs ≢ [] → 0 < length xs
positive [] h = absurd (h refl)
positive (x ∷ xs) h = omega arith

drained-closed : (c : Connection) → c.state ≡ disconnecting → (drained c).half_closed ≡ true
unfolding drained shutdown_in_loop queue_functor Channel.is_writing Channel.disable_writing
drained-closed c down = elim (Bool-cases c.has_write_complete) [
  | inl e ↦ rw (e, down) (ground arith)
  | inr e ↦ rw (e, down) (ground arith)
]

-- A shutdown that waits for the pending bytes is carried out when the socket takes them.
drained_closes :
    (c : Connection) (n : ℕ)
    → IsSound c
    → c.state ≡ disconnecting
    → contents c.output ≢ []
    → length (contents c.output) ≤ n
    → (handler_write (done n) c).half_closed ≡ true
unfolding handler_write
drained_closes c n s down some_left all =
    let on : Channel.is_writing c.channel ≡ true =
      elim (Bool-cases (Channel.is_writing c.channel)) [
        | inl e ↦ e
        | inr e ↦ absurd (some_left (s.waiting e))
      ] in
    let pos : ltb 0 n ≡ true = ground (arith, positive (contents c.output) some_left, all) in
    let left = retrieve_lem n s.valid in
    let none_left : (Buffer.readable_bytes (Buffer.retrieve c.output n) == 0) ≡ true = ground (
      arith,
      sizes left.0,
      length-contents left.0,
      ap length left.1,
      length-drop n (contents c.output),
      all,
    ) in
    rw (on, pos, none_left) (drained-closed _ down)

-- On a sound connection that is up, waits for the socket and has an empty functor queue: if another
-- thread sends a text and then shuts down, and the socket takes all that is pending before the loop
-- runs the functors, then the writing half is closed while the text is still in the queue, and what
-- has been written is what was there before.
pub closed_before_sent :
    (m : Bytes) (c : Connection) (n : ℕ)
    → IsSound c
    → c.state ≡ connected
    → contents c.output ≢ []
    → length (contents c.output) ≤ n
    → let s : Shared = record { conn = c; tasks = [] } in
      let t = act_all (send_elsewhere m ∷ shutdown_elsewhere ∷ in_loop (writes (done n)) ∷ []) s in
      (t.conn.half_closed ≡ true)
      × (t.conn.wire ++ contents t.conn.output ≡ stream c)
      × (t.tasks ≡ sends_in_loop m ∷ shuts_down_in_loop ∷ [])
unfolding act_all act send_from_other shutdown_from_other perform
closed_before_sent m c n sound up some_left all =
    let leaving : Connection = record c { state = disconnecting } in
    let k = handler_write_lem leaving (done n) (leaving-IsSound c sound up) in
    let is_up = (when_connected c.state up).0 in
    rw (is_up, is_up)
      (drained_closes leaving n (leaving-IsSound c sound up) refl some_left all, k.1, refl)
