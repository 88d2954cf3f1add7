-- ===== src/System/Stream.antt =====
-- From what the service sends to what is on the wire of one connection.
pub mod Events
use cluster_chat_server.Prelude.{
  ℕ, suc, ◌+◌, ◌^◌, ◌≤◌, ◌<◌, ◌≡◌, refl, sym, ap, subst, ◌∙◌, ◌⊎◌, inl, inr, ◌==◌, Bool, true,
  false, Bool-cases, if◌then◌else◌, List, [], ◌∷◌, ◌++◌, map, length, length-append, arith,
}
use mathlib.Core.List.{append-nil, append_assoc}
use cluster_chat_server.Prelude.Text.{Bytes}
use cluster_chat_server.Buffer.{Io}
use cluster_chat_server.Net.Channel
use cluster_chat_server.Net.Connection
use cluster_chat_server.Net.Connection.{
  Connection, connected, disconnected, is_state, send, send_in_loop, shutdown_in_loop,
}
use cluster_chat_server.Net.Connection.Fifo.{IsSound, stream, Usable, when_connected}
use cluster_chat_server.Net.Connection.Remote.{
  Shared, Task, sends_in_loop, shuts_down_in_loop, send_from_other, run_task, run_first, Has,
  bytes_of, bytes_of-append, map-append, send_in_loop-send, sent-Has,
}
use cluster_chat_server.Service.State.{Conn}
use cluster_chat_server.System.{Entry, gave, ran}

-- What one connection is promised: the bytes that are its own, and the texts that wait, a plain queue.
abbrev pub Promise : Type 0
Promise = Bytes × List Bytes

abbrev pub nothing : Promise
nothing = ([], [])

abbrev pub first_out : Bytes → List Bytes → Promise
first_out out [] = (out, [])
first_out out (text ∷ queue) = (out ++ text, queue)

-- A text of the connection's own thread is its own at once, one of another thread waits.
abbrev pub promise_one : Conn → Entry → Promise → Promise
promise_one conn (gave other here text) p =
    if conn == other then (if here then (p.0 ++ text, p.1) else (p.0, p.1 ++ text ∷ [])) else p
promise_one conn (ran other) p = if conn == other then first_out p.0 p.1 else p

abbrev pub promise : Conn → List Entry → Promise → Promise
promise conn [] p = p
promise conn (e ∷ es) p = promise conn es (promise_one conn e p)

pub promise-append :
    (conn : Conn) (xs ys : List Entry) (p : Promise)
    → promise conn (xs ++ ys) p ≡ promise conn ys (promise conn xs p)
promise-append conn [] ys p = refl
promise-append conn (e ∷ xs) ys p = promise-append conn xs ys (promise_one conn e p)

-- All the bytes together stay below the bound of a buffer.
abbrev pub Fits : Promise → Type 0
Fits p = 1032 + (length p.0 + bytes_of p.1) < 2 ^ 63

first_out-size :
    (out : Bytes) (queue : List Bytes)
    → length (first_out out queue).0 + bytes_of (first_out out queue).1
      ≡ length out + bytes_of queue
first_out-size out [] = refl
first_out-size out (text ∷ queue) = omega (arith, length-append out text)

Fits-before_one : (conn : Conn) (e : Entry) (p : Promise) → Fits (promise_one conn e p) → Fits p
Fits-before_one conn (gave other here text) p fits = elim (Bool-cases (conn == other)) [
  | inr e ↦ rw e at fits
  | inl e ↦ elim (Bool-cases here) [
    | inl h ↦
        let f : Fits (p.0 ++ text, p.1) = rw (e, h) at fits in
        omega (arith, f, length-append p.0 text)
    | inr h ↦
        let f : Fits (p.0, p.1 ++ text ∷ []) = rw (e, h) at fits in
        omega (arith, f, bytes_of-append p.1 text)
  ]
]
Fits-before_one conn (ran other) p fits = elim (Bool-cases (conn == other)) [
  | inr e ↦ rw e at fits
  | inl e ↦
      let f : Fits (first_out p.0 p.1) = rw e at fits in omega (arith, f, first_out-size p.0 p.1)
]

pub Fits-before : (conn : Conn) (es : List Entry) (p : Promise) → Fits (promise conn es p) → Fits p
Fits-before conn [] p fits = fits
Fits-before conn (e ∷ es) p fits =
    Fits-before_one conn e p (Fits-before conn es (promise_one conn e p) fits)

-- The connection is up, and has exactly what it is promised.
pub record Up (p : Promise) (c : Shared) : Type 0 where
  pub has : Has p.0 p.1 c
  pub size : length c.conn.output.buffer ≤ 1032 + length p.0

-- The connection is down, and had the first of the bytes `xs`.
pub record Cut (xs : Bytes) (c : Connection) : Type 0 where
  pub rest : Bytes
  pub part : stream c ++ rest ≡ xs
  pub state : c.state ≡ disconnected
  pub quiet : Channel.is_writing c.channel ≡ false

abbrev pub Got : Promise → Shared → Type 0
Got p c = Up p c ⊎ Cut p.0 c.conn

Cut-more : (xs ys : Bytes) (c : Connection) → Cut xs c → Cut (xs ++ ys) c
Cut-more xs ys c k = record {
  rest = k.rest ++ ys;
  part = sym (append_assoc (stream c) k.rest ys) ∙ ap (λ t. t ++ ys) k.part;
  state = k.state;
  quiet = k.quiet;
}

not_up : (c : Connection) → c.state ≡ disconnected → is_state c.state connected ≡ false
not_up c down = rw down refl

send_down : (m : Bytes) (r : Io ℕ) (c : Connection) → c.state ≡ disconnected → send m r c ≡ c
unfolding send
send_down m r c down = rw (not_up c down) refl

pub send_here-Got :
    (m : Bytes) (r : Io ℕ) (p : Promise) (c : Shared)
    → Usable (length m) r
    → Fits (p.0 ++ m, p.1)
    → Got p c
    → Got (p.0 ++ m, p.1) (record c { conn = send m r c.conn })
send_here-Got m r p c usable fits (inl u) =
    let (h, growth) =
      sent-Has m r p.0 p.1 c.conn u.has.sound u.has.up u.has.whole usable
        (omega (arith, fits, u.size, length-append p.0 m)) in
    inl (record {
      has = record { sound = h.sound; up = h.up; whole = h.whole; waiting = u.has.waiting };
      size = omega (arith, growth, u.size, length-append p.0 m);
    })
send_here-Got m r p c usable fits (inr k) =
    inr (subst (Cut (p.0 ++ m)) (sym (send_down m r c.conn k.state)) (Cut-more p.0 m c.conn k))

pub send_elsewhere-Got :
    (m : Bytes) (p : Promise) (c : Shared)
    → Got p c
    → Got (p.0, p.1 ++ m ∷ []) (send_from_other m c)
unfolding send_from_other
send_elsewhere-Got m p c (inl u) = rw (when_connected c.conn.state u.has.up).0 (
    inl (record {
      has = record {
        sound = u.has.sound;
        up = u.has.up;
        whole = u.has.whole;
        waiting = ap (λ t. t ++ sends_in_loop m ∷ []) u.has.waiting ∙ sym (map-append p.1 m);
      };
      size = u.size;
    }))
send_elsewhere-Got m p c (inr k) = rw (not_up c.conn k.state) (inr k)

first_dropped :
    (reply : Bytes → Io ℕ) (tasks : List Task) (xs : Bytes) (c : Connection)
    → Cut xs c
    → Cut xs (run_first reply tasks c).conn
unfolding run_first run_task send_in_loop shutdown_in_loop
first_dropped reply [] xs c k = k
first_dropped reply (sends_in_loop m ∷ tasks) xs c k =
    let down : is_state c.state disconnected ≡ true = rw k.state refl in rw down k
first_dropped reply (shuts_down_in_loop ∷ tasks) xs c k =
    rw k.quiet record { rest = k.rest; part = k.part; state = k.state; quiet = k.quiet }

first_sent :
    (reply : Bytes → Io ℕ) (out : Bytes) (queue : List Bytes) (c : Shared)
    → ((m : Bytes) → Usable (length m) (reply m))
    → Fits (first_out out queue)
    → Up (out, queue) c
    → Up (first_out out queue) (run_first reply c.tasks c.conn)
unfolding run_first run_task
first_sent reply out [] c usable fits u = rw u.has.waiting record {
  has = record { sound = u.has.sound; up = u.has.up; whole = u.has.whole; waiting = refl };
  size = u.size;
}
first_sent reply out (m ∷ queue) c usable fits u =
    let (h, growth) =
      sent-Has m (reply m) out queue c.conn u.has.sound u.has.up u.has.whole (usable m)
        (omega (arith, fits, u.size, length-append out m)) in
    rw (u.has.waiting, send_in_loop-send m (reply m) c.conn u.has.up)
      record { has = h; size = omega (arith, growth, u.size, length-append out m) }

first_out-Cut :
    (out : Bytes) (queue : List Bytes) (c : Connection) → Cut out c → Cut (first_out out queue).0 c
first_out-Cut out [] c k = k
first_out-Cut out (m ∷ queue) c k = Cut-more out m c k

pub run_first-Got :
    (reply : Bytes → Io ℕ) (p : Promise) (c : Shared)
    → ((m : Bytes) → Usable (length m) (reply m))
    → Fits (first_out p.0 p.1)
    → Got p c
    → Got (first_out p.0 p.1) (run_first reply c.tasks c.conn)
run_first-Got reply p c usable fits (inl u) = inl (first_sent reply p.0 p.1 c usable fits u)
run_first-Got reply p c usable fits (inr k) =
    inr (first_dropped reply c.tasks _ c.conn (first_out-Cut p.0 p.1 c.conn k))
