-- ===== src/System/Stream/Events.antt =====
-- What the events of the loops and the texts of the service leave of one connection's promise.
use cluster_chat_server.Prelude.{
  ℕ, suc, ◌≡◌, refl, sym, subst, ◌∙◌, inl, inr, ◌==◌, Bool, true, false, Bool-cases, List, [],
  if◌then◌else◌, ◌∷◌, ◌++◌, length, arith,
}
use mathlib.Core.List.{append-nil}
use cluster_chat_server.Prelude.Text.{Bytes}
use cluster_chat_server.Buffer.{Buffer, Io, failed, done}
use cluster_chat_server.Net.Channel
use cluster_chat_server.Net.Connection
use cluster_chat_server.Net.Connection.{
  Connection, handle_read, handler_write, handler_close, call, disconnected,
}
use cluster_chat_server.Net.Connection.Fifo.{stream, Usable}
use cluster_chat_server.Net.Connection.Drain.{handler_write_lem}
use cluster_chat_server.Net.Connection.Remote.{Shared}
use cluster_chat_server.Service.State.{Conn}
use cluster_chat_server.System.{Kernel, gave, entries, set_link, set_conn, send_text, send_texts}
use cluster_chat_server.System.Stream.{
  Promise, promise, promise_one, Got, Cut, Fits, Fits-before, send_here-Got, send_elsewhere-Got,
}

write_quiet :
    (r : Io ℕ) (c : Connection) → Channel.is_writing c.channel ≡ false → handler_write r c ≡ c
unfolding handler_write
write_quiet (failed e) c q = refl
write_quiet (done n) c q = rw q refl

pub write-Got :
    (r : Io ℕ) (p : Promise) (c : Shared)
    → Got p c
    → Got p (record c { conn = handler_write r c.conn })
write-Got r p c (inl u) =
    let k = handler_write_lem c.conn r u.has.sound in
    inl (record {
      has = record {
        sound = k.0;
        up = k.2 ∙ u.has.up;
        whole = k.1 ∙ u.has.whole;
        waiting = u.has.waiting;
      };
      size = omega (arith, k.3, u.size);
    })
write-Got r p c (inr k) = inr (subst (Cut p.0) (sym (write_quiet r c.conn k.quiet)) k)

-- What is read is no part of the stream.
pub input-Got :
    (b : Buffer) (p : Promise) (c : Shared)
    → Got p c
    → Got p (record c { conn = record c.conn { input = b } })
input-Got b p c (inl u) = inl (record {
  has = record {
    sound = record {
      valid = u.has.sound.valid;
      waiting = u.has.sound.waiting;
      idle = u.has.sound.idle;
      flushed = u.has.sound.flushed;
    };
    up = u.has.up;
    whole = u.has.whole;
    waiting = u.has.waiting;
  };
  size = u.size;
})
input-Got b p c (inr k) =
    inr (record { rest = k.rest; part = k.part; state = k.state; quiet = k.quiet })

call-Got :
    (f : Connection.Callback) (p : Promise) (c : Shared)
    → Got p c
    → Got p (record c { conn = call f c.conn })
unfolding call
call-Got f p c (inl u) = inl (record {
  has = record {
    sound = record {
      valid = u.has.sound.valid;
      waiting = u.has.sound.waiting;
      idle = u.has.sound.idle;
      flushed = u.has.sound.flushed;
    };
    up = u.has.up;
    whole = u.has.whole;
    waiting = u.has.waiting;
  };
  size = u.size;
})
call-Got f p c (inr k) =
    inr (record { rest = k.rest; part = k.part; state = k.state; quiet = k.quiet })

got_part : (p : Promise) (c : Shared) → Got p c → (rest : Bytes) × (stream c.conn ++ rest ≡ p.0)
got_part p c (inl u) = ([], append-nil (stream c.conn) ∙ u.has.whole)
got_part p c (inr k) = (k.rest, k.part)

pub close-Got :
    (p : Promise) (c : Shared) → Got p c → Got p (record c { conn = handler_close c.conn })
unfolding handler_close call Channel.disable_all Channel.is_writing
close-Got p c g =
    let (rest, part) = got_part p c g in
    inr (record { rest = rest; part = part; state = refl; quiet = refl })

pub read-Got :
    (r : Io Bytes) (p : Promise) (c : Shared)
    → Got p c
    → Got p (record c { conn = handle_read r c.conn })
unfolding handle_read
read-Got (failed e) p c (inl u) = inl (record {
  has = record { sound = u.has.sound; up = u.has.up; whole = u.has.whole; waiting = u.has.waiting };
  size = u.size;
})
read-Got (failed e) p c (inr k) = inr k
read-Got (done []) p c g = close-Got p c g
read-Got (done (y ∷ ys)) p c g = call-Got _ p _ (input-Got _ p c g)

-- A new link of one connection, seen from another or the same one.
pub set_link-Got :
    (conn other : Conn) (c : Shared) (links : Conn → Shared) (p : Promise)
    → (Got p (links other) → Got p c)
    → Got p (links conn)
    → Got p (set_link other c links conn)
unfolding set_link
set_link-Got conn other c links p f g = elim (Bool-cases (conn == other)) [
  | inl e ↦ let same : conn ≡ other = ground arith in rw e (f (subst (λ o. Got p (links o)) same g))
  | inr e ↦ rw e g
]

pub set_conn-Got :
    (conn other : Conn) (c : Connection) (links : Conn → Shared) (p : Promise)
    → (Got p (links other) → Got p (record (links other) { conn = c }))
    → Got p (links conn)
    → Got p (set_conn other c links conn)
unfolding set_conn
set_conn-Got conn other c links p f g = set_link-Got conn other _ links p f g

send_text-Got :
    (here : Bool) (m : Bytes) (r : Io ℕ) (p : Promise) (c : Shared)
    → Usable (length m) r
    → Fits (if here then (p.0 ++ m, p.1) else (p.0, p.1 ++ m ∷ []))
    → Got p c
    → Got (if here then (p.0 ++ m, p.1) else (p.0, p.1 ++ m ∷ [])) (send_text here m r c)
unfolding send_text
send_text-Got true m r p c usable fits g = send_here-Got m r p c usable fits g
send_text-Got false m r p c usable fits g = send_elsewhere-Got m p c g

-- One text to any connection.
one_text-Got :
    (conn other : Conn) (here : Bool) (m : Bytes) (r : Io ℕ) (links : Conn → Shared) (p : Promise)
    → Usable (length m) r
    → Fits (promise_one conn (gave other here m) p)
    → Got p (links conn)
    → Got
        (promise_one conn (gave other here m) p)
        (set_link other (send_text here m r (links other)) links conn)
unfolding set_link
one_text-Got conn other here m r links p usable fits g = elim (Bool-cases (conn == other)) [
  | inr e ↦ rw e g
  | inl e ↦
      let same : conn ≡ other = ground arith in
      rw e (
        send_text-Got here m r p (links other) usable (rw e at fits)
          (subst (λ o. Got p (links o)) same g))
]

-- All the texts that the service has for the connections, one after another.
pub send_texts-Got :
    (kernel : Kernel) (conn : Conn) (here : Conn → Bool)
    → ((k : ℕ) (m : Bytes) → Usable (length m) (kernel k m))
    → (texts : List (Conn × Bytes)) (k : ℕ) (links : Conn → Shared) (p : Promise)
    → Fits (promise conn (entries here texts) p)
    → Got p (links conn)
    → Got (promise conn (entries here texts) p) (send_texts kernel here k texts links conn)
unfolding send_texts
send_texts-Got kernel conn here usable [] k links p fits g = g
send_texts-Got kernel conn here usable ((other, text) ∷ texts) k links p fits g =
    let e = gave other (here other) text in
    let first = promise_one conn e p in
    send_texts-Got kernel conn here usable texts (suc k)
      (set_link other (send_text (here other) text (kernel k text) (links other)) links) first fits
      (one_text-Got conn other (here other) text (kernel k text) links p (usable k text)
        (Fits-before conn (entries here texts) first fits) g)
