-- ===== src/System/Answers.antt =====
-- From the requests of the clients to the bytes on the wire of one of them.
use cluster_chat_server.Prelude.{ℕ, ◌≡◌, sym, ap, subst, ◌∙◌, [], List, some, map, length}
use cluster_chat_server.Prelude.Text.{Bytes}
use cluster_chat_server.Json.{JsonLib}
use cluster_chat_server.Json.Laws.{JsonLaws}
use cluster_chat_server.Sql.{MySql}
use cluster_chat_server.Net.Connection.Fifo.{Usable}
use cluster_chat_server.Service.State.{Conn}
use cluster_chat_server.System.{System, Kernel, run}
use cluster_chat_server.System.Stream.{nothing, promise, Fits}
use cluster_chat_server.System.Wire.{fresh, Kept, on_wire}
use cluster_chat_server.System.Requests.{
  Arrival, event_of, total, AllProper, AllReady, serve, served_all,
}

module _ ⦃J : JsonLib⦄ (laws : JsonLaws J) ⦃S : MySql⦄ (kernel : Kernel)
    (usable : (k : ℕ) (m : Bytes) → Usable (length m) (kernel k m)) (loop_of : Conn → ℕ)
    (conn : Conn) where
  -- With a JSON library that reads back what it wrote, and `write` calls that take no more than
  -- they are given and find no broken connection: when each request of a client, with `int` ids and
  -- of at most 65535 bytes, arrives as a segment of its own at a server that has sent nothing yet,
  -- its input buffers empty and bounded, in any order and between ends of connections and functors
  -- that the loops run, then the server runs to the end and serves the requests and the ends one
  -- after another. If the texts for a connection that was just established have fewer than
  -- 2^63 - 1032 bytes, it keeps the promise of these texts: those of handlers in the thread of its
  -- loop at once, the others when its loop comes to their functors, are written or pending in this
  -- order, all of them if it is up at the end, and the first bytes of them if it is down.
  pub answered :
      (arrivals : List Arrival) (s : System) (fd : ℕ)
      → s.log ≡ []
      → s.links conn ≡ fresh fd
      → AllProper arrivals
      → AllReady (total arrivals) s.links
      → Fits (promise conn (serve loop_of arrivals s.service []).1 nothing)
      → let final = serve loop_of arrivals s.service [] in
        (t : System) × (run kernel loop_of (map event_of arrivals) s ≡ some t)
        × (t.service ≡ final.0)
        × Kept (promise conn final.1 nothing) (t.links conn)
  answered arrivals s fd empty link proper all fits =
      let (t, ran, same) = served_all laws kernel loop_of arrivals s proper all in
      let final = same ∙ ap (serve loop_of arrivals s.service) empty in
      let texts = ap (λ p. promise conn p.1 nothing) final in
      (
        t,
        ran,
        ap (λ p. p.0) final,
        subst (λ p. Kept p (t.links conn)) texts
            (on_wire kernel usable loop_of conn (map event_of arrivals) s t fd empty link ran
              (subst Fits (sym texts) fits)),
      )
