-- ===== src/System/Order.antt =====
-- Texts from one side: all from the thread of a connection's own loop, or all from other threads.
use cluster_chat_server.Prelude.{
  ℕ, ◌≡◌, refl, sym, ap, ◌∙◌, inl, inr, ◌==◌, Bool, true, false, Bool-cases, if◌then◌else◌, List,
  [], ◌∷◌, ◌++◌, map, length, some, arith,
}
use mathlib.Core.Bool.{true≢false}
use mathlib.Core.List.{append-nil, append_assoc}
use cluster_chat_server.Prelude.Text.{Bytes}
use cluster_chat_server.Buffer.Inv.{contents}
use cluster_chat_server.Json.{JsonLib}
use cluster_chat_server.Sql.{MySql}
use cluster_chat_server.Net.Connection.{
  connected, disconnected, is_state, connection_established, call,
}
use cluster_chat_server.Net.Connection.Fifo.{Usable}
use cluster_chat_server.Net.Connection.Remote.{Shared, Task, sends_in_loop, shuts_down_in_loop}
use cluster_chat_server.Service.State.{Conn}
use cluster_chat_server.System.{System, Kernel, Entry, gave, ran, Event, run}
use cluster_chat_server.System.Stream.{Promise, nothing, promise, first_out, Fits}
use cluster_chat_server.System.Wire.{fresh, on_wire}
use cluster_chat_server.System.Ended.{NeverEnds, stays_up}

-- Everything that was sent to one connection.
abbrev pub to : Conn → List Entry → Bytes
to conn [] = []
to conn (gave other here text ∷ rest) =
    let texts = to conn rest in if conn == other then text ++ texts else texts
to conn (ran other ∷ rest) = to conn rest

-- Every text for the connection was sent in the thread of its loop, or none.
abbrev pub From : Bool → Conn → List Entry → Type 0
From side conn [] = Unit
From side conn (gave other here text ∷ rest) = (conn ≡ other → here ≡ side) × From side conn rest
From side conn (ran other ∷ rest) = From side conn rest

-- The texts that wait in the queue of the loop.
abbrev pub texts_of : List Task → Bytes
texts_of [] = []
texts_of (sends_in_loop text ∷ tasks) = text ++ texts_of tasks
texts_of (shuts_down_in_loop ∷ tasks) = texts_of tasks

abbrev all_of : Promise → Bytes
all_of p = p.0 ++ texts_of (map sends_in_loop p.1)

texts_of-snoc :
    (queue : List Bytes) (text : Bytes)
    → texts_of (map sends_in_loop (queue ++ text ∷ [])) ≡ texts_of (map sends_in_loop queue) ++ text
texts_of-snoc [] text = append-nil text
texts_of-snoc (m ∷ queue) text =
    ap (◌++◌ m) (texts_of-snoc queue text) ∙ sym (append_assoc m _ text)

first_out-all :
    (out : Bytes) (queue : List Bytes) → all_of (first_out out queue) ≡ all_of (out, queue)
first_out-all out [] = refl
first_out-all out (m ∷ queue) = append_assoc out m _

all_of-later : (p : Promise) (text : Bytes) → all_of (p.0, p.1 ++ text ∷ []) ≡ all_of p ++ text
all_of-later p text = ap (◌++◌ p.0) (texts_of-snoc p.1 text) ∙ sym (append_assoc p.0 _ text)

-- Texts of other threads queue up, and leave the queue in order.
others_all :
    (conn : Conn) (es : List Entry) (p : Promise)
    → From false conn es
    → all_of (promise conn es p) ≡ all_of p ++ to conn es
others_all conn [] p from = sym (append-nil (all_of p))
others_all conn (gave other here text ∷ es) p (one, from) = elim (Bool-cases (conn == other)) [
  | inr e ↦ rw (e, promise) (others_all conn es p from)
  | inl e ↦
      let same : conn ≡ other = ground arith in
      rw (e, one same, promise)
        (others_all conn es (p.0, p.1 ++ text ∷ []) from
          ∙ ap (λ t. t ++ to conn es) (all_of-later p text)
          ∙ append_assoc (all_of p) text (to conn es))
]
others_all conn (ran other ∷ es) p from = elim (Bool-cases (conn == other)) [
  | inr e ↦ rw (e, promise) (others_all conn es p from)
  | inl e ↦
      rw (e, promise)
        (others_all conn es (first_out p.0 p.1) from
          ∙ ap (λ t. t ++ to conn es) (first_out-all p.0 p.1))
]

-- Texts of the own thread do not wait.
own_all :
    (conn : Conn) (es : List Entry) (out : Bytes)
    → From true conn es
    → promise conn es (out, []) ≡ (out ++ to conn es, [])
own_all conn [] out from = ap (λ t. (t, [])) (sym (append-nil out))
own_all conn (gave other here text ∷ es) out (one, from) = elim (Bool-cases (conn == other)) [
  | inr e ↦ rw e (own_all conn es out from)
  | inl e ↦
      let same : conn ≡ other = ground arith in
      rw (e, one same)
        (own_all conn es (out ++ text) from
          ∙ ap (λ t. (t, [])) (append_assoc out text (to conn es)))
]
own_all conn (ran other ∷ es) out from = elim (Bool-cases (conn == other)) [
  | inr e ↦ rw e (own_all conn es out from)
  | inl e ↦ rw e (own_all conn es out from)
]

one_side :
    (side : Bool) (conn : Conn) (es : List Entry)
    → From side conn es
    → all_of (promise conn es nothing) ≡ to conn es
one_side false conn es from = others_all conn es nothing from
one_side true conn es from = ap all_of (own_all conn es [] from) ∙ append-nil (to conn es)

fresh_up : (fd : ℕ) (c : Shared) → c ≡ fresh fd → c.conn.state ≡ connected
unfolding connection_established call
fresh_up fd c link = ap (λ (x : Shared). x.conn.state) link

module _ ⦃J : JsonLib⦄ ⦃S : MySql⦄ (kernel : Kernel)
    (usable : (k : ℕ) (m : Bytes) → Usable (length m) (kernel k m)) (loop_of : Conn → ℕ)
    (conn : Conn) where
  -- For every run of the server in which no `write` of a text takes more than it is given or
  -- answers that the connection is broken, from the moment that a connection is established, and in
  -- which its peer does not end it: if fewer than 2^63 - 1032 bytes are sent to it, all by handlers
  -- in the thread of its loop or all by others, then it is up, and what was written to it, what is
  -- pending and what waits in the queue of its loop are together, in this order, exactly the texts
  -- that the service sent to it.
  pub all_in_order :
      (es : List Event) (s t : System) (fd : ℕ) (side : Bool)
      → s.log ≡ []
      → s.links conn ≡ fresh fd
      → run kernel loop_of es s ≡ some t
      → Fits (promise conn t.log nothing)
      → From side conn t.log
      → NeverEnds conn es
      → let c = t.links conn in
        (c.conn.state ≡ connected)
        × ((c.conn.wire ++ contents c.conn.output) ++ texts_of c.tasks ≡ to conn t.log)
  all_in_order es s t fd side empty link e fits from never =
      elim (on_wire kernel usable loop_of conn es s t fd empty link e fits) [
        | inl (up, whole, waiting, _) ↦ (
          up,
          ap (λ b. b ++ texts_of (t.links conn).tasks) whole
              ∙ ap (λ q. (promise conn t.log nothing).0 ++ texts_of q) waiting
              ∙ one_side side conn t.log from,
        )
        | inr (down, _, _) ↦
            let up =
              stays_up conn kernel loop_of es s t never (fresh_up fd (s.links conn) link) e in
            absurd (
              true≢false (
                sym (ap (λ x. is_state x disconnected) down)
                ∙ ap (λ x. is_state x disconnected) up))
      ]
