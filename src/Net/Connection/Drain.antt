-- ===== src/Net/Connection/Drain.antt =====
-- What happens to pending bytes when the socket takes some of them, and at a shutdown.
use cluster_chat_server.Prelude.{
  ℕ, ◌≡◌, refl, ◌≢◌, ◌⊎◌, inl, inr, [], ◌∷◌, ◌++◌, true, false, not, ◌&&◌, arith, ◌==◌, ltb,
  Bool-cases, length, take, drop, take-append-drop, ◌∙◌, ap, sym,
}
use mathlib.Core.Bool.{true≢false}
use mathlib.Core.List.{append_assoc}
use cluster_chat_server.Prelude.Text.{Bytes}
use cluster_chat_server.Buffer
use cluster_chat_server.Buffer.{Buffer, Io, failed, done}
use cluster_chat_server.Buffer.Inv.{IsValid, contents, contents-sizes, length-contents, sizes}
use cluster_chat_server.Buffer.Queue.{retrieve_lem, retrieve_size}
use cluster_chat_server.Net.Channel
use cluster_chat_server.Net.Connection.{
  Connection, write_complete, State, disconnected, connecting, connected, disconnecting, is_state,
  send, queue_functor, handler_write, drained, shutdown, shutdown_in_loop,
}
use cluster_chat_server.Net.Connection.Fifo.{
  IsSound, stream, queue_functor-Same, not_closed, when_connected,
}

-- `retrieve` of what the kernel took moves bytes from the buffer to the wire.
split_stream : (n : ℕ) (w xs : Bytes) → (w ++ take n xs) ++ drop n xs ≡ w ++ xs
split_stream n w xs = append_assoc w (take n xs) (drop n xs) ∙ ap (◌++◌ w) (take-append-drop n xs)

stopped : (c : Channel.Channel) → Channel.is_writing (Channel.disable_writing c) ≡ false
unfolding Channel.is_writing Channel.disable_writing
stopped c = refl

-- The state, the wire and the output buffer are the same, and no event is waited for.
record Flushed (c t : Connection) : Type 0 where
  output : t.output ≡ c.output
  wire : t.wire ≡ c.wire
  state : t.state ≡ c.state
  not_waiting : Channel.is_writing t.channel ≡ false
  closed : t.half_closed ≡ true → (c.half_closed ≡ true) ⊎ (c.state ≢ connected)

not_up : (s : State) → is_state s disconnecting ≡ true → s ≢ connected
not_up disconnecting e = λ p. cc
not_up disconnected e = absurd cc
not_up connecting e = absurd cc
not_up connected e = absurd cc

finish :
    (c : Connection)
    → Channel.is_writing c.channel ≡ false
    → is_state c.state disconnecting ≡ true
    → Flushed c (shutdown_in_loop c)
unfolding shutdown_in_loop
finish c e d = rw e (record {
  output = refl;
  wire = refl;
  state = refl;
  not_waiting = e;
  closed = λ p. inr (not_up c.state d);
})

drained_lem : (c : Connection) → Flushed c (drained c)
unfolding drained
drained_lem c =
    let off = record c { channel = Channel.disable_writing c.channel } in
    let same = queue_functor-Same c.has_write_complete write_complete off in
    let idle : Channel.is_writing (queue_functor c.has_write_complete write_complete off).channel
        ≡ false =
      rw same.channel (stopped c.channel) in
    elim (Bool-cases (is_state c.state disconnecting)) [
      | inl e ↦
          let end =
            finish (queue_functor c.has_write_complete write_complete off) idle (rw same.state e) in
          rw e (record {
            output = end.output ∙ same.output;
            wire = end.wire ∙ same.wire;
            state = end.state ∙ same.state;
            not_waiting = end.not_waiting;
            closed = λ p. inr (not_up c.state e);
          })
      | inr e ↦ rw e (record {
        output = same.output;
        wire = same.wire;
        state = same.state;
        not_waiting = idle;
        closed = λ p. inl (sym same.half_closed ∙ p);
      })
    ]

-- The connection is sound, with the stream, the state and the buffer's size of `c`.
abbrev pub Keeps : Connection → Connection → Type 0
Keeps c t =
    IsSound t
    × (stream t ≡ stream c)
    × (t.state ≡ c.state)
    × (length t.output.buffer ≡ length c.output.buffer)

no_bytes : {b : Buffer} → IsValid b → (Buffer.readable_bytes b == 0) ≡ true → contents b ≡ []
no_bytes {b} v e = nil (contents b) (ground (arith, sizes v, length-contents v))
  where
    nil : (xs : Bytes) → length xs ≡ 0 → xs ≡ []
    nil [] p = refl
    nil (x ∷ xs) p = absurd (omega (arith, p))

some_bytes : {b : Buffer} → IsValid b → (Buffer.readable_bytes b == 0) ≡ false → contents b ≢ []
some_bytes {b} v e = λ p. ground (arith, sizes v, length-contents v, ap length p)

module _ (c : Connection) (s : IsSound c) (on : Channel.is_writing c.channel ≡ true) (n : ℕ) where
  -- The bytes that the socket took are gone from the buffer.
  taken : Connection
  taken = record c {
    wire = c.wire ++ take n (Buffer.peek c.output (Buffer.readable_bytes c.output));
    output = Buffer.retrieve c.output n;
  }

  open_ : c.half_closed ≡ false
  open_ = elim (Bool-cases c.half_closed) [
    | inl e ↦ absurd (true≢false (sym on ∙ s.idle (s.flushed e).0))
    | inr e ↦ e
  ]

  taken-stream : stream taken ≡ stream c
  unfolding taken
  taken-stream =
      rw (contents-sizes s.valid, (retrieve_lem n s.valid).1)
        (split_stream n c.wire (contents c.output))

  all-Keeps : contents taken.output ≡ [] → Keeps c (drained taken)
  unfolding taken
  all-Keeps e =
      let h = drained_lem taken in
      (
        record {
          valid = rw h.output (retrieve_lem n s.valid).0;
          waiting = λ p. ap contents h.output ∙ e;
          idle = λ p. h.not_waiting;
          flushed = λ p. elim (h.closed p) [
            | inl q ↦ absurd (true≢false (sym q ∙ open_))
            | inr q ↦ (ap contents h.output ∙ e, λ r. q (sym h.state ∙ r))
          ];
        },
        rw (h.wire, h.output) (unfold taken in taken-stream),
        h.state,
        ap (λ (b : Buffer). length b.buffer) h.output ∙ retrieve_size n c.output,
      )

  some-Keeps : contents taken.output ≢ [] → Keeps c taken
  unfolding taken
  some-Keeps h = (
    record {
      valid = (retrieve_lem n s.valid).0;
      waiting = λ e. absurd (true≢false (sym on ∙ e));
      idle = λ e. absurd (h e);
      flushed = λ e. absurd (true≢false (sym e ∙ open_));
    },
    taken-stream,
    refl,
    retrieve_size n c.output,
  )

-- When the socket takes pending bytes, the stream and the state stay the same and the connection
-- stays sound: it waits on while bytes are left, and a half-close comes only with the last of them.
pub handler_write_lem :
    (c : Connection) (reply : Io ℕ) → IsSound c → Keeps c (handler_write reply c)
unfolding handler_write
handler_write_lem c (failed errno) s = (s, refl, refl, refl)
handler_write_lem c (done n) s = elim (Bool-cases (Channel.is_writing c.channel && ltb 0 n)) [
  | inr e ↦ rw e (s, refl, refl, refl)
  | inl e ↦
      let on : Channel.is_writing c.channel ≡ true = ground arith in
      let v = (retrieve_lem n s.valid).0 in
      elim (Bool-cases (Buffer.readable_bytes (Buffer.retrieve c.output n) == 0)) [
        | inl z ↦ rw (e, z) (unfold taken in all-Keeps c s on n (no_bytes v z))
        | inr z ↦ rw (e, z) (unfold taken in some-Keeps c s on n (some_bytes v z))
      ]
]

-- `shutdown` of a connection that is up keeps the stream and the soundness and leads to
-- `kDisConnecting`, in which `send` does nothing; the writing half is closed at once exactly if
-- nothing is pending.
pub shutdown_lem :
    (c : Connection)
    → IsSound c
    → c.state ≡ connected
    → let t = shutdown c in
      IsSound t
      × (stream t ≡ stream c)
      × (t.state ≡ disconnecting)
      × (t.half_closed ≡ not (Channel.is_writing c.channel))
      × ((message : Bytes) (reply : Io ℕ) → send message reply t ≡ t)
unfolding shutdown shutdown_in_loop send
shutdown_lem c s up =
    let is_up = when_connected c.state up in
    let closed = not_closed [] c s up (omega (arith, s.valid)) in
    elim (Bool-cases (Channel.is_writing c.channel)) [
      | inl e ↦
          rw (is_up.0, e)
            (
              record {
                valid = s.valid;
                waiting = s.waiting;
                idle = s.idle;
                flushed = λ p. absurd (true≢false (sym p ∙ closed));
              },
              refl,
              refl,
              closed,
              λ message reply. refl,
            )
      | inr e ↦
          rw (is_up.0, e)
            (
              record {
                valid = s.valid;
                waiting = s.waiting;
                idle = s.idle;
                flushed = λ p. (s.waiting e, λ q. cc);
              },
              refl,
              refl,
              refl,
              λ message reply. refl,
            )
    ]
