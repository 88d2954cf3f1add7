-- ===== src/Net/Connection/Fifo.antt =====
-- No byte of an accepted message is lost, repeated or reordered: what is on the wire and what waits in
-- the output buffer are together all that was sent.
use cluster_chat_server.Prelude.{
  ℕ, zero, suc, ◌||◌, ◌+◌, ◌^◌, ◌≤◌, ◌<◌, ◌≡◌, refl, ◌≢◌, inl, inr, [], ◌∷◌, ◌++◌, Bool, true,
  false, not, ◌&&◌, arith, if◌then◌else◌, ◌==◌, Bool-cases, length, take, drop, length-drop,
  take-append-drop, ◌∙◌, ap, sym,
}
use mathlib.Core.List.{append-nil, append_assoc}
use cluster_chat_server.Prelude.Text.{Bytes}
use cluster_chat_server.Buffer
use cluster_chat_server.Buffer.{Buffer, Io, failed, done}
use cluster_chat_server.Buffer.Inv.{IsValid, contents, length-contents, sizes}
use cluster_chat_server.Buffer.Queue.{append_lem}
use cluster_chat_server.Net.Channel
use cluster_chat_server.Net.Connection.{
  Connection, Functor, write_complete, State, disconnected, connected, is_state, send, send_in_loop,
  write_direct, keep_rest, queue_functor, notify_high_water, store_rest, keep_if_any, ewouldblock,
  epipe, econnreset,
}

-- The output buffer is valid; the connection waits for the socket exactly while bytes are pending;
-- the writing half is closed only after a shutdown, and only with nothing pending.
pub record IsSound (c : Connection) : Type 0 where
  pub valid : IsValid c.output
  pub waiting : Channel.is_writing c.channel ≡ false → contents c.output ≡ []
  pub idle : contents c.output ≡ [] → Channel.is_writing c.channel ≡ false
  pub flushed : c.half_closed ≡ true → (contents c.output ≡ []) × (c.state ≢ connected)

-- All bytes that the connection took: written or pending.
abbrev pub stream : Connection → Bytes
stream c = c.wire ++ contents c.output

-- The reply of a `write` of these bytes that is not a broken connection.
abbrev pub Usable : ℕ → Io ℕ → Type 0
Usable len (done n) = n ≤ len
Usable len (failed errno) = (errno ≢ epipe) × (errno ≢ econnreset)

-- The fields that the stream and its soundness are about are the same.
pub record Same (c t : Connection) : Type 0 where
  pub output : t.output ≡ c.output
  pub wire : t.wire ≡ c.wire
  pub channel : t.channel ≡ c.channel
  pub state : t.state ≡ c.state
  pub half_closed : t.half_closed ≡ c.half_closed

pub queue_functor-Same : (b : Bool) (f : Functor) (c : Connection) → Same c (queue_functor b f c)
unfolding queue_functor
queue_functor-Same true f c = record {
  output = refl;
  wire = refl;
  channel = refl;
  state = refl;
  half_closed = refl;
}
queue_functor-Same false f c = record {
  output = refl;
  wire = refl;
  channel = refl;
  state = refl;
  half_closed = refl;
}

notify_high_water-Same : (n : ℕ) (c : Connection) → Same c (notify_high_water n c)
unfolding notify_high_water
notify_high_water-Same n c = queue_functor-Same _ _ c

-- The bytes fit the output buffer's bound.
abbrev pub Room : Connection → Bytes → Type 0
Room c xs = length c.output.buffer + length xs < 2 ^ 63

-- What a method does to the stream: it adds `xs`.
pub record Adds (xs : Bytes) (c t : Connection) : Type 0 where
  pub sound : IsSound t
  pub added : stream t ≡ stream c ++ xs
  pub same_state : t.state ≡ c.state
  pub growth : length t.output.buffer ≤ length c.output.buffer + length xs

Adds-Same : {xs : Bytes} {c c' t : Connection} → Same c c' → Adds xs c' t → Adds xs c t
Adds-Same {xs} {c} {c'} {t} s h = record {
  sound = h.sound;
  added = h.added ∙ rw (s.wire, s.output);
  same_state = h.same_state ∙ s.state;
  growth = omega (arith, h.growth, ap (λ b. length (b.buffer)) s.output);
}

ne_nil : (xs : Bytes) → (length xs == 0) ≡ false → xs ≢ []
ne_nil [] e = λ p. cc
ne_nil (x ∷ xs) e = λ p. cc

append-ne-nil : (xs ys : Bytes) → ys ≢ [] → xs ++ ys ≢ []
append-ne-nil [] ys h = h
append-ne-nil (x ∷ xs) ys h = λ p. cc

pub when_connected :
    (s : State) → s ≡ connected → (is_state s connected ≡ true) × (is_state s disconnected ≡ false)
when_connected s e = rw e (refl, refl)

-- Waiting for the socket from now on, if not before.
waits :
    (c : Channel.Channel)
    → Channel.is_writing (if Channel.is_writing c then c else Channel.enable_writing c) ≡ true
unfolding Channel.is_writing Channel.enable_writing
waits c = ground arith

store_rest-Adds :
    (rest : Bytes) (c : Connection)
    → IsValid c.output
    → c.half_closed ≡ false
    → rest ≢ []
    → Room c rest
    → Adds rest c (store_rest rest c)
unfolding store_rest
store_rest-Adds rest c v not_closed some_left room =
    let a = append_lem rest v room in
    record {
      sound = record {
        valid = a.0;
        waiting = λ e. cc (waits c.channel);
        idle = λ e. absurd (append-ne-nil (contents c.output) rest some_left (sym a.1 ∙ e));
        flushed = λ e. cc not_closed;
      };
      added = ap (◌++◌ c.wire) a.1 ∙ sym (append_assoc c.wire (contents c.output) rest);
      same_state = refl;
      growth = a.2;
    }

keep_rest-Adds :
    (rest : Bytes) (c : Connection)
    → IsValid c.output
    → c.half_closed ≡ false
    → rest ≢ []
    → Room c rest
    → Adds rest c (keep_rest rest c)
unfolding keep_rest
keep_rest-Adds rest c v not_closed some_left room =
    let same = notify_high_water-Same (length rest) c in
    Adds-Same same (
      store_rest-Adds rest (notify_high_water (length rest) c) (rw same.output v)
        (same.half_closed ∙ not_closed) some_left (rw same.output room))

keep_if_any-Adds :
    (rest : Bytes) (c : Connection)
    → IsSound c
    → c.half_closed ≡ false
    → Room c rest
    → Adds rest c (keep_if_any rest c)
unfolding keep_if_any
keep_if_any-Adds [] c s not_closed room = record {
  sound = s;
  added = sym (append-nil (stream c));
  same_state = refl;
  growth = omega arith;
}
keep_if_any-Adds (x ∷ xs) c s not_closed room =
    let some_left : (length (x ∷ xs) == 0) ≡ false = ground arith in
    rw some_left (keep_rest-Adds (x ∷ xs) c s.valid not_closed (λ p. cc) room)

all_taken : (n : ℕ) (xs : Bytes) → (length (drop n xs) == 0) ≡ true → take n xs ≡ xs
all_taken zero [] e = refl
all_taken zero (x ∷ xs) e = absurd (ground arith)
all_taken (suc n) [] e = refl
all_taken (suc n) (x ∷ xs) e = ap (◌∷◌ x) (all_taken n xs e)

module _ (message : Bytes) (c : Connection) (s : IsSound c) (up : c.state ≡ connected)
    (room : Room c message) where
  pub not_closed : c.half_closed ≡ false
  not_closed = elim (Bool-cases c.half_closed) [ inl e ↦ absurd ((s.flushed e).1 up) | inr e ↦ e ]

  -- What was written directly, and the rest.
  abbrev written : ℕ → Connection
  written n = record c { wire = c.wire ++ take n message }

  written-Adds :
      (n : ℕ) {t : Connection}
      → contents c.output ≡ []
      → Adds (drop n message) (written n) t
      → Adds message c t
  written-Adds n {t} e h = record {
    sound = h.sound;
    added =
        h.added
        ∙ rw (e, append-nil (c.wire ++ take n message), append-nil c.wire)
            (append_assoc c.wire (take n message) (drop n message)
              ∙ ap (◌++◌ c.wire) (take-append-drop n message));
    same_state = h.same_state;
    growth = omega (arith, h.growth, length-drop n message);
  }

  written-all :
      (n : ℕ) {t : Connection}
      → Same (written n) t
      → take n message ≡ message
      → contents c.output ≡ []
      → Adds message c t
  written-all n {t} same all e = record {
    sound = record {
      valid = rw same.output s.valid;
      waiting = rw (same.output, same.channel) s.waiting;
      idle = rw (same.output, same.channel) s.idle;
      flushed = rw (same.output, same.half_closed, same.state) s.flushed;
    };
    added =
        rw (same.wire, same.output, all, e)
          (append-nil _ ∙ ap (λ w. w ++ message) (sym (append-nil c.wire)));
    same_state = same.state;
    growth = omega (arith, ap (λ (b : Buffer). length b.buffer) same.output);
  }

  write_direct-Adds :
      (reply : Io ℕ)
      → Usable (length message) reply
      → Channel.is_writing c.channel ≡ false
      → Adds message c (write_direct message reply c)
  unfolding write_direct
  write_direct-Adds (failed errno) (a, b) idle =
      let usable : (not (errno == ewouldblock) && (errno == epipe || errno == econnreset)) ≡ false =
        ground arith in
      rw usable (keep_if_any-Adds message c s not_closed room)
  write_direct-Adds (done n) fits idle = elim (Bool-cases (length (drop n message) == 0)) [
    | inl e ↦
        let same = queue_functor-Same c.has_write_complete write_complete (written n) in
        rw e (written-all n same (all_taken n message e) (s.waiting idle))
    | inr e ↦ rw e (
        written-Adds n (s.waiting idle) (
          keep_rest-Adds (drop n message) (written n) s.valid not_closed (ne_nil _ e)
            (omega (arith, length-drop n message))))
  ]

  -- If the message fits the bound of the output buffer, and `write` takes no more than it is given
  -- and does not answer that the connection is broken, `send` on a sound connection that is up adds
  -- exactly its bytes to the written and pending ones and keeps the connection sound, whatever the
  -- socket takes of them at once.
  pub send-Adds :
      (reply : Io ℕ) → Usable (length message) reply → Adds message c (send message reply c)
  unfolding send send_in_loop
  send-Adds reply usable =
      let is_up = when_connected c.state up in
      elim (Bool-cases (Channel.is_writing c.channel)) [
        | inl e ↦ rw (is_up.0, is_up.1, e) (keep_if_any-Adds message c s not_closed room)
        | inr e ↦
            let none_pending : (Buffer.readable_bytes c.output == 0) ≡ true =
              ground (arith, sizes s.valid, length-contents s.valid, ap length (s.waiting e)) in
            rw (is_up.0, is_up.1, e, none_pending) (write_direct-Adds reply usable e)
      ]
