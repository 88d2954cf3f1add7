-- ===== src/System/Requests.antt =====
-- From what the clients send to what the service does.
use cluster_chat_server.Prelude.{
  ℕ, suc, ◌+◌, ◌^◌, ◌≤◌, ◌<◌, ◌≡◌, ◌≢◌, refl, sym, ap, subst, ◌∙◌, inl, inr, ◌==◌, Bool, true,
  false, Bool-cases, List, [], ◌∷◌, ◌++◌, map, length, take, drop, some, arith,
}
use mathlib.Core.List.{append-nil}
use cluster_chat_server.Prelude.Text.{Bytes}
use cluster_chat_server.Buffer
use cluster_chat_server.Buffer.{Buffer, Io, failed, done, extra_size, read_fd}
use cluster_chat_server.Buffer.Inv.{IsValid, contents}
use cluster_chat_server.Buffer.Queue.{read_fd_lem, retrieve_all_as_string_lem}
use cluster_chat_server.Buffer.Reference.{extra_size-le, length-retrieve_all}
use cluster_chat_server.Json.{JsonLib}
use cluster_chat_server.Json.Laws.{JsonLaws}
use cluster_chat_server.Sql.{MySql}
use cluster_chat_server.Net.Connection.{
  Connection, send, send_in_loop, write_direct, keep_if_any, keep_rest, store_rest,
  shutdown_in_loop, notify_high_water, queue_functor, handle_read, handler_close, call,
}
use cluster_chat_server.Net.Connection.Remote.{
  Shared, Task, sends_in_loop, shuts_down_in_loop, send_from_other, run_task, run_first,
}
use cluster_chat_server.Service.State.{Service, Conn}
use cluster_chat_server.Service.Session.{client_close_exception}
use cluster_chat_server.Service.Dispatch.{on_connection}
use cluster_chat_server.Client.{wire}
use cluster_chat_server.Client.Requests.{Request, HasInts, json_of, effect, received}
use cluster_chat_server.System.{
  System, Kernel, Entry, ran, entries, Event, readable, runs_functor, in_loop_thread, set_link,
  set_conn, send_text, send_texts, settle, run_functor, read_event, act, step, run,
}

-- What a client does: its request arrives as a segment of its own, or its connection ends; and what a
-- loop does by itself: it runs a functor that waits for a connection.
pub data Arrival : Type 0 where
  asks : Conn → Request → Arrival
  hangs_up : Conn → Arrival
  lets_run : Conn → Arrival

module _ ⦃J : JsonLib⦄ where
  abbrev pub event_of : Arrival → Event
  event_of (asks conn r) = readable conn (done (wire (json_of r)))
  event_of (hangs_up conn) = readable conn (done [])
  event_of (lets_run conn) = runs_functor conn

  -- How many bytes it brings.
  abbrev pub bytes_of : Arrival → ℕ
  bytes_of (asks conn r) = length (wire (json_of r))
  bytes_of (hangs_up conn) = 0
  bytes_of (lets_run conn) = 0

  abbrev pub total : List Arrival → ℕ
  total [] = 0
  total (a ∷ more) = bytes_of a + total more

  -- The ids are `int`s, and a segment fits what one `readv` takes in any case.
  abbrev pub Proper : Arrival → Type 0
  Proper (asks conn r) = HasInts r × (length (wire (json_of r)) ≤ extra_size)
  Proper (hangs_up conn) = Unit
  Proper (lets_run conn) = Unit

  abbrev pub AllProper : List Arrival → Type 0
  AllProper [] = Unit
  AllProper (a ∷ more) = Proper a × AllProper more

module _ ⦃J : JsonLib⦄ ⦃S : MySql⦄ where
  abbrev pub answer : Arrival → Service → Service
  answer (asks conn r) s = effect conn r s
  answer (hangs_up conn) s = client_close_exception conn s
  answer (lets_run conn) s = s

  -- What an arrival is itself in the log.
  abbrev pub noted : Arrival → List Entry
  noted (asks conn r) = []
  noted (hangs_up conn) = []
  noted (lets_run conn) = ran conn ∷ []

  -- The service alone, one arrival after another, and the log of all that it sends.
  abbrev pub serve : (Conn → ℕ) → List Arrival → Service → List Entry → Service × List Entry
  serve loop_of [] s log = (s, log)
  serve loop_of (a ∷ more) s log =
      let t = answer a s in
      serve loop_of more (record t { sent = [] })
        ((log ++ noted a) ++ entries (in_loop_thread loop_of (event_of a)) t.sent)

-- The input buffer is empty, and stays below its bound with `n` bytes more.
pub record Ready (n : ℕ) (c : Connection) : Type 0 where
  pub valid : IsValid c.input
  pub empty : contents c.input ≡ []
  pub small : length c.input.buffer + n + extra_size < 2 ^ 63

keep_if_any-input : (m : Bytes) (c : Connection) → (keep_if_any m c).input ≡ c.input
unfolding keep_if_any keep_rest store_rest notify_high_water queue_functor
keep_if_any-input m c = ground arith

keep_rest-input : (m : Bytes) (c : Connection) → (keep_rest m c).input ≡ c.input
unfolding keep_rest store_rest notify_high_water queue_functor
keep_rest-input m c = ground arith

write_direct-input : (m : Bytes) (r : Io ℕ) (c : Connection) → (write_direct m r c).input ≡ c.input
unfolding write_direct queue_functor
write_direct-input m (done n) c =
    ground (arith, keep_rest-input (drop n m) (record c { wire = c.wire ++ take n m }))
write_direct-input m (failed e) c = ground (arith, keep_if_any-input m c)

send-input : (m : Bytes) (r : Io ℕ) (c : Connection) → (send m r c).input ≡ c.input
unfolding send send_in_loop
send-input m r c = ground (arith, write_direct-input m r c, keep_if_any-input m c)

Ready-input : {n : ℕ} (c c' : Connection) → c'.input ≡ c.input → Ready n c → Ready n c'
Ready-input {n} c c' e h = record {
  valid = subst IsValid (sym e) h.valid;
  empty = ap contents e ∙ h.empty;
  small = omega (arith, h.small, ap (λ (b : Buffer). length b.buffer) e);
}

abbrev pub AllReady : ℕ → (Conn → Shared) → Type 0
AllReady n links = (conn : Conn) → Ready n (links conn).conn

set_link-Ready :
    {n : ℕ} (conn : Conn) (c : Shared) (links : Conn → Shared)
    → Ready n c.conn
    → AllReady n links
    → AllReady n (set_link conn c links)
unfolding set_link
set_link-Ready conn c links h all other = elim (Bool-cases (other == conn)) [
  | inl e ↦ rw e h
  | inr e ↦ rw e (all other)
]

send_text-input :
    (here : Bool) (m : Bytes) (r : Io ℕ) (c : Shared)
    → (send_text here m r c).conn.input ≡ c.conn.input
unfolding send_text send_from_other
send_text-input true m r c = send-input m r c.conn
send_text-input false m r c = ground arith

send_texts-Ready :
    {n : ℕ} (kernel : Kernel) (here : Conn → Bool) (texts : List (Conn × Bytes)) (k : ℕ)
    (links : Conn → Shared)
    → AllReady n links
    → AllReady n (send_texts kernel here k texts links)
unfolding send_texts
send_texts-Ready kernel here [] k links all = all
send_texts-Ready kernel here ((conn, text) ∷ texts) k links all =
    let c = send_text (here conn) text (kernel k text) (links conn) in
    send_texts-Ready kernel here texts (suc k) (set_link conn c links) (
      set_link-Ready conn c links
        (Ready-input (links conn).conn c.conn
          (send_text-input (here conn) text (kernel k text) (links conn)) (all conn))
        all)

run_first-input :
    (reply : Bytes → Io ℕ) (tasks : List Task) (c : Connection)
    → (run_first reply tasks c).conn.input ≡ c.input
unfolding run_first run_task send_in_loop shutdown_in_loop
run_first-input reply [] c = refl
run_first-input reply (sends_in_loop m ∷ tasks) c =
    ground (arith, write_direct-input m (reply m) c, keep_if_any-input m c)
run_first-input reply (shuts_down_in_loop ∷ tasks) c = ground arith

set_conn-Ready :
    {n : ℕ} (conn : Conn) (c : Connection) (links : Conn → Shared)
    → Ready n c
    → AllReady n links
    → AllReady n (set_conn conn c links)
unfolding set_conn
set_conn-Ready conn c links h all = set_link-Ready conn _ links h all

Ready-less : (n k : ℕ) (c : Connection) → Ready (n + k) c → Ready k c
Ready-less n k c h = record { valid = h.valid; empty = h.empty; small = omega (arith, h.small) }

module _ ⦃J : JsonLib⦄ ⦃S : MySql⦄ where
  -- What one arrival leaves behind, before the texts are sent.
  record Answered (a : Arrival) (k : ℕ) (s t : System) : Type 0 where
    served : t.service ≡ answer a s.service
    same_log : t.log ≡ s.log ++ noted a
    ready : AllReady k t.links

functor-Ready :
    ⦃S : MySql⦄ (kernel : Kernel) (n : ℕ) (conn : Conn) (s : System)
    → AllReady n s.links
    → AllReady n (run_functor kernel conn s).links
unfolding run_functor
functor-Ready kernel n conn s all =
    let c = s.links conn in
    let reply = kernel (length s.log) in
    set_link-Ready conn (run_first reply c.tasks c.conn) s.links
      (Ready-input c.conn _ (run_first-input reply c.tasks c.conn) (all conn)) all

not_nil : (t : Bytes) → [] ≢ t ++ 0 ∷ []
not_nil [] e = cc
not_nil (x ∷ t) e = cc

module _ ⦃J : JsonLib⦄ (laws : JsonLaws J) ⦃S : MySql⦄ (conn : Conn) (k : ℕ) (s : System) where
  asked :
      (r : Request) (w : Bytes)
      → w ≡ wire (json_of r)
      → HasInts r
      → length w ≤ extra_size
      → AllReady (length w + k) s.links
      → (t : System) × (read_event conn (done w) s ≡ some t) × Answered (asks conn r) k s t
  unfolding read_event handle_read call wire
  asked r [] e ints fits all = absurd (not_nil _ e)
  asked r (x ∷ xs) e ints fits all =
      let c = (s.links conn).conn in
      let h = all conn in
      let (_, valid, same, size) =
        read_fd_lem {b = c.input} (x ∷ xs) h.valid (omega (arith, fits, extra_size-le c.input))
          (omega (arith, h.small)) in
      let b = (read_fd c.input (done (x ∷ xs))).1 in
      let held : contents b ≡ wire (json_of r) ++ [] =
        same ∙ ap (λ t. t ++ x ∷ xs) h.empty ∙ e ∙ sym (append-nil _) in
      let left = retrieve_all_as_string_lem {b = b} valid in
      let link = record (handle_read (done (x ∷ xs)) c) {
        input = (Buffer.retrieve_all_as_string b).1;
      } in
      let t : System = record {
        links = set_conn conn link s.links;
        service = effect conn r s.service;
        log = s.log;
      } in
      (
        t,
        rw (received laws conn s.service r b [] ints valid held) refl,
        record {
          served = refl;
          same_log = sym (append-nil s.log);
          ready =
              set_conn-Ready conn link s.links
                (record {
                  valid = left.1;
                  empty = left.2;
                  small = omega (arith, h.small, size, length-retrieve_all b);
                })
                (λ other. Ready-less (length (x ∷ xs)) k (s.links other).conn (all other));
        },
      )

  hung_up :
      AllReady k s.links
      → (t : System) × (read_event conn (done []) s ≡ some t) × Answered (hangs_up conn) k s t
  unfolding read_event on_connection handle_read handler_close call
  hung_up all = (
    _,
    refl,
    record {
      served = refl;
      same_log = sym (append-nil s.log);
      ready = set_conn-Ready conn _ s.links (Ready-input (s.links conn).conn _ refl (all conn)) all;
    },
  )

module _ ⦃J : JsonLib⦄ (laws : JsonLaws J) ⦃S : MySql⦄ (kernel : Kernel) where
  arrived :
      (a : Arrival) (k : ℕ) (s : System)
      → Proper a
      → AllReady (bytes_of a + k) s.links
      → (t : System) × (act kernel (event_of a) s ≡ some t) × Answered a k s t
  unfolding act
  arrived (asks conn r) k s (ints, fits) all =
      asked laws conn k s r (wire (json_of r)) refl ints fits all
  arrived (hangs_up conn) k s tt all =
      hung_up laws conn k s λ other. Ready-less 0 k (s.links other).conn (all other)
  arrived (lets_run conn) k s tt all = (
    run_functor kernel conn s,
    refl,
    record {
      served = refl;
      same_log = refl;
      ready =
          functor-Ready kernel k conn s λ other. Ready-less 0 k (s.links other).conn (all other);
    },
  )

module _ ⦃J : JsonLib⦄ (laws : JsonLaws J) ⦃S : MySql⦄ (kernel : Kernel) (loop_of : Conn → ℕ) where
  -- With a JSON library that reads back what it wrote, on connections with empty input buffers that
  -- stay below 2^63 bytes: when each request of a client, with `int` ids and of at most 65535 bytes,
  -- arrives as a segment of its own, in any order over the connections and between the ends of
  -- connections and the functors that the loops run, no handler throws, and the service does and
  -- sends exactly what the requests and the ends mean, one after another.
  pub served_all :
      (arrivals : List Arrival) (s : System)
      → AllProper arrivals
      → AllReady (total arrivals) s.links
      → (t : System) × (run kernel loop_of (map event_of arrivals) s ≡ some t)
        × ((t.service, t.log) ≡ serve loop_of arrivals s.service s.log)
  unfolding run step settle
  served_all [] s proper all = (s, refl, refl)
  served_all (a ∷ more) s (proper, propers) all =
      let (t, acted, h) = arrived laws kernel a (total more) s proper all in
      let (u, went, same) =
        served_all more (settle kernel (in_loop_thread loop_of (event_of a)) t) propers
          (send_texts-Ready kernel _ t.service.sent _ t.links h.ready) in
      (u, rw acted went, same ∙ rw (h.served, h.same_log) refl)
