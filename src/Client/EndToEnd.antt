-- ===== src/Client/EndToEnd.antt =====
-- A chat message from the line that one user types to what the other user sees, over the server that
-- both are connected to.
use cluster_chat_server.Prelude.{
  ◌≡◌, refl, true, some, ℤ, IsInt, arith, ap, ◌∙◌, List, ◌∷◌, ◌++◌, [], sym, inl, inr, ◌<◌, ◌≤◌,
  ◌==◌, none, if◌then◌else◌, ◌>>=◌, false, length, length-append, suc, take, take-all,
}
use cluster_chat_server.Prelude.Text.{Bytes, codes, bytes_eq, show, atoi-show, c_str}
use cluster_chat_server.Prelude.Avoid.{Avoids, Avoids-append, show-Avoids, c_str-Avoids}
use cluster_chat_server.Buffer.{Buffer}
use cluster_chat_server.Buffer.Inv.{IsValid, contents}
use cluster_chat_server.Json.{JsonLib, Json}
use cluster_chat_server.Json.Laws.{JsonLaws, same_key}
use cluster_chat_server.Sql.{MySql}
use cluster_chat_server.Model.Types.{User}
use cluster_chat_server.Protocol.{one_chat_msg}
use cluster_chat_server.Service.State.{Service, Conn, find, send}
use cluster_chat_server.Service.Chat.{deliver}
use cluster_chat_server.Service.Dispatch.{on_message}
use cluster_chat_server.Client.{Client, said, chat_request, transmit, wire, display}
use cluster_chat_server.Client.Command.{
  run_line, run_command, parse_line, handler_of, command_handler_map, chat,
}
use cluster_chat_server.Client.Command.Split.{
  parse_line_split, find_colon-first, before_first, behind_first,
}
use cluster_chat_server.Client.Requests.{chats, request_served}
use cluster_chat_server.Client.Answer.{show_chat, handle, read_task, buffer_size}

-- The line that sends `message` to the user `to`.
abbrev pub chat_line : ℤ → Bytes → Bytes
chat_line to message = codes "chat" ++ b':' ∷ (show to ++ b':' ∷ message)

chat_line-Avoids : (to : ℤ) (message : Bytes) → Avoids 0 message → Avoids 0 (chat_line to message)
chat_line-Avoids to message h =
    Avoids-append 0 (codes "chat:") _ name
      (Avoids-append 0 (show to) _ (show-Avoids 0 to (inl (omega arith))) (colon.0, h))
  where
    colon : Avoids 0 (codes ":")
    colon = ((λ p. omega (arith, p)), tt)

    name : Avoids 0 (codes "chat:")
    name = (
      (λ p. omega (arith, p)),
      ((λ p. omega (arith, p)), ((λ p. omega (arith, p)), ((λ p. omega (arith, p)), colon))),
    )

chat_name : Avoids b':' (codes "chat")
chat_name = (
  (λ p. omega (arith, p)),
  ((λ p. omega (arith, p)), ((λ p. omega (arith, p)), ((λ p. omega (arith, p)), tt))),
)

module _ ⦃J : JsonLib⦄ where
  chat_typed :
      (to : ℤ) (message time : Bytes) (c : Client)
      → IsInt to
      → chat (show to ++ b':' ∷ message) time true c
        ≡ transmit true (chat_request c.current_user to message time) c
  unfolding chat
  chat_typed to message time c i =
      rw
        (
          find_colon-first (show to) message (show-Avoids b':' to (inr (omega arith))),
          before_first (show to) message,
          behind_first (show to) message,
          c_str-Avoids (show to) (show-Avoids 0 to (inl (omega arith))),
          atoi-show to i,
          chat,
        )
        refl

  -- Typing the line sends the request.
  pub line_sends :
      (to : ℤ) (message time : Bytes) (c : Client)
      → IsInt to
      → Avoids 0 message
      → (run_line (chat_line to message) time true c).sent
        ≡ c.sent ++ wire (chat_request c.current_user to message time) ∷ []
  unfolding run_line run_command transmit handler_of command_handler_map bytes_eq
  line_sends to message time c i h =
      let rest = show to ++ b':' ∷ message in
      let parts : parse_line (c_str (chat_line to message)) ≡ (codes "chat", rest) =
        ap parse_line (c_str-Avoids (chat_line to message) (chat_line-Avoids to message h))
        ∙ (parse_line_split (codes "chat") rest chat_name).0 in
      let called : run_command (codes "chat", rest) time true c ≡ chat rest time true c = refl in
      let run =
        ap (λ parsed. run_command parsed time true c) parts
        ∙ called
        ∙ chat_typed to message time c i in
      ap (λ (t : Client). t.sent) run

  module _ (laws : JsonLaws J) where
    open laws use {int_same, int_int, int_string, string_int, string_string}

    chat_shown :
        (user : User) (to : ℤ) (message time : Bytes) (c : Client)
        → let js = chat_request user to message time in
          handle js c ≡ some (display (said time (J.print "id" js) user.name message) c)
    unfolding handle show_chat chat_request same_key bytes_eq
    chat_shown user to message time c =
        let five : IsInt one_chat_msg = omega arith in
        simp (int_same, int_int, int_string, string_string, string_int, five)

    length-wire : (js : Json) → length (wire js) ≡ suc (length (J.dump js))
    unfolding wire
    length-wire js =
        omega (arith, length-append (c_str (J.dump js)) (0 ∷ []), ap length (laws.dump_plain js))

    pub text_read :
        (js : Json) (c : Client)
        → length (J.dump js) < buffer_size
        → read_task (J.dump js) c ≡ handle js c
    unfolding read_task
    text_read js c short = go (J.dump js) refl
      where
        go : (t : Bytes) → t ≡ J.dump js → read_task t c ≡ handle js c
        go [] p = absurd (laws.dump_some js (sym p))
        go (b ∷ bs) p =
            let size : length (b ∷ bs) < buffer_size = omega (arith, short, ap length p) in
            let all : take buffer_size (b ∷ bs) ≡ b ∷ bs =
              take-all buffer_size (b ∷ bs) (omega (arith, size)) in
            let room : (length (b ∷ bs) == buffer_size) ≡ false = ground (arith, size) in
            let e : J.parse (c_str (b ∷ bs)) ≡ some js =
              ap (λ s. J.parse (c_str s)) p
              ∙ ap J.parse (laws.dump_plain js)
              ∙ laws.parse_dump js in
            ap
              (λ g. if length g == buffer_size then none else J.parse (c_str g) >>= λ j. handle j c)
              all
            ∙ rw (room, e) refl

snoc_eq : (xs : List Bytes) (x y : Bytes) → xs ++ x ∷ [] ≡ xs ++ y ∷ [] → x ≡ y
snoc_eq [] x y e = cc
snoc_eq (z ∷ xs) x y e = snoc_eq xs x y cc

deliver_here :
    ⦃S : MySql⦄ (to : ℤ) (text : Bytes) (s : Service) (conn : Conn)
    → find to s.conn_map ≡ some conn
    → (deliver to text s).sent ≡ s.sent ++ (conn, text) ∷ []
unfolding deliver send
deliver_here to text s conn e = rw (e, deliver) refl

module _ ⦃J : JsonLib⦄ ⦃S : MySql⦄ (laws : JsonLaws J) where
  -- With a JSON library that reads back what it wrote: if a user with an `int` id types
  -- "chat:<to>:<message>", and what the client then sends is what a valid buffer of the server
  -- holds, of at most the 1024 bytes of a client's buffer, the closing 0 counted, and the user `to`
  -- is connected to this server, then the server sends one text, to that user's connection, and a
  -- client at which exactly this text waits shows the message with its time and its sender.
  pub chat_arrives :
      (to : ℤ) (message time : Bytes) (c d : Client) (w : Bytes) (b : Buffer) (s : Service)
      (conn conn' : Conn)
      → IsInt to
      → IsInt c.current_user.id
      → Avoids 0 message
      → (run_line (chat_line to message) time true c).sent ≡ c.sent ++ w ∷ []
      → IsValid b
      → contents b ≡ w
      → find to s.conn_map ≡ some conn'
      → length w ≤ buffer_size
      → let sender = J.print "id" (chat_request c.current_user to message time) in
        (b' : Buffer) × (t : Service) × (text : Bytes) × (on_message conn b s ≡ some (b', t))
        × (t.sent ≡ s.sent ++ (conn', text) ∷ [])
        × (read_task text d ≡ some (display (said time sender c.current_user.name message) d))
  chat_arrives to message time c d w b s conn conn' i j plain sent v held here short =
      let js = chat_request c.current_user to message time in
      let bytes : w ≡ wire js =
        snoc_eq c.sent w (wire js) (sym sent ∙ line_sends to message time c i plain) in
      let served =
        request_served laws conn s b v (chats c.current_user to message time) (j, i)
          (held ∙ bytes) in
      (
        served.0,
        deliver to (J.dump js) s,
        J.dump js,
        served.1,
        deliver_here to (J.dump js) s conn' here,
        text_read laws js d (omega (arith, short, ap length bytes, length-wire laws js))
            ∙ chat_shown laws c.current_user to message time d,
      )
