-- ===== src/Client/Requests.antt =====
-- The server does what a request of the client asks for: the protocol between src/client/main.cc and
-- src/server/chatService.cc, from the bytes that the client sends to the handler's effect.
use cluster_chat_server.Prelude.{
  ℕ, ◌≡◌, some, ℤ, pos, IsInt, arith, ap, ◌∙◌, ◌∷◌, ◌++◌, [], sym, ◌<◌,
}
use mathlib.Core.List.{append_assoc, append-nil}
use cluster_chat_server.Prelude.Text.{Bytes, bytes_eq}
use cluster_chat_server.Buffer
use cluster_chat_server.Buffer.{Buffer}
use cluster_chat_server.Buffer.Inv.{IsValid, contents}
use cluster_chat_server.Buffer.Queue.{retrieve_all_as_string_lem}
use cluster_chat_server.Json.{JsonLib, Json}
use cluster_chat_server.Json.Laws.{JsonLaws, same_key}
use cluster_chat_server.Sql.{MySql}
use cluster_chat_server.Model.Types.{User}
use cluster_chat_server.Model.Friend
use cluster_chat_server.Model.Group
use cluster_chat_server.Protocol.{
  login_msg, reg_msg, one_chat_msg, add_friend_msg, create_group_msg, add_group_msg, group_chat_msg,
  loginout_msg,
}
use cluster_chat_server.Service.State.{Service, Conn}
use cluster_chat_server.Service.Session
use cluster_chat_server.Service.Chat
use cluster_chat_server.Service.Groups
use cluster_chat_server.Service.Dispatch.{on_message, get_handler, handler_in, msg_handler_map}
use cluster_chat_server.Client.{
  login_request, reg_request, add_friend_request, chat_request, create_group_request,
  add_group_request, group_chat_request, loginout_request, wire,
}

-- What a user asks of the server.
pub data Request : Type 0 where
  logs_in : ℤ → Bytes → Request
  registers : Bytes → Bytes → Request
  chats : User → ℤ → Bytes → Bytes → Request
  adds_friend : ℤ → ℤ → Request
  creates_group : ℤ → Bytes → Bytes → Request
  joins_group : ℤ → ℤ → Request
  chats_in_group : User → ℤ → Bytes → Bytes → Request
  logs_out : ℤ → Request

-- Its ids are values of type `int`.
abbrev pub HasInts : Request → Type 0
HasInts (logs_in id pwd) = IsInt id
HasInts (registers name pwd) = Unit
HasInts (chats user to message time) = IsInt user.id × IsInt to
HasInts (adds_friend id friendid) = IsInt id × IsInt friendid
HasInts (creates_group id name desc) = IsInt id
HasInts (joins_group id groupid) = IsInt id × IsInt groupid
HasInts (chats_in_group user groupid message time) = IsInt user.id × IsInt groupid
HasInts (logs_out id) = IsInt id

abbrev pub number : Request → ℤ
number (logs_in id pwd) = login_msg
number (registers name pwd) = reg_msg
number (chats user to message time) = one_chat_msg
number (adds_friend id friendid) = add_friend_msg
number (creates_group id name desc) = create_group_msg
number (joins_group id groupid) = add_group_msg
number (chats_in_group user groupid message time) = group_chat_msg
number (logs_out id) = loginout_msg

module _ ⦃J : JsonLib⦄ where
  abbrev pub json_of : Request → Json
  json_of (logs_in id pwd) = login_request id pwd
  json_of (registers name pwd) = reg_request name pwd
  json_of (chats user to message time) = chat_request user to message time
  json_of (adds_friend id friendid) = add_friend_request id friendid
  json_of (creates_group id name desc) = create_group_request id name desc
  json_of (joins_group id groupid) = add_group_request id groupid
  json_of (chats_in_group user groupid message time) = group_chat_request user groupid message time
  json_of (logs_out id) = loginout_request id

module _ ⦃J : JsonLib⦄ ⦃S : MySql⦄ where
  -- What the server is to do.
  abbrev pub effect : Conn → Request → Service → Service
  effect conn (logs_in id pwd) s = Session.authenticate conn id pwd s
  effect conn (registers name pwd) s = Session.register conn name pwd s
  effect conn (chats user to message time) s =
      Chat.deliver to (J.dump (json_of (chats user to message time))) s
  effect conn (adds_friend id friendid) s = record s { db = (Friend.insert id friendid s.db).1 }
  effect conn (creates_group id name desc) s = record s {
    db = Groups.found_group id name desc s.db;
  }
  effect conn (joins_group id groupid) s = record s {
    db = (Group.add_group id groupid Groups.normal s.db).1;
  }
  effect conn (chats_in_group user groupid message time) s =
      Groups.send_group user.id groupid
        (J.dump (json_of (chats_in_group user groupid message time))) s
  effect conn (logs_out id) s = Session.leave id s

module _ ⦃J : JsonLib⦄ (laws : JsonLaws J) where
  open laws use {int_same, int_int, int_string, string_int, string_string}

  numbered : (n : ℕ) → n < 11 → IsInt (pos n)
  numbered n h = omega arith

  number_read : (r : Request) → J.get_int "msgid" (json_of r) ≡ some (number r)
  unfolding same_key bytes_eq login_request reg_request add_friend_request chat_request
      create_group_request add_group_request group_chat_request loginout_request
  number_read (logs_in id pwd) = simp (int_same, int_int, int_string, numbered 1 (omega arith))
  number_read (registers name pwd) = simp (int_same, int_int, int_string, numbered 3 (omega arith))
  number_read (chats user to message time) =
      simp (int_same, int_int, int_string, numbered 5 (omega arith))
  number_read (adds_friend id friendid) =
      simp (int_same, int_int, int_string, numbered 6 (omega arith))
  number_read (creates_group id name desc) =
      simp (int_same, int_int, int_string, numbered 7 (omega arith))
  number_read (joins_group id groupid) =
      simp (int_same, int_int, int_string, numbered 8 (omega arith))
  number_read (chats_in_group user groupid message time) =
      simp (int_same, int_int, int_string, numbered 9 (omega arith))
  number_read (logs_out id) = simp (int_same, int_int, int_string, numbered 10 (omega arith))

  module _ ⦃S : MySql⦄ (conn : Conn) (s : Service) where
    handled :
        (r : Request)
        → HasInts r
        → get_handler (number r) conn (json_of r) s ≡ some (effect conn r s)
    unfolding get_handler handler_in msg_handler_map same_key bytes_eq login_request reg_request
        add_friend_request chat_request create_group_request add_group_request group_chat_request
        loginout_request Session.login Session.reg Session.loginout Chat.one_chat Chat.add_friend
        Groups.create_group Groups.add_group Groups.group_chat
    handled (logs_in id pwd) h = simp (int_same, int_int, int_string, string_string, string_int, h)
    handled (registers name pwd) h = simp (int_same, int_int, int_string, string_string, string_int)
    handled (chats user to message time) (h, k) =
        simp (int_same, int_int, int_string, string_string, string_int, h, k)
    handled (adds_friend id friendid) (h, k) =
        simp (int_same, int_int, int_string, string_string, string_int, h, k)
    handled (creates_group id name desc) h =
        simp (int_same, int_int, int_string, string_string, string_int, h)
    handled (joins_group id groupid) (h, k) =
        simp (int_same, int_int, int_string, string_string, string_int, h, k)
    handled (chats_in_group user groupid message time) (h, k) =
        simp (int_same, int_int, int_string, string_string, string_int, h, k)
    handled (logs_out id) h = simp (int_same, int_int, int_string, string_string, string_int, h)

    -- A buffer that begins with the bytes of a request, the effect of which is run; the rest is gone.
    pub received :
        (r : Request) (b : Buffer) (rest : Bytes)
        → HasInts r
        → IsValid b
        → contents b ≡ wire (json_of r) ++ rest
        → on_message conn b s ≡ some ((Buffer.retrieve_all_as_string b).1, effect conn r s)
    unfolding on_message wire
    received r b rest h v e =
        let js = json_of r in
        let text : (Buffer.retrieve_all_as_string b).0 ≡ J.dump js ++ 0 ∷ rest =
          (retrieve_all_as_string_lem v).0
          ∙ e
          ∙ ap (λ t. (t ++ 0 ∷ []) ++ rest) (laws.dump_plain js)
          ∙ append_assoc (J.dump js) (0 ∷ []) rest in
        simp (text, laws.parse_dump_nul js rest, number_read r, handled r h)

  module _ ⦃S : MySql⦄ (conn : Conn) (s : Service) (b : Buffer) (v : IsValid b) where
    -- With a JSON library that reads back what it wrote: when a valid buffer holds the bytes that
    -- the client sends for a request with `int` ids, `onMessage` has exactly the effect of the
    -- request, and leaves an empty valid buffer.
    pub request_served :
        (r : Request)
        → HasInts r
        → contents b ≡ wire (json_of r)
        → (b' : Buffer) × (on_message conn b s ≡ some (b', effect conn r s))
          × IsValid b'
          × (contents b' ≡ [])
    request_served r h e =
        let left = retrieve_all_as_string_lem v in
        (
          (Buffer.retrieve_all_as_string b).1,
          received conn s r b [] h v (e ∙ sym (append-nil (wire (json_of r)))),
          left.1,
          left.2,
        )

    -- When two requests of the client arrive together, the second one is lost: only the first has its
    -- effect, and the buffer is empty.
    pub second_lost :
        (r r' : Request)
        → HasInts r
        → contents b ≡ wire (json_of r) ++ wire (json_of r')
        → (b' : Buffer) × (on_message conn b s ≡ some (b', effect conn r s)) × (contents b' ≡ [])
    second_lost r r' h e = (
      (Buffer.retrieve_all_as_string b).1,
      received conn s r b (wire (json_of r')) h v e,
      (retrieve_all_as_string_lem v).2,
    )
