-- ===== src/Service/Dispatch.antt =====
-- The table of handlers, and the callbacks of src/server/chatServer.cc that use it.
use cluster_chat_server.Prelude.{
  List, [], ◌∷◌, Bool, Option, some, if◌then◌else◌, ℤ, ◌==ℤ◌, ◌>>=◌, Bool-cases, inl, inr,
}
use cluster_chat_server.Buffer
use cluster_chat_server.Buffer.{Buffer}
use cluster_chat_server.Json.{JsonLib, Json}
use cluster_chat_server.Protocol.{
  login_msg, reg_msg, one_chat_msg, add_friend_msg, create_group_msg, add_group_msg, group_chat_msg,
  loginout_msg,
}
use cluster_chat_server.Sql.{MySql}
use cluster_chat_server.Service.State.{Service, Conn}
use cluster_chat_server.Service.Session.{login, loginout, reg, client_close_exception}
use cluster_chat_server.Service.Chat.{one_chat, add_friend}
use cluster_chat_server.Service.Groups.{create_group, add_group, group_chat}

module _ ⦃J : JsonLib⦄ ⦃S : MySql⦄ where
  abbrev pub Handler : Type 0
  Handler = Conn → Json → Service → Option Service

  -- `_msgHandlerMap`, as the constructor fills it.
  unfoldable pub msg_handler_map : List (ℤ × Handler)
  msg_handler_map =
      (login_msg, login)
      ∷ (reg_msg, reg)
      ∷ (one_chat_msg, one_chat)
      ∷ (add_friend_msg, add_friend)
      ∷ (create_group_msg, create_group)
      ∷ (add_group_msg, add_group)
      ∷ (group_chat_msg, group_chat)
      ∷ (loginout_msg, loginout)
      ∷ []

  -- The default handler does nothing.
  unfoldable pub ignore : Handler
  ignore conn js s = some s

  unfoldable pub handler_in : ℤ → List (ℤ × Handler) → Handler
  handler_in msgid [] = ignore
  handler_in msgid ((key, handler) ∷ rest) =
      let other = handler_in msgid rest in if key ==ℤ msgid then handler else other

  unfoldable pub get_handler : ℤ → Handler
  get_handler msgid = handler_in msgid msg_handler_map

  -- `ChatServer::onMessage`: the whole buffer is one JSON text, and goes to the handler of its number.
  unfoldable pub on_message : Conn → Buffer → Service → Option (Buffer × Service)
  on_message conn buffer s = do
    let (text, rest) = Buffer.retrieve_all_as_string buffer
    js ← J.parse text
    msgid ← J.get_int "msgid" js
    s' ← get_handler msgid conn js s
    some (rest, s')

  -- `ChatServer::onConnection`, given whether the connection is up. The call of `shutdown` behind the
  -- clean-up does nothing then: the connection is not in the state `kConnected`.
  unfoldable pub on_connection : Bool → Conn → Service → Service
  on_connection connected conn s = if connected then s else client_close_exception conn s

  -- What every handler of the table and the default handler do, `get_handler` does.
  abbrev pub AllHandlers : (Handler → Type 0) → List (ℤ × Handler) → Type 0
  AllHandlers P [] = Unit
  AllHandlers P ((key, handler) ∷ rest) = P handler × AllHandlers P rest

  handler_in-All :
      (P : Handler → Type 0) (msgid : ℤ) (table : List (ℤ × Handler))
      → P ignore
      → AllHandlers P table
      → P (handler_in msgid table)
  unfolding handler_in
  handler_in-All P msgid [] d all = d
  handler_in-All P msgid ((key, handler) ∷ rest) d all = elim (Bool-cases (key ==ℤ msgid)) [
    | inl e ↦ rw e all.0
    | inr e ↦ rw e (handler_in-All P msgid rest d all.1)
  ]

  pub get_handler-All :
      (P : Handler → Type 0) (msgid : ℤ)
      → P ignore
      → AllHandlers P msg_handler_map
      → P (get_handler msgid)
  unfolding get_handler
  get_handler-All P msgid d all = handler_in-All P msgid msg_handler_map d all
