-- ===== src/Client.antt =====
-- The client program, src/client/main.cc: what it remembers, and the requests that it builds. What the
-- user types, the clock and what `send` returns are arguments.
pub mod Command
pub mod Main
pub mod Requests
pub mod Answer
pub mod EndToEnd
pub mod Lists
pub mod Time
pub mod Login
mod Tests
use cluster_chat_server.Prelude.{
  List, [], ◌∷◌, ◌++◌, ℕ, zero, suc, Option, none, some, Bool, true, false, if◌then◌else◌, ℤ, take,
}
use cluster_chat_server.Prelude.Text.{Bytes, c_str}
use cluster_chat_server.Json.{JsonLib, Json}
use cluster_chat_server.Model.Types.{User, Group, no_user}
use cluster_chat_server.Protocol.{
  login_msg, reg_msg, one_chat_msg, add_friend_msg, create_group_msg, add_group_msg, group_chat_msg,
  loginout_msg,
}

-- What it prints, as far as it depends on what was received or typed.
pub data Shown : Type 0 where
  -- time, id, name and text; a group message also with its group
  said : Bytes → Bytes → Bytes → Bytes → Shown
  said_in_group : Bytes → Bytes → Bytes → Bytes → Bytes → Shown
  login_refused : Bytes → Shown
  registered : Bytes → Shown
  name_exists commands current_data invalid_command invalid_arguments invalid_input send_failed :
      Shown

-- The globals, with `rwsem` as `posts`; `sent` is what the kernel took of each `send`, and `shown`
-- what was printed, oldest first.
pub record Client : Type 0 where
  pub current_user : User
  pub friends : List User
  pub groups : List Group
  pub menu_running : Bool
  pub login_success : Bool
  pub posts : ℕ
  pub sent : List Bytes
  pub shown : List Shown

unfoldable pub start : Client
start = record {
  current_user = no_user;
  friends = [];
  groups = [];
  menu_running = false;
  login_success = false;
  posts = 0;
  sent = [];
  shown = [];
}

unfoldable pub display : Shown → Client → Client
display x c = record c { shown = c.shown ++ x ∷ [] }

-- `sem_post`
unfoldable pub post : Client → Client
post c = record c { posts = suc c.posts }

module _ ⦃J : JsonLib⦄ where
  open J use {empty, set_int, set_string, dump}

  -- The bytes of a request: the text and its NUL.
  unfoldable pub wire : Json → Bytes
  wire js = c_str (dump js) ++ 0 ∷ []

  -- `send`, and what is printed when it returns -1.
  unfoldable pub transmit : Bool → Json → Client → Client
  unfolding display wire
  transmit delivered js c =
      if delivered then record c { sent = c.sent ++ wire js ∷ [] } else display send_failed c

  unfoldable pub login_request : ℤ → Bytes → Json
  login_request id pwd =
      set_string "password" pwd (set_int "id" id (set_int "msgid" login_msg empty))

  unfoldable pub reg_request : Bytes → Bytes → Json
  reg_request name pwd =
      set_string "password" pwd (set_string "name" name (set_int "msgid" reg_msg empty))

  unfoldable pub add_friend_request : ℤ → ℤ → Json
  add_friend_request id friendid =
      set_int "friendid" friendid (set_int "id" id (set_int "msgid" add_friend_msg empty))

  unfoldable pub chat_request : User → ℤ → Bytes → Bytes → Json
  chat_request user friendid message time = set_string "time" time (
      set_string "msg" message (
        set_int "to" friendid (
          set_string "name" user.name (set_int "id" user.id (set_int "msgid" one_chat_msg empty)))))

  unfoldable pub create_group_request : ℤ → Bytes → Bytes → Json
  create_group_request id groupname groupdesc =
      set_string "groupdesc" groupdesc (
        set_string "groupname" groupname (set_int "id" id (set_int "msgid" create_group_msg empty)))

  unfoldable pub add_group_request : ℤ → ℤ → Json
  add_group_request id groupid =
      set_int "groupid" groupid (set_int "userid" id (set_int "msgid" add_group_msg empty))

  unfoldable pub group_chat_request : User → ℤ → Bytes → Bytes → Json
  group_chat_request user groupid message time = set_string "time" time (
      set_string "msg" message (
        set_int "groupid" groupid (
          set_string "name" user.name
            (set_int "id" user.id (set_int "msgid" group_chat_msg empty)))))

  unfoldable pub loginout_request : ℤ → Json
  loginout_request id = set_int "id" id (set_int "msgid" loginout_msg empty)

  -- The login and the register entries of `main`, up to `sem_wait`, for what the user typed.
  unfoldable pub log_in : ℤ → Bytes → Bool → Client → Client
  unfolding transmit login_request
  log_in id pwd delivered c =
      transmit delivered (login_request id pwd) (record c { login_success = false })

  unfoldable pub sign_up : Bytes → Bytes → Bool → Client → Client
  unfolding transmit reg_request
  sign_up name pwd delivered c = transmit delivered (reg_request name pwd) c

-- `sem_wait` waits for a post and takes it.
unfoldable pub wait_post : Client → Option Client
wait_post c = elim c.posts [ zero ↦ none | suc n ↦ some (record c { posts = n }) ]

-- The login entry behind `sem_wait`: after a login that succeeded the menu opens with its help.
unfoldable pub open_menu : Client → Client
unfolding display
open_menu c = if c.login_success then display commands (record c { menu_running = true }) else c
