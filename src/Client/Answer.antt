-- ===== src/Client/Answer.antt =====
-- The receiving thread: `readTaskHandler`, `doLoginResponse` and `doRegResponse`. `none` is an
-- exception that nothing catches, or the exit when the connection ends.
use cluster_chat_server.Prelude.{
  List, [], ◌∷◌, true, false, not, Option, none, some, if◌then◌else◌, ◌>>=◌, pos, ◌==ℤ◌, ℕ, ◌==◌,
  take, length,
}
use cluster_chat_server.Prelude.Text.{Bytes, c_str}
use cluster_chat_server.Json.{JsonLib, Json}
use cluster_chat_server.Model.Types.{User, GroupUser, Group, no_user}
use cluster_chat_server.Protocol.{login_msg_ack, reg_msg_ack, one_chat_msg, group_chat_msg}
use cluster_chat_server.Client.{
  Client, said, said_in_group, login_refused, registered, name_exists, current_data, display, post,
}

-- A loop over a list of which each step can throw.
abbrev pub each {ℓ κ} : {A : Type ℓ} {B : Type κ} → (A → Option B) → List A → Option (List B)
each f [] = some []
each f (x ∷ xs) = do y ← f x; ys ← each f xs; some (y ∷ ys)

-- The `buffer` that `readTaskHandler` receives into.
abbrev pub buffer_size : ℕ
buffer_size = 1024

module _ ⦃J : JsonLib⦄ where
  open J use {get_int, get_string, get_strings, contains, print, parse}

  unfoldable pub do_reg_response : Json → Client → Option Client
  unfolding display
  do_reg_response js c = do
    errno ← get_int "errno" js
    some (
        if not (errno ==ℤ pos 0)
        then display name_exists c
        else display (registered (print "id" js)) c)

  -- A friend and a member of a group, as the answer to a login holds them.
  unfoldable pub read_friend : Bytes → Option User
  read_friend str = do
    js ← parse str
    id ← get_int "id" js
    name ← get_string "name" js
    state ← get_string "state" js
    some (record no_user { id = id; name = name; state = state })

  unfoldable pub read_member : Bytes → Option GroupUser
  read_member str = do
    js ← parse str
    id ← get_int "id" js
    name ← get_string "name" js
    state ← get_string "state" js
    role ← get_string "role" js
    some (record { user = record no_user { id = id; name = name; state = state }; role = role })

  unfoldable pub read_group : Bytes → Option Group
  unfolding read_member
  read_group str = do
    js ← parse str
    id ← get_int "id" js
    name ← get_string "groupname" js
    desc ← get_string "groupdesc" js
    members ← get_strings "users" js
    users ← each read_member members
    some (record { id = id; name = name; desc = desc; users = users })

  -- The lists stay as they are when the answer has none.
  unfoldable pub take_friends : Json → Client → Option Client
  unfolding read_friend
  take_friends js c =
      if contains "friends" js
      then (do
        texts ← get_strings "friends" js
        friends ← each read_friend texts
        some (record c { friends = friends }))
      else some c

  unfoldable pub take_groups : Json → Client → Option Client
  unfolding read_group
  take_groups js c =
      if contains "groups" js
      then (do
        texts ← get_strings "groups" js
        groups ← each read_group texts
        some (record c { groups = groups }))
      else some c

  -- A chat message, of one user or in a group.
  unfoldable pub show_chat : Json → Client → Option Client
  unfolding display
  show_chat js c = do
    time ← get_string "time" js
    name ← get_string "name" js
    text ← get_string "msg" js
    some (display (said time (print "id" js) name text) c)

  unfoldable pub show_group_chat : Json → Client → Option Client
  unfolding display
  show_group_chat js c = do
    time ← get_string "time" js
    name ← get_string "name" js
    text ← get_string "msg" js
    some (display (said_in_group (print "groupid" js) time (print "id" js) name text) c)

  unfoldable pub show_offline : List Bytes → Client → Option Client
  unfolding show_chat show_group_chat
  show_offline [] c = some c
  show_offline (str ∷ rest) c = do
    js ← parse str
    msgid ← get_int "msgid" js
    c' ← if msgid ==ℤ one_chat_msg then show_chat js c else show_group_chat js c
    show_offline rest c'

  unfoldable pub take_offline : Json → Client → Option Client
  unfolding show_offline
  take_offline js c =
      if contains "offlinemsg" js
      then (do texts ← get_strings "offlinemsg" js; show_offline texts c)
      else some c

  -- A login that the server accepted.
  unfoldable pub enter : Json → Client → Option Client
  unfolding take_friends take_groups take_offline display
  enter js c = do
    id ← get_int "id" js
    name ← get_string "name" js
    c1 ←
        take_friends js (record c { current_user = record c.current_user { id = id; name = name } })
    c2 ← take_groups js c1
    c3 ← take_offline js (display current_data c2)
    some (record c3 { login_success = true })

  unfoldable pub do_login_response : Json → Client → Option Client
  unfolding enter display
  do_login_response js c = do
    errno ← get_int "errno" js
    (if not (errno ==ℤ pos 0)
        then some (record (display (login_refused (print "errmsg" js)) c) { login_success = false })
        else enter js c)

  -- What the loop of `readTaskHandler` does with a JSON value, by its message number.
  unfoldable pub handle : Json → Client → Option Client
  unfolding show_chat show_group_chat do_login_response do_reg_response post
  handle js c = do
    msgtype ← get_int "msgid" js
    (if msgtype ==ℤ one_chat_msg
        then show_chat js c
        else if msgtype ==ℤ group_chat_msg
        then show_group_chat js c
        else if msgtype ==ℤ login_msg_ack
        then (do c' ← do_login_response js c; some (post c'))
        else if msgtype ==ℤ reg_msg_ack
        then (do c' ← do_reg_response js c; some (post c'))
        else some c)

  -- One round of `readTaskHandler`, for the bytes that wait at the socket, which `recv` takes as far
  -- as the buffer reaches. `none`: there are no bytes, or there is an error, which ends the program;
  -- the text cannot be read; or `recv` fills the buffer and `buffer[len] = 0` writes behind it.
  unfoldable pub read_task : Bytes → Client → Option Client
  unfolding handle
  read_task [] c = none
  read_task (b ∷ bs) c =
      let got = take buffer_size (b ∷ bs) in
      let handled = (do js ← parse (c_str got); handle js c) in
      if length got == buffer_size then none else handled
