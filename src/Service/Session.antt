-- ===== src/Service/Session.antt =====
-- Accounts and sessions: `login`, `loginout`, `reg`, `clientCloseException` and `reset`.
use cluster_chat_server.Prelude.{
  ℕ, List, [], ◌∷◌, map, Bool, not, ◌&&◌, Option, none, some, if◌then◌else◌, ℤ, pos, negsuc, ◌==ℤ◌,
  ◌>>=◌,
}
use cluster_chat_server.Prelude.Text.{Bytes, codes, bytes_eq}
use cluster_chat_server.Json.{JsonLib, Json}
use cluster_chat_server.Protocol.{login_msg_ack, reg_msg_ack}
use cluster_chat_server.Sql.{MySql, Db}
use cluster_chat_server.Model.Types.{User, GroupUser, Group, no_user, online, offline}
use cluster_chat_server.Model.User
use cluster_chat_server.Model.Friend
use cluster_chat_server.Model.Group
use cluster_chat_server.Model.Offline
use cluster_chat_server.Service.State.{
  Service, Conn, subscribe, unsubscribe, find, insert, erase, key_of, send, call_redis,
}

module _ ⦃J : JsonLib⦄ where
  open J use {empty, set_int, set_string, set_strings, dump}

  -- The JSON texts that the answer to a login holds for a friend, a member and a group.
  unfoldable pub friend_json : User → Bytes
  friend_json user =
      dump
        (set_string "state" user.state (set_string "name" user.name (set_int "id" user.id empty)))

  unfoldable pub member_json : GroupUser → Bytes
  member_json user = dump (
      set_string "role" user.role
        (set_string "state" user.state (set_string "name" user.name (set_int "id" user.id empty))))

  unfoldable pub group_json : Group → Bytes
  unfolding member_json
  group_json group = dump (
      set_strings "users" (map member_json group.users) (
        set_string "groupdesc" group.desc
          (set_string "groupname" group.name (set_int "id" group.id empty))))

  -- `response["errno"]` and `response["errmsg"]` of a refused login.
  unfoldable pub refusal : ℕ → Bytes → Json
  refusal errno errmsg =
      set_string "errmsg" errmsg (set_int "errno" (pos errno) (set_int "msgid" login_msg_ack empty))

  -- A vector is put into the answer only if it is not empty.
  unfoldable pub with_offline : List Bytes → Json → Json
  with_offline [] js = js
  with_offline (m ∷ ms) js = set_strings "offlinemsg" (m ∷ ms) js

  unfoldable pub with_friends : List User → Json → Json
  unfolding friend_json
  with_friends [] js = js
  with_friends (u ∷ us) js = set_strings "friends" (map friend_json (u ∷ us)) js

  unfoldable pub with_groups : List Group → Json → Json
  unfolding group_json
  with_groups [] js = js
  with_groups (g ∷ gs) js = set_strings "groups" (map group_json (g ∷ gs)) js

  unfoldable pub greeting : User → Json
  greeting user =
      set_string "name" user.name
        (set_int "id" user.id (set_int "errno" (pos 0) (set_int "msgid" login_msg_ack empty)))

module _ ⦃S : MySql⦄ where
  -- Offline messages are deleted once they are read.
  unfoldable pub remove_read : ℤ → List Bytes → Db → Db
  remove_read id [] db = db
  remove_read id (m ∷ ms) db = (Offline.remove id db).1

module _ ⦃S : MySql⦄ where
  -- The state that the database holds of a user who is gone from the map.
  unfoldable pub set_offline : Option ℤ → Service → Service
  set_offline none s = s
  set_offline (some id) s =
      if id ==ℤ negsuc 0
      then s
      else record s { db = (User.update (record no_user { id = id; state = offline }) s.db).1 }

  -- `user.getId()` after the search: -1 if nothing was found.
  unfoldable pub id_or_unset : Option ℤ → ℤ
  id_or_unset none = negsuc 0
  id_or_unset (some id) = id

  -- Both ways to leave: take the entry out of the map, unsubscribe, set the user offline.
  unfoldable pub erase_found : Option ℤ → Service → Service
  erase_found none s = s
  erase_found (some id) s = record s { conn_map = erase id s.conn_map }

  unfoldable pub logged_in_key : ℤ → Option Conn → Option ℤ
  logged_in_key id none = none
  logged_in_key id (some conn) = some id

  unfoldable pub leave : ℤ → Service → Service
  unfolding erase_found set_offline call_redis logged_in_key
  leave id s =
      let found = logged_in_key id (find id s.conn_map) in
      set_offline found (call_redis (unsubscribe id) (erase_found found s))

  -- A connection that was lost: its user, if it has one, leaves.
  unfoldable pub client_close_exception : Conn → Service → Service
  unfolding erase_found set_offline call_redis id_or_unset
  client_close_exception conn s =
      let found = key_of conn s.conn_map in
      set_offline found (call_redis (unsubscribe (id_or_unset found)) (erase_found found s))

  unfoldable pub reset : Service → Service
  reset s = record s { db = (User.reset_state s.db).1 }

module _ ⦃J : JsonLib⦄ ⦃S : MySql⦄ where
  open J use {empty, set_int, set_string, get_int, get_string, dump}

  -- A login that the database has recorded: register the connection, subscribe, collect the answer.
  unfoldable pub accept : Conn → ℤ → User → Service → Service
  unfolding send call_redis remove_read with_offline with_friends with_groups greeting
  accept conn id user s =
      let (messages, db1) = Offline.query id s.db in
      let db2 = remove_read id messages db1 in
      let (friends, db3) = Friend.query id db2 in
      let (groups, db4) = Group.query_groups id db3 in
      send conn
        (dump (with_groups groups (with_friends friends (with_offline messages (greeting user)))))
        (call_redis (subscribe id) (record s { conn_map = insert id conn s.conn_map; db = db4 }))

  unfoldable pub refuse : Conn → ℕ → Bytes → Service → Service
  unfolding send refusal
  refuse conn errno errmsg s = send conn (dump (refusal errno errmsg)) s

  -- The account exists and the password fits: refuse a second login, record the first one.
  unfoldable pub enter : Conn → ℤ → User → Service → Service
  enter conn id user s =
      if bytes_eq user.state online
      then refuse conn 2 (codes "this account is using, input another!") s
      else let (updated, db) = User.update (record user { state = online }) s.db in
        if updated
        then accept conn id (record user { state = online }) (record s { db = db })
        else refuse conn 3 (codes "login failure!") (record s { db = db })

  unfoldable pub authenticate : Conn → ℤ → Bytes → Service → Service
  authenticate conn id password s =
      let (user, db) = User.query id s.db in
      if not (user.id ==ℤ negsuc 0) && bytes_eq user.password password
      then enter conn id user (record s { db = db })
      else refuse conn 1 (codes "The user name or password is incorrect!") (record s { db = db })

  unfoldable pub login : Conn → Json → Service → Option Service
  login conn js s = do
    id ← get_int "id" js
    password ← get_string "password" js
    some (authenticate conn id password s)

  unfoldable pub loginout : Conn → Json → Service → Option Service
  loginout conn js s = do userid ← get_int "id" js; some (leave userid s)

  -- The answer to a registration.
  unfoldable pub reg_response : Bool → User → Json
  reg_response inserted user =
      let response = set_int "msgid" reg_msg_ack empty in
      if inserted
      then set_string "name" user.name (set_int "id" user.id (set_int "errno" (pos 0) response))
      else set_int "errno" (pos 1) response

  unfoldable pub register : Conn → Bytes → Bytes → Service → Service
  unfolding send reg_response
  register conn name password s =
      let (inserted, user, db) =
        User.insert (record no_user { name = name; password = password }) s.db in
      send conn (dump (reg_response inserted user)) (record s { db = db })

  unfoldable pub reg : Conn → Json → Service → Option Service
  reg conn js s = do
    name ← get_string "name" js
    password ← get_string "password" js
    some (register conn name password s)
