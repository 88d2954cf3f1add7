-- ===== src/Service/Chat.antt =====
-- Messages between users: `oneChat`, `handleRedisSubsribeMessage`, `addFriend`.
use cluster_chat_server.Prelude.{Option, none, some, if◌then◌else◌, ℤ, ◌>>=◌}
use cluster_chat_server.Prelude.Text.{Bytes, bytes_eq}
use cluster_chat_server.Json.{JsonLib, Json}
use cluster_chat_server.Sql.{MySql}
use cluster_chat_server.Model.Types.{online}
use cluster_chat_server.Model.User
use cluster_chat_server.Model.Friend
use cluster_chat_server.Model.Offline
use cluster_chat_server.Service.State.{Service, Conn, publish, find, send, call_redis}

module _ ⦃S : MySql⦄ where
  unfoldable pub store_offline : ℤ → Bytes → Service → Service
  store_offline id text s = record s { db = (Offline.insert id text s.db).1 }

  -- For a user who is not connected to this server: by Redis if the database says that the user is
  -- online, else into the table of offline messages.
  unfoldable pub deliver_remote : ℤ → Bytes → Service → Service
  unfolding call_redis store_offline
  deliver_remote id text s =
      let (user, db) = User.query id s.db in
      if bytes_eq user.state online
      then call_redis (publish id text) (record s { db = db })
      else store_offline id text (record s { db = db })

  -- The way of a message to one user, the same in `oneChat` and in the loop of `groupChat`.
  unfoldable pub deliver : ℤ → Bytes → Service → Service
  unfolding send
  deliver id text s = elim (find id s.conn_map) [
    | some conn ↦ send conn text s
    | none ↦ deliver_remote id text s
  ]

  -- A message that another server published for a user of this one.
  unfoldable pub handle_redis_subscribe_message : ℤ → Bytes → Service → Service
  unfolding send store_offline
  handle_redis_subscribe_message id text s = elim (find id s.conn_map) [
    | some conn ↦ send conn text s
    | none ↦ store_offline id text s
  ]

module _ ⦃J : JsonLib⦄ ⦃S : MySql⦄ where
  open J use {get_int, dump}

  unfoldable pub one_chat : Conn → Json → Service → Option Service
  one_chat conn js s = do toid ← get_int "to" js; some (deliver toid (dump js) s)

  unfoldable pub add_friend : Conn → Json → Service → Option Service
  add_friend conn js s = do
    userid ← get_int "id" js
    friendid ← get_int "friendid" js
    some (record s { db = (Friend.insert userid friendid s.db).1 })
