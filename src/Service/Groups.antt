-- ===== src/Service/Groups.antt =====
-- Groups: `createGroup`, `addGroup` and `groupChat`.
use cluster_chat_server.Prelude.{List, [], ◌∷◌, Option, some, if◌then◌else◌, ℤ, ◌>>=◌}
use cluster_chat_server.Prelude.Text.{Bytes, codes}
use cluster_chat_server.Json.{JsonLib, Json}
use cluster_chat_server.Sql.{MySql, Db}
use cluster_chat_server.Model.Types.{no_group}
use cluster_chat_server.Model.Group
use cluster_chat_server.Service.State.{Service, Conn}
use cluster_chat_server.Service.Chat.{deliver}

-- The role that a joining user has by default (include/server/model/groupModel.hpp).
abbrev pub normal : Bytes
normal = codes "normal"

abbrev pub creator : Bytes
creator = codes "creator"

module _ ⦃S : MySql⦄ where
  -- The loop of `groupChat`.
  unfoldable pub deliver_all : List ℤ → Bytes → Service → Service
  deliver_all [] text s = s
  deliver_all (id ∷ ids) text s = deliver_all ids text (deliver id text s)

  -- The creator joins the group that the database made.
  unfoldable pub found_group : ℤ → Bytes → Bytes → Db → Db
  found_group userid name desc db =
      let (created, group, db') =
        Group.create_group (record no_group { name = name; desc = desc }) db in
      if created then (Group.add_group userid group.id creator db').1 else db'

  -- The members but the sender, as the database lists them, each get the message.
  unfoldable pub send_group : ℤ → ℤ → Bytes → Service → Service
  send_group userid groupid text s =
      let (ids, db) = Group.query_group_users userid groupid s.db in
      deliver_all ids text (record s { db = db })

module _ ⦃J : JsonLib⦄ ⦃S : MySql⦄ where
  open J use {get_int, get_string, dump}

  unfoldable pub create_group : Conn → Json → Service → Option Service
  create_group conn js s = do
    userid ← get_int "id" js
    name ← get_string "groupname" js
    desc ← get_string "groupdesc" js
    some (record s { db = found_group userid name desc s.db })

  unfoldable pub add_group : Conn → Json → Service → Option Service
  add_group conn js s = do
    userid ← get_int "userid" js
    groupid ← get_int "groupid" js
    some (record s { db = (Group.add_group userid groupid normal s.db).1 })

  unfoldable pub group_chat : Conn → Json → Service → Option Service
  group_chat conn js s = do
    userid ← get_int "id" js
    groupid ← get_int "groupid" js
    some (send_group userid groupid (dump js) s)
