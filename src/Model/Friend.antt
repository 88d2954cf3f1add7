-- ===== src/Model/Friend.antt =====
-- src/server/model/friendModel.cc.
use cluster_chat_server.Prelude.{List, [], ◌++◌, map, Bool, Option, none, some, get_or, ℤ}
use cluster_chat_server.Prelude.Text.{Bytes, codes, show, atoi, snprintf}
use cluster_chat_server.Sql.{MySql, Db, Row, connect_update, connect_query}
use cluster_chat_server.Model.Types.{User, no_user}

unfoldable pub insert_sql : ℤ → ℤ → Bytes
insert_sql userid friendid = snprintf (
    codes "insert into Friend values ('"
    ++ (show userid ++ (codes "', '" ++ (show friendid ++ codes "')"))))

unfoldable pub query_sql : ℤ → Bytes
query_sql userid = snprintf (
    codes
      "select a.id,a.name,a.state from User a inner join Friend b on b.friendid = a.id where b.userid="
    ++ show userid)

-- The password of a friend stays empty.
unfoldable pub friend_of_row : Row → User
friend_of_row row = record no_user {
  id = atoi (get_or row 0 []);
  name = get_or row 1 [];
  state = get_or row 2 [];
}

unfoldable pub friends : Option (List Row) → List User
unfolding friend_of_row
friends none = []
friends (some rows) = map friend_of_row rows

module _ ⦃S : MySql⦄ where
  unfoldable pub insert : ℤ → ℤ → Db → Bool × Db
  insert userid friendid db = connect_update (insert_sql userid friendid) db

  unfoldable pub query : ℤ → Db → List User × Db
  unfolding friends
  query userid db = let (rows, db') = connect_query (query_sql userid) db in (friends rows, db')
