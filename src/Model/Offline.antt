-- ===== src/Model/Offline.antt =====
-- src/server/model/offlineMessageModel.cc.
use cluster_chat_server.Prelude.{List, [], ◌++◌, map, Bool, Option, none, some, get_or, ℤ}
use cluster_chat_server.Prelude.Text.{Bytes, codes, c_str, show, snprintf}
use cluster_chat_server.Sql.{MySql, Db, Row, connect_update, connect_query}

-- The statement as the format string has it, before it is cut to the buffer.
unfoldable pub insert_text : ℤ → Bytes → Bytes
insert_text userid msg =
    codes "insert into OfflineMessage values ('"
    ++ (show userid ++ (codes "', '" ++ (c_str msg ++ codes "')")))

unfoldable pub insert_sql : ℤ → Bytes → Bytes
unfolding insert_text
insert_sql userid msg = snprintf (insert_text userid msg)

unfoldable pub remove_sql : ℤ → Bytes
remove_sql userid = snprintf (codes "delete from OfflineMessage  where userid = " ++ show userid)

unfoldable pub query_sql : ℤ → Bytes
query_sql userid =
    snprintf (codes "select message from OfflineMessage  where userid = " ++ show userid)

unfoldable pub messages : Option (List Row) → List Bytes
messages none = []
messages (some rows) = map (λ row. get_or row 0 []) rows

module _ ⦃S : MySql⦄ where
  unfoldable pub insert : ℤ → Bytes → Db → Bool × Db
  insert userid msg db = connect_update (insert_sql userid msg) db

  unfoldable pub remove : ℤ → Db → Bool × Db
  remove userid db = connect_update (remove_sql userid) db

  unfoldable pub query : ℤ → Db → List Bytes × Db
  unfolding messages
  query userid db = let (rows, db') = connect_query (query_sql userid) db in (messages rows, db')
