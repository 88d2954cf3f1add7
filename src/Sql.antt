-- ===== src/Sql.antt =====
-- The wrapper of the MySQL client library, src/server/db/db.cc. The library itself is the
-- parameter `MySql`: `Db` stands for the connection and the server behind it, and each call is a
-- function of that state.
use cluster_chat_server.Prelude.{
  ℕ, ◌≡◌, List, Bool, true, false, Option, none, some, arith, ◌==◌, if◌then◌else◌,
}
use cluster_chat_server.Prelude.Text.{Bytes, codes}

-- A fetched row: the texts of its columns.
abbrev pub Row : Type 0
Row = List Bytes

pub record MySql : Type 1 where
  pub Db : Type 0
  -- `mysql_real_connect`: whether it returned a connection.
  pub mysql_real_connect : Db → Bool × Db
  pub mysql_set_character_set : Bytes → Db → Db
  -- `mysql_query`: 0 is success.
  pub mysql_query : Bytes → Db → ℕ × Db
  -- The rows that `mysql_use_result` and `mysql_fetch_row` deliver; `none` is a null result.
  pub mysql_use_result : Db → Option (List Row)
  pub mysql_insert_id : Db → ℕ

-- The state of the database of the library in scope.
abbrev pub Db : ⦃S : MySql⦄ → Type 0
Db ⦃S⦄ = S.Db

module _ ⦃S : MySql⦄ where
  -- `MySQL::connect`.
  unfoldable pub connect : Db → Bool × Db
  connect db =
      let (connected, db') = S.mysql_real_connect db in
      if connected then (true, S.mysql_set_character_set (codes "utf8") db') else (false, db')

  -- `MySQL::update`.
  unfoldable pub update : Bytes → Db → Bool × Db
  update sql db =
      let (status, db') = S.mysql_query sql db in if status == 0 then (true, db') else (false, db')

  -- `MySQL::query`.
  unfoldable pub query : Bytes → Db → Option (List Row) × Db
  query sql db =
      let (status, db') = S.mysql_query sql db in
      if status == 0 then (S.mysql_use_result db', db') else (none, db')

  -- The body that the models' writing operations share: connect, and on success update.
  unfoldable pub connect_update : Bytes → Db → Bool × Db
  connect_update sql db =
      let (connected, db') = connect db in if connected then update sql db' else (false, db')

  -- The body that the models' reading operations share: connect, and on success query.
  unfoldable pub connect_query : Bytes → Db → Option (List Row) × Db
  connect_query sql db =
      let (connected, db') = connect db in if connected then query sql db' else (none, db')

  -- Rows come only from a statement that ran.
  pub connect_query-rows :
      (sql : Bytes) (db : Db) (rows : List Row)
      → (connect_query sql db).0 ≡ some rows
      → S.mysql_use_result (S.mysql_query sql (connect db).1).1 ≡ some rows
  unfolding connect_query query
  connect_query-rows sql db rows h = ground arith
