-- ===== src/Model/User.antt =====
-- src/server/model/userModel.cc. `none` in a row's place is a null pointer.
use cluster_chat_server.Prelude.{
  List, [], ◌∷◌, ◌++◌, Bool, true, false, Option, none, some, if◌then◌else◌, get_or, ℤ, to_int,
}
use cluster_chat_server.Prelude.Text.{Bytes, codes, c_str, show, atoi, snprintf}
use cluster_chat_server.Sql.{MySql, Db, Row, connect_update, connect_query}
use cluster_chat_server.Model.Types.{User, no_user}

unfoldable pub insert_sql : User → Bytes
insert_sql user = snprintf (
    codes "insert into User (name, password, state) values ('"
    ++ (c_str user.name
        ++ (codes "', '"
            ++ (c_str user.password ++ (codes "', '" ++ (c_str user.state ++ codes "')"))))))

unfoldable pub query_sql : ℤ → Bytes
query_sql id = snprintf (codes "select * from User where id = " ++ show id)

unfoldable pub update_sql : User → Bytes
update_sql user = snprintf (
    codes "update User set state = '"
    ++ (c_str user.state ++ (codes "' where id = " ++ show user.id)))

unfoldable pub reset_sql : Bytes
reset_sql = snprintf (codes "update User set state = 'offline' where state = 'online'")

-- The row of `select *`: id, name, password, state.
unfoldable pub user_of_row : Row → User
user_of_row row = record {
  id = atoi (get_or row 0 []);
  name = get_or row 1 [];
  password = get_or row 2 [];
  state = get_or row 3 [];
}

-- The first row, if the result has one.
unfoldable pub first_user : Option (List Row) → User
unfolding user_of_row
first_user none = no_user
first_user (some []) = no_user
first_user (some (row ∷ rows)) = user_of_row row

module _ ⦃S : MySql⦄ where
  -- `insert` sets the id that the database gave, on success.
  unfoldable pub insert : User → Db → Bool × User × Db
  insert user db =
      let (inserted, db') = connect_update (insert_sql user) db in
      if inserted
      then (true, record user { id = to_int (S.mysql_insert_id db') }, db')
      else (false, user, db')

  unfoldable pub query : ℤ → Db → User × Db
  unfolding first_user
  query id db = let (rows, db') = connect_query (query_sql id) db in (first_user rows, db')

  unfoldable pub update : User → Db → Bool × Db
  update user db = connect_update (update_sql user) db

  unfoldable pub reset_state : Db → Bool × Db
  reset_state db = connect_update reset_sql db
