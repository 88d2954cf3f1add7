-- ===== src/Service/Laws.antt =====
-- What the service relies on of the JSON and database libraries.
use Prim.Native.String.{String}
use cluster_chat_server.Prelude.{
  ◌≡◌, refl, ◌≢◌, ◌≤◌, length, ◌++◌, ◌⊎◌, inl, inr, List, [], ◌∷◌, Option, none, some, get_or, ℤ,
  negsuc, IsInt, ap, ◌∙◌,
}
use cluster_chat_server.Prelude.Text.{Bytes, sql_room, show, atoi, atoi-show}
use cluster_chat_server.Json.{JsonLib}
use cluster_chat_server.Sql.{MySql, Db, Row, connect_query, connect, connect_query-rows}
use cluster_chat_server.Model.Offline
use cluster_chat_server.Model.Offline.{insert_text}
use cluster_chat_server.Model.User.{query_sql, query, first_user, user_of_row}

-- `get<int>()` returns a value of type `int`.
pub record ReadsInts (J : JsonLib) : Type 0 where
  pub is_int : (key : String) (js : J.Json) (i : ℤ) → J.get_int key js ≡ some i → IsInt i

-- The rows of `select * from User where id = %d` have that id in their first column.
pub record SelectsById (S : MySql) : Type 0 where
  pub has_id :
      (id : ℤ) (db : S.Db) (row : Row) (rows : List Row)
      → S.mysql_use_result (S.mysql_query (query_sql id) db).1 ≡ some (row ∷ rows)
      → get_or row 0 [] ≡ show id

-- A text that a statement can hold: no NUL, quote or backslash, and the statement fits its buffer.
abbrev pub Plain : Bytes → Type 0
Plain [] = Unit {0}
Plain (c ∷ s) = (c ≢ 0) × (c ≢ 39) × (c ≢ 92) × Plain s

pub record Fits (id : ℤ) (text : Bytes) : Type 0 where
  pub int : IsInt id
  pub plain : Plain text
  pub room : length (insert_text id text) ≤ sql_room

-- The tables of users and of offline messages, while the database is up: reading a user changes
-- neither; an offline message that fits is stored behind the others and changes no user.
pub record Tables (S : MySql) : Type 0 where
  pub inbox : S.Db → List (ℤ × Bytes)
  pub user_query :
      (id j : ℤ) (db : S.Db) → (query ⦃S = S⦄ j (query ⦃S = S⦄ id db).1).0 ≡ (query ⦃S = S⦄ j db).0
  pub inbox_query : (id : ℤ) (db : S.Db) → inbox (query ⦃S = S⦄ id db).1 ≡ inbox db
  pub user_insert :
      (id j : ℤ) (text : Bytes) (db : S.Db)
      → (query ⦃S = S⦄ j (Offline.insert ⦃S = S⦄ id text db).1).0 ≡ (query ⦃S = S⦄ j db).0
  pub inbox_insert :
      (id : ℤ) (text : Bytes) (db : S.Db)
      → Fits id text
      → inbox (Offline.insert ⦃S = S⦄ id text db).1 ≡ inbox db ++ (id, text) ∷ []

first_user-id :
    (id : ℤ) (rows : Option (List Row))
    → IsInt id
    → ((row : Row) (rest : List Row) → rows ≡ some (row ∷ rest) → get_or row 0 [] ≡ show id)
    → ((first_user rows).id ≡ negsuc 0) ⊎ ((first_user rows).id ≡ id)
unfolding first_user user_of_row
first_user-id id none i h = inl refl
first_user-id id (some []) i h = inl refl
first_user-id id (some (row ∷ rest)) i h = inr (ap atoi (h row rest refl) ∙ atoi-show id i)

module _ ⦃S : MySql⦄ (laws : SelectsById S) where
  -- The user that `UserModel::query` returns has the id that was asked for, or -1.
  pub query-id :
      (id : ℤ) (db : Db) → IsInt id → ((query id db).0.id ≡ negsuc 0) ⊎ ((query id db).0.id ≡ id)
  unfolding query
  query-id id db i = first_user-id id (connect_query (query_sql id) db).0 i λ row rest e.
      laws.has_id id (connect db).1 row rest (connect_query-rows (query_sql id) db (row ∷ rest) e)
