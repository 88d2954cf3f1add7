-- ===== src/Service/ToyDb.antt =====
-- A concrete database for the tests: the table of users and the table of offline messages, for the
-- statements of these models. Other statements succeed and give no row.
use cluster_chat_server.Prelude.{
  ◌≡◌, refl, List, [], ◌∷◌, ◌++◌, true, some, arith, if◌then◌else◌, ◌==◌, ℤ, IsInt, take, drop,
  take-all, get_or, inl, ◌∙◌, ap, sym,
}
use cluster_chat_server.Prelude.Text.{
  Bytes, codes, bytes_eq, bytes_eq-eq, show, snprintf, atoi, atoi-show, c_str,
}
use cluster_chat_server.Prelude.Digits.{length-show}
use cluster_chat_server.Prelude.Avoid.{Avoids, show-Avoids}
use cluster_chat_server.Sql.{MySql, Row, connect, connect_query, connect_update, query, update}
use cluster_chat_server.Model.User
use cluster_chat_server.Model.User.{query_sql}
use cluster_chat_server.Model.Offline
use cluster_chat_server.Model.Offline.{insert_sql, insert_text}
use cluster_chat_server.Service.Laws.{SelectsById, Tables, Plain, Fits}

pub record ToyDb : Type 0 where
  pub users : List Row
  pub mail : List (ℤ × Bytes)
  pub result : List Row

abbrev select_user : Bytes
select_user = codes "select * from User where id = "

abbrev insert_mail : Bytes
insert_mail = codes "insert into OfflineMessage values ('"

abbrev rows_with : Bytes → List Row → List Row
rows_with key [] = []
rows_with key (row ∷ rows) =
    let rest = rows_with key rows in if bytes_eq (get_or row 0 []) key then row ∷ rest else rest

-- The text before the first quote, and the text behind it.
abbrev until_quote : Bytes → Bytes
until_quote [] = []
until_quote (c ∷ s) = let rest = until_quote s in if c == b'\'' then [] else c ∷ rest

abbrev from_quote : Bytes → Bytes
from_quote [] = []
from_quote (c ∷ s) = let rest = from_quote s in if c == b'\'' then s else rest

abbrev mail_of : Bytes → ℤ × Bytes
mail_of s = (atoi (until_quote s), until_quote (drop 3 (from_quote s)))

abbrev execute : Bytes → ToyDb → ToyDb
execute sql db =
    if bytes_eq (take 30 sql) select_user
    then record db { result = rows_with (drop 30 sql) db.users }
    else if bytes_eq (take 36 sql) insert_mail
    then record db { mail = db.mail ++ mail_of (drop 36 sql) ∷ []; result = [] }
    else record db { result = [] }

abbrev pub toy_sql : MySql
toy_sql = record {
  Db = ToyDb;
  mysql_real_connect = λ db. (true, db);
  mysql_set_character_set = λ name db. db;
  mysql_query = λ sql db. (0, execute sql db);
  mysql_use_result = λ db. some db.result;
  mysql_insert_id = λ db. 1;
}

rows_with-first :
    (key : Bytes) (rows : List Row) (row : Row) (rest : List Row)
    → rows_with key rows ≡ row ∷ rest
    → get_or row 0 [] ≡ key
rows_with-first key [] row rest h = ground arith
rows_with-first key (r ∷ rows) row rest h =
    ground (arith, rows_with-first key rows row rest, bytes_eq-eq (get_or r 0 []) key)

select-lem :
    (id : ℤ) (db : ToyDb)
    → execute (query_sql id) db ≡ record db { result = rows_with (show id) db.users }
unfolding query_sql snprintf bytes_eq
select-lem id db =
    ap (λ key. record db { result = rows_with key db.users })
      (take-all 993 (show id) (omega (arith, length-show id)))

some_eq : {x y : List Row} → some x ≡ some y → x ≡ y
some_eq h = cc

pub toy_sql-SelectsById : SelectsById toy_sql
toy_sql-SelectsById = record {
  has_id = λ id db row rows h.
      rows_with-first (show id) db.users row rows
        (sym (ap (λ (d : ToyDb). d.result) (select-lem id db)) ∙ some_eq h);
}

quoted :
    (xs ys : Bytes)
    → Avoids 39 xs
    → (until_quote (xs ++ b'\'' ∷ ys) ≡ xs) × (from_quote (xs ++ b'\'' ∷ ys) ≡ ys)
quoted [] ys h = (refl, refl)
quoted (x ∷ xs) ys h = ground (arith, h.0, quoted xs ys h.1)

Plain-Avoids : (s : Bytes) → Plain s → Avoids 39 s
Plain-Avoids [] h = tt
Plain-Avoids (c ∷ s) h = (h.1, Plain-Avoids s h.3)

c_str-Plain : (s : Bytes) → Plain s → c_str s ≡ s
unfolding c_str
c_str-Plain [] h = refl
c_str-Plain (c ∷ s) h = ground (arith, h.0, c_str-Plain s h.3)

mail_of-lem :
    (id : ℤ) (text : Bytes)
    → IsInt id
    → Plain text
    → mail_of (show id ++ (codes "', '" ++ (c_str text ++ codes "')"))) ≡ (id, text)
mail_of-lem id text i h =
    let a =
      quoted (show id) (codes ", '" ++ (text ++ codes "')"))
        (show-Avoids 39 id (inl (omega arith))) in
    let b = quoted text (codes ")") (Plain-Avoids text h) in
    rw (c_str-Plain text h, a.0, a.1, b.0, atoi-show id i)

insert-lem :
    (id : ℤ) (text : Bytes) (db : ToyDb)
    → Fits id text
    → execute (insert_sql id text) db ≡ record db { mail = db.mail ++ (id, text) ∷ []; result = [] }
unfolding insert_sql insert_text snprintf bytes_eq
insert-lem id text db fits =
    rw (take-all 1023 (insert_text id text) fits.room, mail_of-lem id text fits.int fits.plain)

pub toy_sql-Tables : Tables toy_sql
unfolding User.query connect_query connect query query_sql snprintf bytes_eq Offline.insert
    connect_update update insert_sql insert_text
toy_sql-Tables = record {
  inbox = λ db. db.mail;
  user_query = λ id j db. refl;
  inbox_query = λ id db. refl;
  user_insert = λ id j text db. refl;
  inbox_insert = λ id text db fits. ap (λ (d : ToyDb). d.mail) (insert-lem id text db fits);
}
