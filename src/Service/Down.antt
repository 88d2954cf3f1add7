-- ===== src/Service/Down.antt =====
-- What the service does while no connection to the database can be made.
use cluster_chat_server.Prelude.{◌≡◌, refl, [], ◌∷◌, ◌++◌, false, none, ℤ, ap, ◌∙◌}
use cluster_chat_server.Prelude.Text.{Bytes, codes, bytes_eq}
use cluster_chat_server.Json.{JsonLib}
use cluster_chat_server.Sql.{MySql, Db, connect, connect_query, connect_update}
use cluster_chat_server.Model.Types.{no_user}
use cluster_chat_server.Model.User
use cluster_chat_server.Model.Offline
use cluster_chat_server.Service.State.{Service, Conn, find, send}
use cluster_chat_server.Service.Session.{authenticate, refuse, refusal}
use cluster_chat_server.Service.Chat.{deliver, deliver_remote, store_offline}

abbrev pub IsDown : MySql → Type 0
IsDown S = (db : S.Db) → (S.mysql_real_connect db).0 ≡ false

module _ ⦃S : MySql⦄ (down : IsDown S) where
  no_rows : (sql : Bytes) (db : Db) → (connect_query sql db).0 ≡ none
  unfolding connect_query connect
  no_rows sql db = rw (down db) refl

  query-no_user : (id : ℤ) (db : Db) → (User.query id db).0 ≡ no_user
  unfolding User.query User.first_user
  query-no_user id db = rw (no_rows (User.query_sql id) db, User.first_user) refl

  remote_lost :
      (id : ℤ) (text : Bytes) (s : Service)
      → let t = deliver_remote id text s in
        (t.sent ≡ s.sent) × (t.redis ≡ s.redis) × (t.conn_map ≡ s.conn_map)
  unfolding deliver_remote store_offline bytes_eq
  remote_lost id text s = rw (query-no_user id s.db) (refl, refl, refl)

  deliver_away :
      (id : ℤ) (text : Bytes) (s : Service)
      → find id s.conn_map ≡ none
      → deliver id text s ≡ deliver_remote id text s
  unfolding deliver
  deliver_away id text s e = rw (e, deliver) refl

  not_inserted : (id : ℤ) (text : Bytes) (db : Db) → (Offline.insert id text db).0 ≡ false
  unfolding Offline.insert connect_update connect
  not_inserted id text db = rw (down db) refl

  module _ ⦃J : JsonLib⦄ where
    -- While no connection to the database can be made: a login is refused as if the password were
    -- wrong, with the error number 1, and starts no session; a message to a user who is not
    -- connected to this server is neither sent nor published, and the attempt to store it fails.
    pub down_loses :
        (conn : Conn) (id : ℤ) (password text : Bytes) (s : Service)
        → find id s.conn_map ≡ none
        → let t = authenticate conn id password s in
          let u = deliver id text s in
          let wrong = J.dump (refusal 1 (codes "The user name or password is incorrect!")) in
          (t.sent ≡ s.sent ++ (conn, wrong) ∷ [])
          × (t.conn_map ≡ s.conn_map)
          × (t.redis ≡ s.redis)
          × (u.sent ≡ s.sent)
          × (u.redis ≡ s.redis)
          × ((Offline.insert id text (User.query id s.db).1).0 ≡ false)
    unfolding authenticate refuse send
    down_loses conn id password text s away =
        let lost = remote_lost id text s in
        let same = deliver_away id text s away in
        let first = query-no_user id s.db in
        (
          rw (first, authenticate) refl,
          rw (first, authenticate) refl,
          rw (first, authenticate) refl,
          ap (λ (t : Service). t.sent) same ∙ lost.0,
          ap (λ (t : Service). t.redis) same ∙ lost.1,
          not_inserted id text (User.query id s.db).1,
        )
