-- ===== src/Service/State.antt =====
-- The state of `ChatService`, and the operations on its connection map.
use cluster_chat_server.Prelude.{
  ℕ, List, [], ◌∷◌, ◌++◌, Option, none, some, if◌then◌else◌, ◌==◌, ℤ, ◌==ℤ◌,
}
use cluster_chat_server.Prelude.Text.{Bytes}
use cluster_chat_server.Sql.{MySql}

-- A `TcpConnectionPtr`: which connection object it points to.
abbrev pub Conn : Type 0
Conn = ℕ

-- `_userConnMap`. No key occurs twice (`Keys`).
abbrev pub ConnMap : Type 0
ConnMap = List (ℤ × Conn)

pub data RedisCall : Type 0 where
  publish : ℤ → Bytes → RedisCall
  subscribe : ℤ → RedisCall
  unsubscribe : ℤ → RedisCall

-- `find`.
unfoldable pub find : ℤ → ConnMap → Option Conn
find id [] = none
find id ((key, conn) ∷ m) = let rest = find id m in if key ==ℤ id then some conn else rest

-- `insert`, which leaves an entry that is there.
unfoldable pub insert : ℤ → Conn → ConnMap → ConnMap
insert id conn [] = (id, conn) ∷ []
insert id conn ((key, c) ∷ m) =
    let rest = insert id conn m in if key ==ℤ id then (key, c) ∷ m else (key, c) ∷ rest

-- `erase` of the entry that `find` gives.
unfoldable pub erase : ℤ → ConnMap → ConnMap
erase id [] = []
erase id ((key, c) ∷ m) = let rest = erase id m in if key ==ℤ id then m else (key, c) ∷ rest

-- The loop of `clientCloseException`: the key of the first entry with this connection.
unfoldable pub key_of : Conn → ConnMap → Option ℤ
key_of conn [] = none
key_of conn ((key, c) ∷ m) = let rest = key_of conn m in if c == conn then some key else rest

pub record Service ⦃S : MySql⦄ : Type 0 where
  pub conn_map : ConnMap
  pub db : S.Db
  pub redis : List RedisCall
  pub sent : List (Conn × Bytes)

module _ ⦃S : MySql⦄ where
  -- `conn->send(text)`.
  unfoldable pub send : Conn → Bytes → Service → Service
  send conn text s = record s { sent = s.sent ++ (conn, text) ∷ [] }

  -- A call of `_redis`.
  unfoldable pub call_redis : RedisCall → Service → Service
  call_redis call s = record s { redis = s.redis ++ call ∷ [] }
