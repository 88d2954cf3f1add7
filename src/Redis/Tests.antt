-- ===== src/Redis/Tests.antt =====
-- Runs of the Redis wrapper on a concrete library and a concrete Redis server.
use cluster_chat_server.Prelude.{
  ℕ, zero, suc, ◌+◌, ◌<◌, ◌≡◌, refl, [], ◌∷◌, ◌++◌, true, false, none, some, pos, arith, length,
  ◌==◌,
}
use cluster_chat_server.Prelude.Text.{Bytes, codes, show, emit, bytes_eq, snprintf}
use cluster_chat_server.Sql
use cluster_chat_server.Model.User
use cluster_chat_server.Model.Types.{online}
use cluster_chat_server.Service.State.{Service, publish, subscribe, find, send}
use cluster_chat_server.Service.Chat.{deliver}
use cluster_chat_server.Service.Subscriptions.{Inv, subscribed}
use cluster_chat_server.Service.ToyDb.{ToyDb, toy_sql}
use cluster_chat_server.Redis.{
  Hiredis, Command, Reply, subscribe_command, unsubscribe_command, publish_command, subscribe_to,
  unsubscribe_from, observer_channel_message,
}
use cluster_chat_server.Redis.Flush.{WritesOut, Ended, subscribe_ends}
use cluster_chat_server.Redis.Relay.{Pushes, relayed}

abbrev size : Command → ℕ
size [] = 0
size (word ∷ words) = length word + size words

-- A context is the number of bytes that wait; a write sends one of them.
abbrev bytewise : Hiredis
bytewise = record {
  Context = ℕ;
  redis_command = λ command n. (true, n);
  redis_append_command = λ command n. (true, n + size command);
  redis_buffer_write = λ n. elim n [ zero ↦ (some true, 0) | suc m ↦ (some (m == 0), m) ];
}

goes_on :
    (n : ℕ) → (bytewise.redis_buffer_write n).0 ≡ some false → (bytewise.redis_buffer_write n).1 < n
goes_on zero h = ground arith
goes_on (suc n) h = omega arith

ends :
    (n : ℕ) → (bytewise.redis_buffer_write n).0 ≡ some true → (bytewise.redis_buffer_write n).1 ≡ 0
ends zero h = refl
ends (suc n) h = ground (arith, h)

abbrev bytewise_laws : WritesOut bytewise
bytewise_laws = record {
  waiting = λ n. n;
  bytes_of = size;
  goes_on = goes_on;
  ends = ends;
  adds = λ command n. omega arith;
}

subscribe_ends_example :
    Ended ⦃H = bytewise⦄ bytewise_laws (subscribe_to ⦃H = bytewise⦄ 40 (pos 7) 3)
    × Ended ⦃H = bytewise⦄ bytewise_laws (unsubscribe_from ⦃H = bytewise⦄ 40 (pos 7) 3)
unfolding subscribe_command unsubscribe_command show emit
subscribe_ends_example =
    subscribe_ends ⦃H = bytewise⦄ bytewise_laws 40 (pos 7) 3 (omega arith) (omega arith)

abbrev reply_to : Command → Reply
reply_to (word ∷ channel ∷ message ∷ []) =
    some (some (codes "message")) ∷ some (some channel) ∷ some (some message) ∷ []
reply_to (word ∷ channel ∷ []) =
    some (some (codes "subscribe")) ∷ some (some channel) ∷ some none ∷ []
reply_to _ = []

reply_to-Pushes : Pushes reply_to
reply_to-Pushes = record { for_publish = λ channel message. refl; for_subscribe = λ channel. refl }

-- User 2 is connected to the second server; both servers have one database.
abbrev accounts : ToyDb
accounts = record {
  users = (codes "2" ∷ codes "wu" ∷ codes "pw" ∷ codes "online" ∷ []) ∷ [];
  mail = [];
  result = [];
}

abbrev first : Service ⦃S = toy_sql⦄
first = record { conn_map = []; db = accounts; redis = []; sent = [] }

abbrev second : Service ⦃S = toy_sql⦄
second = record {
  conn_map = (pos 2, 8) ∷ [];
  db = accounts;
  redis = subscribe (pos 2) ∷ [];
  sent = [];
}

second-Inv : Inv ⦃S = toy_sql⦄ second
unfolding find
second-Inv = record { distinct = (refl, tt); no_unset = refl; mirrored = λ id. ground arith }

away : find (pos 2) first.conn_map ≡ none
unfolding find
away = refl

there : find (pos 2) second.conn_map ≡ some 8
unfolding find
there = refl

is_online : (User.query ⦃S = toy_sql⦄ (pos 2) accounts).0.state ≡ online
unfolding User.query User.query_sql User.first_user User.user_of_row Sql.connect_query Sql.connect
    Sql.query bytes_eq snprintf show emit
is_online = refl

abbrev hi : Bytes
hi = codes "hi"

relayed_example :
    let t = deliver ⦃S = toy_sql⦄ (pos 2) hi first in
    (t.sent ≡ [])
    × (t.redis ≡ [] ++ publish (pos 2) hi ∷ [])
    × (subscribed (pos 2) second.redis ≡ true)
    × (observer_channel_message ⦃S = toy_sql⦄
          (some (reply_to (subscribe_command (pos 2)))
            ∷ some (reply_to (publish_command (pos 2) hi))
            ∷ [])
          second
        ≡ some (send ⦃S = toy_sql⦄ 8 hi second))
relayed_example =
    relayed reply_to reply_to-Pushes ⦃S = toy_sql⦄ (pos 2) hi first second 8 (omega arith)
      ((λ p. omega (arith, p)), ((λ p. omega (arith, p)), tt)) away is_online second-Inv there
