-- ===== src/Service/Threads/Tests.antt =====
-- Interleavings of handlers on the concrete libraries of `Service.Toy` and `Service.ToyDb`.
use cluster_chat_server.Prelude.{
  ℕ, ◌≡◌, refl, sym, ap, ◌∙◌, length, List, [], ◌∷◌, true, false, none, some, pos, arith,
}
use cluster_chat_server.Prelude.Text.{codes, bytes_eq, snprintf, atoi, show, emit}
use cluster_chat_server.Model.Types.{User}
use cluster_chat_server.Json.{Json}
use cluster_chat_server.Sql.{connect, connect_query, connect_update, query, update}
use cluster_chat_server.Model.User
use cluster_chat_server.Service.State.{Service, find, subscribe, unsubscribe}
use cluster_chat_server.Service.Toy.{toy_json, toy_json-JsonLaws}
use cluster_chat_server.Service.ToyDb.{ToyDb, toy_sql}
use cluster_chat_server.Service.Threads.{logs_in, delivers, locks, finished, Threads, turn, turns}
use cluster_chat_server.Service.Threads.Mutex.{IsOrdered, map_held}
use cluster_chat_server.Service.Threads.Progress.{IsDone, finishes}
use cluster_chat_server.Service.Threads.Race.{
  Admits, two_logins, in_and_out, unlucky, overtaken, logged_in_twice, subscription_left,
}

abbrev accounts : ToyDb
accounts = record {
  users = (codes "1" ∷ codes "li" ∷ codes "pw" ∷ codes "offline" ∷ []) ∷ [];
  mail = [];
  result = [];
}

abbrev fresh : Service ⦃S = toy_sql⦄
fresh = record { conn_map = []; db = accounts; redis = []; sent = [] }

-- A login, a chat that holds the mutex, and one that waits for it.
abbrev busy : Threads ⦃S = toy_sql⦄
busy = record {
  jobs =
      logs_in 7 (pos 1) (codes "pw")
      ∷ delivers (pos 1 ∷ []) (codes "hi")
      ∷ locks (pos 1 ∷ []) (codes "ho")
      ∷ [];
  locked = true;
  service = fresh;
}

busy-IsOrdered : IsOrdered ⦃S = toy_sql⦄ busy
busy-IsOrdered = record { distinct = record {}; mutex = refl }

abbrev li : User
li = record { id = pos 1; name = codes "li"; password = codes "pw"; state = codes "offline" }

abbrev asked : ToyDb
asked = record accounts { result = accounts.users }

-- The database says the same when it is asked again.
first_query : User.query ⦃S = toy_sql⦄ (pos 1) accounts ≡ (li, asked)
unfolding User.query connect_query connect query User.query_sql snprintf bytes_eq User.first_user
    User.user_of_row atoi show emit
first_query = refl

second_query : User.query ⦃S = toy_sql⦄ (pos 1) asked ≡ (li, asked)
unfolding User.query connect_query connect query User.query_sql snprintf bytes_eq User.first_user
    User.user_of_row atoi show emit
second_query = refl

li-Admits :
    (db : ToyDb)
    → (User.query ⦃S = toy_sql⦄ (pos 1) db).0 ≡ li
    → Admits ⦃J = toy_json⦄ ⦃S = toy_sql⦄ (pos 1) (codes "pw") db
li-Admits db e = record {
  known = λ p. ground (arith, sym (ap (λ (u : User). u.id) e) ∙ p);
  password_fits = ap (λ (u : User). u.password) e;
  not_online = λ p. omega (arith, ap length (sym (ap (λ (u : User). u.state) e) ∙ p));
}

fresh-Admits : Admits ⦃J = toy_json⦄ ⦃S = toy_sql⦄ (pos 1) (codes "pw") accounts
fresh-Admits = li-Admits accounts (ap (λ p. p.0) first_query)

again-Admits :
    Admits ⦃J = toy_json⦄ ⦃S = toy_sql⦄
      (pos 1)
      (codes "pw")
      (User.query ⦃S = toy_sql⦄ (pos 1) accounts).1
again-Admits = li-Admits _ (rw first_query (ap (λ p. p.0) second_query))

map_held_example : (turn ⦃J = toy_json⦄ ⦃S = toy_sql⦄ 0 busy).service.conn_map ≡ []
map_held_example = map_held ⦃J = toy_json⦄ ⦃S = toy_sql⦄ 0 busy refl

finishes_example :
    (is : List ℕ) × ((turns ⦃J = toy_json⦄ ⦃S = toy_sql⦄ is busy).locked ≡ false)
    × ((k : ℕ) → IsDone ⦃J = toy_json⦄ ⦃S = toy_sql⦄ (turns ⦃J = toy_json⦄ ⦃S = toy_sql⦄ is busy) k)
finishes_example = finishes ⦃J = toy_json⦄ ⦃S = toy_sql⦄ busy busy-IsOrdered

logged_in_twice_example :
    let t =
      turns ⦃J = toy_json⦄ ⦃S = toy_sql⦄ unlucky
        (two_logins ⦃J = toy_json⦄ ⦃S = toy_sql⦄ 7 8 (pos 1) (codes "pw") fresh) in
    (x : Json ⦃J = toy_json⦄) × (y : Json ⦃J = toy_json⦄) × (t.jobs ≡ finished ∷ finished ∷ [])
    × (t.service.sent ≡ (7, toy_json.dump x) ∷ (8, toy_json.dump y) ∷ [])
    × (toy_json.get_int "errno" x ≡ some (pos 0))
    × (toy_json.get_int "errno" y ≡ some (pos 0))
    × (find (pos 1) t.service.conn_map ≡ some 7)
unfolding User.query User.update connect_query connect_update connect query update User.query_sql
    User.update_sql snprintf bytes_eq find
logged_in_twice_example =
    logged_in_twice ⦃J = toy_json⦄ toy_json-JsonLaws ⦃S = toy_sql⦄ 7 8 (pos 1) (codes "pw") fresh
      fresh-Admits again-Admits refl refl refl

subscription_left_example :
    let t =
      turns ⦃J = toy_json⦄ ⦃S = toy_sql⦄ overtaken
        (in_and_out ⦃J = toy_json⦄ ⦃S = toy_sql⦄ 7 (pos 1) (codes "pw") fresh) in
    (t.jobs ≡ finished ∷ finished ∷ [])
    × (find (pos 1) t.service.conn_map ≡ none)
    × (t.service.redis ≡ unsubscribe (pos 1) ∷ subscribe (pos 1) ∷ [])
unfolding User.query User.update connect_query connect_update connect query update User.query_sql
    User.update_sql snprintf bytes_eq find
subscription_left_example =
    subscription_left ⦃J = toy_json⦄ ⦃S = toy_sql⦄ 7 (pos 1) (codes "pw") fresh fresh-Admits refl
      (record {}) refl
