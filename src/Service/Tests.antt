-- ===== src/Service/Tests.antt =====
-- Runs of the service on the concrete libraries of `Toy` and `ToyDb`.
use cluster_chat_server.Prelude.{
  ℕ, ◌≡◌, ◌++◌, refl, ◌≢◌, ◌⊎◌, ◌==◌, ==_iff, false, List, [], ◌∷◌, none, some, arith, ℤ, pos,
  negsuc, Always,
}
use cluster_chat_server.Prelude.Text.{codes, c_str, show, emit}
use cluster_chat_server.Protocol.{login_msg, one_chat_msg}
use cluster_chat_server.Model.Types.{online}
use cluster_chat_server.Model.User
use cluster_chat_server.Model.Offline.{insert_text, insert}
use cluster_chat_server.Sql.{MySql}
use cluster_chat_server.Service.Chat.{deliver}
use cluster_chat_server.Service.Down.{down_loses}
use cluster_chat_server.Service.State.{Service, find, key_of}
use cluster_chat_server.Service.Session.{authenticate, refusal, client_close_exception}
use cluster_chat_server.Service.Groups.{deliver_all}
use cluster_chat_server.Service.Run.{Event, request, closed, redis_message, interrupted, run}
use cluster_chat_server.Service.Laws.{Fits, Plain}
use cluster_chat_server.Service.Keys.{Distinct}
use cluster_chat_server.Service.Subscriptions.{Inv, run-Inv}
use cluster_chat_server.Service.Login.{Refused, Accepted, authenticate_cases}
use cluster_chat_server.Service.Delivery.{Served, deliver_all-Served, AllFit}
use cluster_chat_server.Service.Close.{Once, close_clean, close_others, close_stale}
use cluster_chat_server.Service.Toy.{Fields, number, text, toy_json, toy_json-ReadsInts}
use cluster_chat_server.Service.ToyDb.{ToyDb, toy_sql, toy_sql-SelectsById, toy_sql-Tables}

abbrev accounts : ToyDb
accounts = record {
  users =
      (codes "1" ∷ codes "li" ∷ codes "pw" ∷ codes "offline" ∷ [])
      ∷ (codes "2" ∷ codes "wu" ∷ codes "pw" ∷ codes "online" ∷ [])
      ∷ (codes "3" ∷ codes "xu" ∷ codes "pw" ∷ codes "offline" ∷ [])
      ∷ [];
  mail = [];
  result = [];
}

abbrev fresh : Service ⦃S = toy_sql⦄
fresh = record { conn_map = []; db = accounts; redis = []; sent = [] }

-- Users 1 and 3 over the connections 7 and 8.
abbrev busy : Service ⦃S = toy_sql⦄
busy = record { conn_map = (pos 1, 7) ∷ (pos 3, 8) ∷ []; db = accounts; redis = []; sent = [] }

-- Two users over the connection 7.
abbrev shared : Service ⦃S = toy_sql⦄
shared = record { conn_map = (pos 1, 7) ∷ (pos 3, 7) ∷ []; db = accounts; redis = []; sent = [] }

abbrev login_request : Fields
login_request = (codes "id", number (pos 1)) ∷ (codes "password", text (codes "pw")) ∷ []

abbrev chat_request : Fields
chat_request = (codes "to", number (pos 3)) ∷ (codes "msg", text (codes "hi")) ∷ []

abbrev history : List (Event ⦃J = toy_json⦄)
history =
    request login_msg 7 login_request
    ∷ request one_chat_msg 7 chat_request
    ∷ redis_message (pos 1) (codes "hi")
    ∷ closed 7
    ∷ interrupted
    ∷ []

fresh-Inv : Inv ⦃S = toy_sql⦄ fresh
unfolding find
fresh-Inv = record { distinct = tt; no_unset = refl; mirrored = λ id. refl }

run-Inv_example : Always (Inv ⦃S = toy_sql⦄) (run ⦃J = toy_json⦄ ⦃S = toy_sql⦄ history fresh)
run-Inv_example =
    run-Inv ⦃J = toy_json⦄ ⦃S = toy_sql⦄ toy_json-ReadsInts toy_sql-SelectsById history fresh
      fresh-Inv

differ : {A : Type 0} {m n : ℕ} → (m == n) ≡ false → pos m ≡ pos n → A
differ {A} {m} {n} e p = absurd (ground (arith, ==_iff m n))

abbrev members : List ℤ
members = pos 1 ∷ pos 2 ∷ pos 3 ∷ []

-- Only user 1 is here; user 2 is elsewhere, user 3 offline.
abbrev partly : Service ⦃S = toy_sql⦄
partly = record { conn_map = (pos 1, 7) ∷ []; db = accounts; redis = []; sent = [] }

members-AllFit : AllFit (codes "hi") members
unfolding insert_text c_str show emit
members-AllFit = (one, (two, (three, tt)))
  where
    plain : Plain (codes "hi")
    plain = (
      (λ p. omega (arith, p)),
      (λ p. omega (arith, p)),
      (λ p. omega (arith, p)),
      ((λ p. omega (arith, p)), (λ p. omega (arith, p)), (λ p. omega (arith, p)), tt),
    )

    one : Fits (pos 1) (codes "hi")
    one = record { int = omega arith; plain = plain; room = omega arith }

    two : Fits (pos 2) (codes "hi")
    two = record { int = omega arith; plain = plain; room = omega arith }

    three : Fits (pos 3) (codes "hi")
    three = record { int = omega arith; plain = plain; room = omega arith }

deliver_all-Served_example :
    Served ⦃S = toy_sql⦄ toy_sql-Tables members
      (codes "hi")
      partly
      (deliver_all ⦃S = toy_sql⦄ members (codes "hi") partly)
deliver_all-Served_example =
    deliver_all-Served ⦃S = toy_sql⦄ toy_sql-Tables members (codes "hi") partly members-AllFit

authenticate_cases_example :
    let t = authenticate ⦃J = toy_json⦄ ⦃S = toy_sql⦄ 7 (pos 1) (codes "pw") fresh in
    let user = (User.query ⦃S = toy_sql⦄ (pos 1) accounts).0 in
    Refused ⦃J = toy_json⦄ ⦃S = toy_sql⦄ 7 fresh t
    ⊎ (user.id ≢ negsuc 0)
      × (user.password ≡ codes "pw")
      × (user.state ≢ online)
      × Accepted ⦃J = toy_json⦄ ⦃S = toy_sql⦄ 7 (pos 1) fresh t
authenticate_cases_example =
    authenticate_cases ⦃J = toy_json⦄ ⦃S = toy_sql⦄ 7 (pos 1) (codes "pw") fresh

busy-Distinct : Distinct busy.conn_map
unfolding find
busy-Distinct = (refl, (refl, tt))

shared-Distinct : Distinct shared.conn_map
unfolding find
shared-Distinct = (refl, (refl, tt))

busy-Once : Once 7 busy.conn_map
unfolding key_of
busy-Once = ((λ p. refl), ((λ p. refl), tt))

close_clean_example : key_of 7 (client_close_exception ⦃S = toy_sql⦄ 7 busy).conn_map ≡ none
close_clean_example = close_clean ⦃S = toy_sql⦄ 7 busy busy-Distinct busy-Once

close_others_example :
    find (pos 3) (client_close_exception ⦃S = toy_sql⦄ 7 busy).conn_map ≡ find (pos 3) busy.conn_map
unfolding find
close_others_example = close_others ⦃S = toy_sql⦄ 7 busy busy-Distinct (pos 3) (λ p. ground arith)

close_stale_example :
    (id : ℤ) × (find id (client_close_exception ⦃S = toy_sql⦄ 7 shared).conn_map ≡ some 7)
unfolding find
close_stale_example =
    close_stale ⦃S = toy_sql⦄ 7 shared shared-Distinct (pos 1) (pos 3) (λ p. differ refl p) refl
      refl

-- The database of the tests, out of reach.
abbrev down_sql : MySql
down_sql = record {
  Db = ToyDb;
  mysql_real_connect = λ db. (false, db);
  mysql_set_character_set = λ name db. db;
  mysql_query = λ sql db. (1, db);
  mysql_use_result = λ db. none;
  mysql_insert_id = λ db. 0;
}

abbrev idle : Service ⦃S = down_sql⦄
idle = record { conn_map = (pos 1, 7) ∷ []; db = accounts; redis = []; sent = [] }

idle-find : find (pos 3) idle.conn_map ≡ none
unfolding find
idle-find = refl

down_loses_example :
    let t = authenticate ⦃J = toy_json⦄ ⦃S = down_sql⦄ 9 (pos 3) (codes "pw") idle in
    let u = deliver ⦃S = down_sql⦄ (pos 3) (codes "hi") idle in
    let wrong =
      toy_json.dump (refusal ⦃J = toy_json⦄ 1 (codes "The user name or password is incorrect!")) in
    (t.sent ≡ [] ++ (9, wrong) ∷ [])
    × (t.conn_map ≡ idle.conn_map)
    × (t.redis ≡ [])
    × (u.sent ≡ [])
    × (u.redis ≡ [])
    × ((insert ⦃S = down_sql⦄ (pos 3) (codes "hi") (User.query ⦃S = down_sql⦄ (pos 3) accounts).1).0
        ≡ false)
down_loses_example =
    down_loses ⦃S = down_sql⦄ (λ db. refl) ⦃J = toy_json⦄ 9 (pos 3) (codes "pw") (codes "hi") idle
      idle-find
