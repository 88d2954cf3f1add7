-- ===== src/Client/Tests.antt =====
-- Runs of the client and the server on the concrete libraries of `Service.Toy` and `Service.ToyDb`.
use cluster_chat_server.Prelude.{
  Bool, ◌≤◌, replicate, ◌<◌, ◌^◌, true, false, ap, ◌∙◌, length-append, ◌≡◌, refl, List, [], ◌∷◌,
  ◌++◌, some, arith, pos, length, ◌>>=◌, take, if◌then◌else◌,
}
use cluster_chat_server.Prelude.Text.{Bytes, codes, c_str, bytes_eq, snprintf, atoi}
use cluster_chat_server.Sql
use cluster_chat_server.Sql.{MySql, Row}
use cluster_chat_server.Prelude.Avoid.{Avoids}
use cluster_chat_server.Buffer.{Buffer, init, append}
use cluster_chat_server.Buffer.Inv.{IsValid, contents}
use cluster_chat_server.Buffer.Queue.{init-IsValid, init_size, append_lem}
use cluster_chat_server.Model.Types.{User, Group}
use cluster_chat_server.Model.Friend
use cluster_chat_server.Model.Group
use cluster_chat_server.Model.Offline
use cluster_chat_server.Service.State.{Service, find}
use cluster_chat_server.Service.Dispatch.{on_message}
use cluster_chat_server.Service.Session.{
  accept, remove_read, with_groups, with_friends, with_offline, greeting, group_json, member_json,
  friend_json,
}
use cluster_chat_server.Service.Toy.{toy_json, toy_json-JsonLaws}
use cluster_chat_server.Service.ToyDb.{toy_sql}
use cluster_chat_server.Client.{Client, said, start, wire, post, display, chat_request}
use cluster_chat_server.Client.Command.{
  Terminal, parse_line, find_colon, before, behind, substr, run_line, run_command, handler_of,
  command_handler_map, help, menu_round, main_menu, getline,
}
use cluster_chat_server.Client.Command.Overlong.{complains, overlong_stuck}
use cluster_chat_server.Client.Requests.{
  Request, chats, json_of, effect, request_served, second_lost,
}
use cluster_chat_server.Client.Answer.{read_task, show_offline, buffer_size}
use cluster_chat_server.Client.EndToEnd.{line_sends, chat_arrives}
use cluster_chat_server.Client.Lists.{informed}
use cluster_chat_server.Client.Login.{login_taken}

abbrev li : User
li = record { id = pos 1; name = codes "li"; password = codes "pw"; state = codes "online" }

abbrev wu : User
wu = record { id = pos 2; name = codes "wu"; password = []; state = codes "offline" }

abbrev hi : Bytes
hi = codes "hi"

abbrev noon : Bytes
noon = codes "12:00"

hi-Avoids : Avoids 0 hi
hi-Avoids = ((λ p. omega (arith, p)), ((λ p. omega (arith, p)), tt))

chat-Avoids : Avoids b':' (codes "chat")
chat-Avoids = (
  (λ p. omega (arith, p)),
  ((λ p. omega (arith, p)), ((λ p. omega (arith, p)), ((λ p. omega (arith, p)), tt))),
)

abbrev here : Client
here = record {
  current_user = li;
  friends = wu ∷ [];
  groups = [];
  menu_running = true;
  login_success = true;
  posts = 0;
  sent = [];
  shown = [];
}

-- User 2 over the connection 8.
abbrev server : Service ⦃S = toy_sql⦄
server = record {
  conn_map = (pos 2, 8) ∷ [];
  db = record { users = []; mail = []; result = [] };
  redis = [];
  sent = [];
}

abbrev hello : Request
hello = chats li (pos 2) hi noon

abbrev hello_wire : Bytes
hello_wire = wire ⦃J = toy_json⦄ (json_of ⦃J = toy_json⦄ hello)

abbrev full : Buffer
full = append (init 1024) hello_wire

abbrev both : Buffer
both = append (init 1024) (hello_wire ++ hello_wire)

-- What a fresh buffer holds when it has got `xs`.
holds :
    (xs : Bytes)
    → length xs < 2 ^ 32
    → IsValid (append (init 1024) xs) × (contents (append (init 1024) xs) ≡ xs)
holds xs short =
    let (valid, empty) = init-IsValid 1024 (omega arith) in
    let (v, e, _) = append_lem {b = init 1024} xs valid (omega (arith, short, init_size 1024)) in
    (v, e ∙ ap (λ t. t ++ xs) empty)

hello_wire-short : length hello_wire < 500
unfolding wire chat_request c_str
hello_wire-short = omega arith

both-short : length (hello_wire ++ hello_wire) < 2 ^ 32
both-short = omega (arith, length-append hello_wire hello_wire, hello_wire-short)

request_served_example :
    (b' : Buffer) × (on_message ⦃J = toy_json⦄ ⦃S = toy_sql⦄ 7 full server
      ≡ some (b', effect ⦃J = toy_json⦄ ⦃S = toy_sql⦄ 7 hello server))
    × IsValid b'
    × (contents b' ≡ [])
request_served_example =
    request_served ⦃J = toy_json⦄ toy_json-JsonLaws ⦃S = toy_sql⦄ 7 server full
      (holds hello_wire (omega (arith, hello_wire-short))).0 hello (omega arith, omega arith)
      (holds hello_wire (omega (arith, hello_wire-short))).1

second_lost_example :
    (b' : Buffer) × (on_message ⦃J = toy_json⦄ ⦃S = toy_sql⦄ 7 both server
      ≡ some (b', effect ⦃J = toy_json⦄ ⦃S = toy_sql⦄ 7 hello server))
    × (contents b' ≡ [])
second_lost_example =
    second_lost ⦃J = toy_json⦄ toy_json-JsonLaws ⦃S = toy_sql⦄ 7 server both
      (holds (hello_wire ++ hello_wire) both-short).0 hello hello (omega arith, omega arith)
      (holds (hello_wire ++ hello_wire) both-short).1

server-find : find (pos 2) server.conn_map ≡ some 8
unfolding find
server-find = refl

chat_arrives_example :
    let js = chat_request ⦃J = toy_json⦄ li (pos 2) hi noon in
    (b' : Buffer) × (t : Service ⦃S = toy_sql⦄) × (text : Bytes) × (on_message ⦃J = toy_json⦄
        ⦃S = toy_sql⦄ 7 full server
      ≡ some (b', t))
    × (t.sent ≡ [] ++ (8, text) ∷ [])
    × (read_task ⦃J = toy_json⦄ text start
        ≡ some (display (said noon (toy_json.print "id" js) (codes "li") hi) start))
chat_arrives_example =
    chat_arrives ⦃J = toy_json⦄ ⦃S = toy_sql⦄ toy_json-JsonLaws (pos 2) hi noon here start
      hello_wire full server 7 8 (omega arith) (omega arith) hi-Avoids
      (line_sends ⦃J = toy_json⦄ (pos 2) hi noon here (omega arith) hi-Avoids)
      (holds hello_wire (omega (arith, hello_wire-short))).0
      (holds hello_wire (omega (arith, hello_wire-short))).1 server-find
      (omega (arith, hello_wire-short))

-- A message that waited for user 1, as the server stored it.
abbrev waiting : Bytes
waiting = toy_json.dump (chat_request ⦃J = toy_json⦄ wu (pos 1) hi noon)

-- A database that knows a message, a friend and a group of two members, whoever asks; its state is the
-- last statement.
abbrev rows_of : Bytes → List Row
rows_of sql =
    if bytes_eq (take 8 sql) (codes "select m")
    then (waiting ∷ []) ∷ []
    else if bytes_eq (take 27 sql) (codes "select a.id,a.name,a.state ")
    then (codes "2" ∷ codes "wu" ∷ codes "offline" ∷ []) ∷ []
    else if bytes_eq (take 16 sql) (codes "select a.id, a.g")
    then (codes "5" ∷ codes "go" ∷ codes "a game" ∷ []) ∷ []
    else (codes "1" ∷ codes "li" ∷ codes "online" ∷ codes "creator" ∷ [])
      ∷ (codes "2" ∷ codes "wu" ∷ codes "offline" ∷ codes "normal" ∷ [])
      ∷ []

abbrev full_sql : MySql
full_sql = record {
  Db = Bytes;
  mysql_real_connect = λ db. (true, db);
  mysql_set_character_set = λ name db. db;
  mysql_query = λ sql db. (0, sql);
  mysql_use_result = λ db. some (rows_of db);
  mysql_insert_id = λ db. 1;
}

abbrev asked : Service ⦃S = full_sql⦄
asked = record { conn_map = (pos 2, 8) ∷ []; db = []; redis = []; sent = [] }

abbrev go : Group
go = record {
  id = pos 5;
  name = codes "go";
  desc = codes "a game";
  users =
      record { user = record li { password = [] }; role = codes "creator" }
      ∷ record { user = wu; role = codes "normal" }
      ∷ [];
}

mail : (Offline.query ⦃S = full_sql⦄ (pos 1) asked.db).0 ≡ waiting ∷ []
unfolding Offline.query Offline.query_sql Offline.messages Sql.connect_query Sql.connect Sql.query
    bytes_eq snprintf
mail = refl

abbrev read_db : Bytes
read_db =
    remove_read ⦃S = full_sql⦄ (pos 1) (waiting ∷ [])
      (Offline.query ⦃S = full_sql⦄ (pos 1) asked.db).1

friends : (Friend.query ⦃S = full_sql⦄ (pos 1) read_db).0 ≡ wu ∷ []
unfolding Friend.query Friend.query_sql Friend.friends Friend.friend_of_row Sql.connect_query
    Sql.connect Sql.query bytes_eq snprintf atoi
friends = refl

groups :
    (Group.query_groups ⦃S = full_sql⦄ (pos 1) (Friend.query ⦃S = full_sql⦄ (pos 1) read_db).1).0
    ≡ go ∷ []
unfolding Group.query_groups Group.groups_sql Group.members_sql Group.groups Group.group_of_row
    Group.member_of_row Group.add_members Group.fill_members Sql.connect_query Sql.connect Sql.query
    bytes_eq snprintf atoi
groups = refl

answer_short :
    length (
      toy_json.dump (
        with_groups ⦃J = toy_json⦄ (go ∷ []) (
          with_friends ⦃J = toy_json⦄
            (wu ∷ [])
            (with_offline ⦃J = toy_json⦄ (waiting ∷ []) (greeting ⦃J = toy_json⦄ li)))))
    < buffer_size
unfolding with_groups with_friends with_offline greeting group_json member_json friend_json
    chat_request
answer_short = omega arith

login_taken_example :
    (text : Bytes) × ((accept ⦃J = toy_json⦄ ⦃S = full_sql⦄ 7 (pos 1) li asked).sent
      ≡ [] ++ (7, text) ∷ [])
    × (read_task ⦃J = toy_json⦄ text here ≡ (
        show_offline ⦃J = toy_json⦄ (waiting ∷ []) (informed li (wu ∷ []) (go ∷ []) here)
        >>= λ (c' : Client). some (post (record c' { login_success = true }))))
login_taken_example =
    login_taken ⦃J = toy_json⦄ toy_json-JsonLaws ⦃S = full_sql⦄ 7 (pos 1) li asked here
      (waiting ∷ []) (wu ∷ []) (go ∷ []) (omega arith) mail friends groups (omega arith, tt)
      ((omega arith, (omega arith, (omega arith, tt))), tt) answer_short

abbrev long_line : Bytes
long_line = codes "help:" ++ replicate 1030 97

abbrev rounds : List (Bytes × Bool)
rounds = (noon, true) ∷ (noon, false) ∷ []

abbrev first_round : Terminal × Client
first_round =
    menu_round ⦃J = toy_json⦄ noon true
      (record { lines = long_line ∷ codes "loginout" ∷ []; failed = false }, here)

long_line-length : 1024 ≤ length long_line
long_line-length = omega arith

still_open : first_round.1.menu_running ≡ true
unfolding menu_round getline run_line parse_line find_colon before behind substr c_str run_command
    handler_of command_handler_map help display bytes_eq
still_open = refl

overlong_stuck_example :
    main_menu ⦃J = toy_json⦄ rounds first_round
    ≡ (first_round.0, complains ⦃J = toy_json⦄ 2 first_round.1)
overlong_stuck_example =
    overlong_stuck ⦃J = toy_json⦄ long_line (codes "loginout" ∷ []) noon true here rounds
      long_line-length still_open
