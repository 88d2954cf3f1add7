-- ===== src/Service/Threads.antt =====
-- Handlers of src/server/chatService.cc that run at the same time in several loops: each job goes
-- from one access to something shared to the next, and a mutex stands for `_mutex`. Modelled are those
-- that use the connection map; the others call the database once or twice.
pub mod Alone
pub mod Mutex
pub mod Race
pub mod Progress
mod Tests
use cluster_chat_server.Prelude.{
  ℕ, zero, suc, List, [], ◌∷◌, Bool, true, false, not, ◌&&◌, if◌then◌else◌, Option, none, some, ℤ,
  negsuc, ◌==ℤ◌, get_elem?,
}
use cluster_chat_server.Prelude.Text.{Bytes, codes, bytes_eq}
use cluster_chat_server.Json.{JsonLib, Json}
use cluster_chat_server.Sql.{MySql}
use cluster_chat_server.Model.Types.{User, online}
use cluster_chat_server.Model.User
use cluster_chat_server.Model.Friend
use cluster_chat_server.Model.Group
use cluster_chat_server.Model.Offline
use cluster_chat_server.Service.State.{
  Service, Conn, publish, subscribe, unsubscribe, find, insert, key_of, send, call_redis,
}
use cluster_chat_server.Service.Session.{
  refuse, remove_read, with_offline, with_friends, with_groups, greeting, set_offline, id_or_unset,
  erase_found, logged_in_key,
}
use cluster_chat_server.Service.Chat.{store_offline, handle_redis_subscribe_message}

-- Where a handler is.
pub data Job : Type 0 where
  -- `login`: before the query, the update, the insertion, the subscription, the query and the removal
  -- of offline messages, and the last queries with the answer
  logs_in : Conn → ℤ → Bytes → Job
  records registers subscribes reads_offline : Conn → ℤ → User → Job
  removes answers : Conn → ℤ → User → List Bytes → Job
  -- `loginout` and `clientCloseException`: before the search, the `unsubscribe` and the update
  logs_out : ℤ → Job
  closes : Conn → Job
  unsubscribes : ℤ → Option ℤ → Job
  sets_offline : Option ℤ → Job
  -- `groupChat` and `oneChat`: before the query of the members, before the lock, in the loop, and
  -- behind the query of a user, with whether it is online
  asks_members : ℤ → ℤ → Bytes → Job
  locks delivers : List ℤ → Bytes → Job
  forwards : ℤ → List ℤ → Bytes → Bool → Job
  -- `handleRedisSubsribeMessage`
  relays : ℤ → Bytes → Job
  finished : Job

-- Whether the next access is made under `_mutex` and the job has still to take it.
abbrev pub wants_lock : Job → Bool
wants_lock (registers conn id user) = true
wants_lock (logs_out id) = true
wants_lock (closes conn) = true
wants_lock (locks ids text) = true
wants_lock (relays id text) = true
wants_lock _ = false

-- Whether the job holds `_mutex` between two accesses.
abbrev pub holds : Job → Bool
holds (delivers ids text) = true
holds (forwards id ids text is_online) = true
holds _ = false

module _ ⦃J : JsonLib⦄ ⦃S : MySql⦄ where
  -- Up to behind the next access.
  unfoldable pub advance : Job → Service → Job × Service
  unfolding refuse send call_redis remove_read with_offline with_friends with_groups greeting
      set_offline id_or_unset erase_found logged_in_key store_offline
  advance (logs_in conn id password) s =
      let (user, db) = User.query id s.db in
      if not (user.id ==ℤ negsuc 0) && bytes_eq user.password password
      then (if bytes_eq user.state online
          then (
            finished,
            refuse conn 2 (codes "this account is using, input another!") (record s { db = db }),
          )
          else (records conn id user, record s { db = db }))
      else (
        finished,
        refuse conn 1 (codes "The user name or password is incorrect!") (record s { db = db }),
      )
  advance (records conn id user) s =
      let (updated, db) = User.update (record user { state = online }) s.db in
      if updated
      then (registers conn id (record user { state = online }), record s { db = db })
      else (finished, refuse conn 3 (codes "login failure!") (record s { db = db }))
  advance (registers conn id user) s =
      (subscribes conn id user, record s { conn_map = insert id conn s.conn_map })
  advance (subscribes conn id user) s = (reads_offline conn id user, call_redis (subscribe id) s)
  advance (reads_offline conn id user) s =
      let (messages, db) = Offline.query id s.db in
      (removes conn id user messages, record s { db = db })
  advance (removes conn id user messages) s =
      (answers conn id user messages, record s { db = remove_read id messages s.db })
  advance (answers conn id user messages) s =
      let (friends, db) = Friend.query id s.db in
      let (groups, db') = Group.query_groups id db in
      (
        finished,
        send conn
            (J.dump
              (with_groups groups (with_friends friends (with_offline messages (greeting user)))))
            (record s { db = db' }),
      )
  advance (logs_out id) s =
      let found = logged_in_key id (find id s.conn_map) in
      (unsubscribes id found, erase_found found s)
  advance (closes conn) s =
      let found = key_of conn s.conn_map in
      (unsubscribes (id_or_unset found) found, erase_found found s)
  advance (unsubscribes id found) s = (sets_offline found, call_redis (unsubscribe id) s)
  advance (sets_offline found) s = (finished, set_offline found s)
  advance (asks_members userid groupid text) s =
      let (ids, db) = Group.query_group_users userid groupid s.db in
      (locks ids text, record s { db = db })
  advance (locks ids text) s = (delivers ids text, s)
  advance (delivers [] text) s = (finished, s)
  advance (delivers (id ∷ ids) text) s = elim (find id s.conn_map) [
    | some conn ↦ (delivers ids text, send conn text s)
    | none ↦
        let (user, db) = User.query id s.db in
        (forwards id ids text (bytes_eq user.state online), record s { db = db })
  ]
  advance (forwards id ids text true) s = (delivers ids text, call_redis (publish id text) s)
  advance (forwards id ids text false) s = (delivers ids text, store_offline id text s)
  advance (relays id text) s = (finished, handle_redis_subscribe_message id text s)
  advance finished s = (finished, s)

-- The handlers that have begun, and `_mutex`.
pub record Threads ⦃S : MySql⦄ : Type 0 where
  pub jobs : List Job
  pub locked : Bool
  pub service : Service

unfoldable pub set_job : ℕ → Job → List Job → List Job
set_job i job [] = []
set_job zero job (old ∷ jobs) = job ∷ jobs
set_job (suc i) job (old ∷ jobs) = old ∷ set_job i job jobs

-- `_mutex` behind one access.
unfoldable pub relock : Job → Job → Bool → Bool
relock before after locked = if holds after then true else if holds before then false else locked

module _ ⦃J : JsonLib⦄ ⦃S : MySql⦄ where
  unfoldable pub move : ℕ → Job → Threads → Threads
  unfolding set_job relock
  move i job t =
      let (after, s) = advance job t.service in
      record { jobs = set_job i after t.jobs; locked = relock job after t.locked; service = s }

  -- The scheduler lets one job go on; a job that waits for `_mutex` stays where it is.
  unfoldable pub turn : ℕ → Threads → Threads
  turn i t = elim (get_elem? t.jobs i) [
    | none ↦ t
    | some job ↦ if wants_lock job && t.locked then t else move i job t
  ]

  unfoldable pub turns : List ℕ → Threads → Threads
  turns [] t = t
  turns (i ∷ is) t = turns is (turn i t)
