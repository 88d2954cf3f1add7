-- ===== src/Service/Threads/Alone.antt =====
-- A handler that no other one interrupts does what its function of `Service` says.
use cluster_chat_server.Prelude.{
  ℕ, zero, suc, ◌≡◌, refl, inl, inr, Bool-cases, Option-cases, Bool, true, false, not, ◌&&◌, List,
  [], ◌∷◌, none, some, ℤ, negsuc, ◌==ℤ◌,
}
use cluster_chat_server.Prelude.Text.{Bytes, codes, bytes_eq}
use cluster_chat_server.Json.{JsonLib}
use cluster_chat_server.Sql.{MySql}
use cluster_chat_server.Model.Types.{User, online}
use cluster_chat_server.Model.User
use cluster_chat_server.Model.Group
use cluster_chat_server.Service.State.{Service, Conn, publish, find, send, call_redis}
use cluster_chat_server.Service.Session.{
  authenticate, enter, accept, leave, client_close_exception, refuse,
}
use cluster_chat_server.Service.Chat.{
  deliver, deliver_remote, store_offline, handle_redis_subscribe_message,
}
use cluster_chat_server.Service.Groups.{deliver_all, send_group}
use cluster_chat_server.Service.Threads.{
  Job, logs_in, records, registers, subscribes, reads_offline, removes, answers, logs_out, closes,
  unsubscribes, sets_offline, asks_members, locks, delivers, forwards, relays, finished, advance,
}

-- A call of a handler, with what it has read from the JSON value.
pub data Call : Type 0 where
  login : Conn → ℤ → Bytes → Call
  loginout : ℤ → Call
  close : Conn → Call
  one_chat : ℤ → Bytes → Call
  group_chat : ℤ → ℤ → Bytes → Call
  redis_message : ℤ → Bytes → Call

abbrev pub entry : Call → Job
entry (login conn id password) = logs_in conn id password
entry (loginout id) = logs_out id
entry (close conn) = closes conn
entry (one_chat id text) = locks (id ∷ []) text
entry (group_chat userid groupid text) = asks_members userid groupid text
entry (redis_message id text) = relays id text

module _ ⦃J : JsonLib⦄ ⦃S : MySql⦄ where
  abbrev pub whole : Call → Service → Service
  whole (login conn id password) s = authenticate conn id password s
  whole (loginout id) s = leave id s
  whole (close conn) s = client_close_exception conn s
  whole (one_chat id text) s = deliver id text s
  whole (group_chat userid groupid text) s = send_group userid groupid text s
  whole (redis_message id text) s = handle_redis_subscribe_message id text s

  -- So many accesses of one job, one after another.
  unfoldable pub alone : ℕ → Job → Service → Job × Service
  alone zero job s = (job, s)
  alone (suc n) job s = let (after, t) = advance job s in alone n after t

  -- The job gets to its end, and leaves `t`.
  abbrev pub Ends : Job → Service → Service → Type 0
  Ends job s t = (n : ℕ) × (alone n job s ≡ (finished, t))

  further :
      (job after : Job) (s t u : Service)
      → advance job s ≡ (after, t)
      → Ends after t u
      → Ends job s u
  unfolding alone
  further job after s t u e (n, p) = (suc n, rw e p)

  at_end : (job : Job) (s t : Service) → advance job s ≡ (finished, t) → Ends job s t
  unfolding alone
  at_end job s t e = (suc zero, rw e refl)

  records-Ends :
      (conn : Conn) (id : ℤ) (user : User) (s : Service)
      → bytes_eq user.state online ≡ false
      → Ends (records conn id user) s (enter conn id user s)
  unfolding enter advance accept alone
  records-Ends conn id user s new =
      let (updated, db) = User.update (record user { state = online }) s.db in
      elim (Bool-cases updated) [
        | inl e ↦ rw (new, e) (suc (suc (suc (suc (suc (suc zero))))), rw e refl)
        | inr e ↦ rw (new, e) (suc zero, rw e refl)
      ]

  login-Ends :
      (conn : Conn) (id : ℤ) (password : Bytes) (s : Service)
      → Ends (logs_in conn id password) s (authenticate conn id password s)
  unfolding authenticate enter advance
  login-Ends conn id password s =
      let (user, db) = User.query id s.db in
      elim (Bool-cases (not (user.id ==ℤ negsuc 0) && bytes_eq user.password password)) [
        | inr e ↦ rw e (at_end (logs_in conn id password) s _ (rw e refl))
        | inl e ↦ elim (Bool-cases (bytes_eq user.state online)) [
          | inl o ↦ rw e (at_end (logs_in conn id password) s _ (rw (e, o) refl))
          | inr o ↦ rw e (
              further (logs_in conn id password) (records conn id user) s (record s { db = db }) _
                (rw (e, o) refl) (records-Ends conn id user (record s { db = db }) o))
        ]
      ]

  leave-Ends : (id : ℤ) (s : Service) → Ends (logs_out id) s (leave id s)
  unfolding leave advance alone
  leave-Ends id s = (suc (suc (suc zero)), refl)

  close-Ends : (conn : Conn) (s : Service) → Ends (closes conn) s (client_close_exception conn s)
  unfolding client_close_exception advance alone
  close-Ends conn s = (suc (suc (suc zero)), refl)

  deliver_found :
      (id : ℤ) (text : Bytes) (s : Service) (conn : Conn)
      → find id s.conn_map ≡ some conn
      → deliver id text s ≡ send conn text s
  unfolding deliver
  deliver_found id text s conn e = rw (e, deliver) refl

  deliver_published :
      (id : ℤ) (text : Bytes) (s : Service)
      → find id s.conn_map ≡ none
      → bytes_eq (User.query id s.db).0.state online ≡ true
      → deliver id text s ≡ call_redis (publish id text) (record s { db = (User.query id s.db).1 })
  unfolding deliver deliver_remote
  deliver_published id text s e o = rw (e, deliver, deliver_remote, o) refl

  deliver_stored :
      (id : ℤ) (text : Bytes) (s : Service)
      → find id s.conn_map ≡ none
      → bytes_eq (User.query id s.db).0.state online ≡ false
      → deliver id text s ≡ store_offline id text (record s { db = (User.query id s.db).1 })
  unfolding deliver deliver_remote
  deliver_stored id text s e o = rw (e, deliver, deliver_remote, o) refl

  asks_user :
      (id : ℤ) (ids : List ℤ) (text : Bytes) (s : Service) (is_online : Bool)
      → find id s.conn_map ≡ none
      → bytes_eq (User.query id s.db).0.state online ≡ is_online
      → advance (delivers (id ∷ ids) text) s
        ≡ (forwards id ids text is_online, record s { db = (User.query id s.db).1 })
  unfolding advance
  asks_user id ids text s is_online e o = rw (e, advance, o) refl

  delivers-Ends :
      (ids : List ℤ) (text : Bytes) (s : Service)
      → Ends (delivers ids text) s (deliver_all ids text s)
  unfolding deliver_all advance
  delivers-Ends [] text s = at_end (delivers [] text) s s refl
  delivers-Ends (id ∷ ids) text s = elim (Option-cases (find id s.conn_map)) [
    | inr (conn, e) ↦
        let t = send conn text s in
        rw (deliver_found id text s conn e) (
          further (delivers (id ∷ ids) text) (delivers ids text) s t (deliver_all ids text t)
            (rw (e, advance) refl) (delivers-Ends ids text t))
    | inl e ↦
        let (user, db) = User.query id s.db in
        let t = record s { db = db } in
        elim (Bool-cases (bytes_eq user.state online)) [
          | inl o ↦
              let u = call_redis (publish id text) t in
              rw (deliver_published id text s e o) (
                further (delivers (id ∷ ids) text) (forwards id ids text true) s t
                  (deliver_all ids text u) (asks_user id ids text s true e o)
                  (further (forwards id ids text true) (delivers ids text) t u
                    (deliver_all ids text u) refl (delivers-Ends ids text u)))
          | inr o ↦
              let u = store_offline id text t in
              rw (deliver_stored id text s e o) (
                further (delivers (id ∷ ids) text) (forwards id ids text false) s t
                  (deliver_all ids text u) (asks_user id ids text s false e o)
                  (further (forwards id ids text false) (delivers ids text) t u
                    (deliver_all ids text u) refl (delivers-Ends ids text u)))
        ]
  ]

  locks-Ends :
      (ids : List ℤ) (text : Bytes) (s : Service) → Ends (locks ids text) s (deliver_all ids text s)
  unfolding advance
  locks-Ends ids text s =
      further (locks ids text) (delivers ids text) s s _ refl (delivers-Ends ids text s)

  members-Ends :
      (userid groupid : ℤ) (text : Bytes) (s : Service)
      → Ends (asks_members userid groupid text) s (send_group userid groupid text s)
  unfolding advance send_group
  members-Ends userid groupid text s =
      let (ids, db) = Group.query_group_users userid groupid s.db in
      let t = record s { db = db } in
      further (asks_members userid groupid text) (locks ids text) s t _ refl (locks-Ends ids text t)

  chat-Ends :
      (id : ℤ) (text : Bytes) (s : Service) → Ends (locks (id ∷ []) text) s (deliver id text s)
  unfolding deliver_all
  chat-Ends id text s = locks-Ends (id ∷ []) text s

  relay-Ends :
      (id : ℤ) (text : Bytes) (s : Service)
      → Ends (relays id text) s (handle_redis_subscribe_message id text s)
  unfolding advance
  relay-Ends id text s = at_end (relays id text) s _ refl

  -- Each of `login`, `loginout`, `clientCloseException`, `oneChat`, `groupChat` and
  -- `handleRedisSubsribeMessage` that runs alone gets to its end after some number of accesses, and
  -- has then done exactly what the handler as one step does.
  pub alone_lem : (call : Call) (s : Service) → Ends (entry call) s (whole call s)
  alone_lem (login conn id password) s = login-Ends conn id password s
  alone_lem (loginout id) s = leave-Ends id s
  alone_lem (close conn) s = close-Ends conn s
  alone_lem (one_chat id text) s = chat-Ends id text s
  alone_lem (group_chat userid groupid text) s = members-Ends userid groupid text s
  alone_lem (redis_message id text) s = relay-Ends id text s

  -- Wherever a job is, it gets to its end when it runs alone.
  pub job-Ends : (job : Job) (s : Service) → (t : Service) × Ends job s t
  unfolding advance alone
  job-Ends (logs_in conn id password) s = (_, login-Ends conn id password s)
  job-Ends (records conn id user) s =
      elim (Bool-cases (User.update (record user { state = online }) s.db).0) [
        | inl e ↦
            let new = record user { state = online } in
            let t = record s { db = (User.update new s.db).1 } in
            (
              _,
              further (records conn id user) (registers conn id new) s t _ (rw e refl)
                  (suc (suc (suc (suc (suc zero)))), refl),
            )
        | inr e ↦
            let db = (User.update (record user { state = online }) s.db).1 in
            let t = refuse conn 3 (codes "login failure!") (record s { db = db }) in
            (t, at_end (records conn id user) s t (rw e refl))
      ]
  job-Ends (registers conn id user) s = (_, (suc (suc (suc (suc (suc zero)))), refl))
  job-Ends (subscribes conn id user) s = (_, (suc (suc (suc (suc zero))), refl))
  job-Ends (reads_offline conn id user) s = (_, (suc (suc (suc zero)), refl))
  job-Ends (removes conn id user messages) s = (_, (suc (suc zero), refl))
  job-Ends (answers conn id user messages) s = (_, (suc zero, refl))
  job-Ends (logs_out id) s = (_, leave-Ends id s)
  job-Ends (closes conn) s = (_, close-Ends conn s)
  job-Ends (unsubscribes id found) s = (_, (suc (suc zero), refl))
  job-Ends (sets_offline found) s = (_, (suc zero, refl))
  job-Ends (asks_members userid groupid text) s = (_, members-Ends userid groupid text s)
  job-Ends (locks ids text) s = (_, locks-Ends ids text s)
  job-Ends (delivers ids text) s = (_, delivers-Ends ids text s)
  job-Ends (forwards id ids text true) s =
      let u = call_redis (publish id text) s in
      (
        _,
        further (forwards id ids text true) (delivers ids text) s u _ refl
            (delivers-Ends ids text u),
      )
  job-Ends (forwards id ids text false) s =
      let u = store_offline id text s in
      (
        _,
        further (forwards id ids text false) (delivers ids text) s u _ refl
            (delivers-Ends ids text u),
      )
  job-Ends (relays id text) s = (_, relay-Ends id text s)
  job-Ends finished s = (s, (zero, refl))
