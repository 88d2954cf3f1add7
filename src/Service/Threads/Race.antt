-- ===== src/Service/Threads/Race.antt =====
-- What handlers do to each other when they interleave in an unlucky way.
use cluster_chat_server.Prelude.{
  ℕ, ◌≡◌, ◌≢◌, refl, ap, ◌∙◌, true, false, not, List, [], ◌∷◌, ◌++◌, none, some, ℤ, pos, negsuc,
  ◌==ℤ◌, ==ℤ_iff, IsInt, arith,
}
use mathlib.Core.List.{append_assoc}
use cluster_chat_server.Prelude.Text.{Bytes, bytes_eq, bytes_eq_refl, bytes_eq-eq}
use cluster_chat_server.Json.{JsonLib, Json}
use cluster_chat_server.Json.Laws.{JsonLaws, same_key}
use cluster_chat_server.Sql.{MySql, Db}
use cluster_chat_server.Model.Types.{User, Group, online}
use cluster_chat_server.Model.User
use cluster_chat_server.Service.State.{
  Service, Conn, ConnMap, find, insert, erase, subscribe, unsubscribe, send, call_redis,
}
use cluster_chat_server.Service.Keys.{find-insert, find-erase, Distinct, insert-Distinct}
use cluster_chat_server.Service.Subscriptions.{set_offline-same}
use cluster_chat_server.Service.Session.{
  with_offline, with_friends, with_groups, greeting, erase_found, logged_in_key,
}
use cluster_chat_server.Service.Threads.{
  Job, logs_in, records, registers, logs_out, finished, advance, Threads, set_job, relock, move,
  turn, turns,
}

int_eq_refl : (id : ℤ) → (id ==ℤ id) ≡ true
int_eq_refl id = ground (arith, ==ℤ_iff id id)

find_inserted :
    (id : ℤ) (a : Conn) (m : ConnMap) → find id m ≡ none → find id (insert id a m) ≡ some a
find_inserted id a m out = find-insert id id a m ∙ rw (out, int_eq_refl id) refl

module _ ⦃J : JsonLib⦄ (laws : JsonLaws J) where
  open laws use {int_same, int_int, int_string, int_strings}

  groups_errno :
      (groups : List Group) (js : Json)
      → J.get_int "errno" (with_groups groups js) ≡ J.get_int "errno" js
  unfolding with_groups same_key bytes_eq
  groups_errno [] js = refl
  groups_errno (g ∷ gs) js = simp (int_strings)

  friends_errno :
      (friends : List User) (js : Json)
      → J.get_int "errno" (with_friends friends js) ≡ J.get_int "errno" js
  unfolding with_friends same_key bytes_eq
  friends_errno [] js = refl
  friends_errno (f ∷ fs) js = simp (int_strings)

  offline_errno :
      (ms : List Bytes) (js : Json) → J.get_int "errno" (with_offline ms js) ≡ J.get_int "errno" js
  unfolding with_offline same_key bytes_eq
  offline_errno [] js = refl
  offline_errno (m ∷ ms) js = simp (int_strings)

  greeting_errno : (user : User) → J.get_int "errno" (greeting user) ≡ some (pos 0)
  unfolding greeting same_key bytes_eq
  greeting_errno user =
      let nil : IsInt (pos 0) = omega arith in simp (int_same, int_int, int_string, nil)

  accepted_errno :
      (groups : List Group) (friends : List User) (ms : List Bytes) (user : User)
      → J.get_int "errno"
          (with_groups groups (with_friends friends (with_offline ms (greeting user))))
        ≡ some (pos 0)
  accepted_errno groups friends ms user =
      groups_errno groups _ ∙ friends_errno friends _ ∙ offline_errno ms _ ∙ greeting_errno user

-- Two logins: both ask the database, both record the login, then one after the other goes on to its
-- end.
abbrev pub unlucky : List ℕ
unlucky = 0 ∷ 1 ∷ 0 ∷ 1 ∷ 0 ∷ 0 ∷ 0 ∷ 0 ∷ 0 ∷ 1 ∷ 1 ∷ 1 ∷ 1 ∷ 1 ∷ []

module _ ⦃J : JsonLib⦄ ⦃S : MySql⦄ where
  -- The database lets the user in: it knows it, with this password, and does not say that it is
  -- online.
  pub record Admits (id : ℤ) (password : Bytes) (db : Db) : Type 0 where
    pub known : (User.query id db).0.id ≢ negsuc 0
    pub password_fits : (User.query id db).0.password ≡ password
    pub not_online : (User.query id db).0.state ≢ online

  checked :
      (conn : Conn) (id : ℤ) (password : Bytes) (s : Service)
      → Admits id password s.db
      → advance (logs_in conn id password) s
        ≡ (records conn id (User.query id s.db).0, record s { db = (User.query id s.db).1 })
  unfolding advance
  checked conn id password s h =
      let (user, db) = User.query id s.db in
      let known : not (user.id ==ℤ negsuc 0) ≡ true =
        ground (arith, ==ℤ_iff user.id (negsuc 0), h.known) in
      let fits : bytes_eq user.password password ≡ true =
        rw h.password_fits (bytes_eq_refl password) in
      let new : bytes_eq user.state online ≡ false =
        ground (arith, bytes_eq-eq user.state online, h.not_online) in
      rw (advance, known, fits, new) refl

  recorded :
      (conn : Conn) (id : ℤ) (user : User) (s : Service)
      → (User.update (record user { state = online }) s.db).0 ≡ true
      → advance (records conn id user) s ≡ (
        registers conn id (record user { state = online }),
        record s { db = (User.update (record user { state = online }) s.db).1 },
      )
  unfolding advance
  recorded conn id user s h = rw (advance, h) refl

  abbrev pub two : Job → Job → Service → Threads
  two one other s = record { jobs = one ∷ other ∷ []; locked = false; service = s }

  abbrev pub two_logins : Conn → Conn → ℤ → Bytes → Service → Threads
  two_logins a b id password s = two (logs_in a id password) (logs_in b id password) s

  both_recorded :
      (a b : Conn) (id : ℤ) (password : Bytes) (s : Service)
      → Admits id password s.db
      → let first = User.query id s.db in
        Admits id password first.1
        → let second = User.query id first.1 in
          let up = User.update (record first.0 { state = online }) second.1 in
          let up' = User.update (record second.0 { state = online }) up.1 in
          up.0 ≡ true
          → up'.0 ≡ true
          → turns (0 ∷ 1 ∷ 0 ∷ 1 ∷ []) (two_logins a b id password s)
            ≡ two
                (registers a id (record first.0 { state = online }))
                (registers b id (record second.0 { state = online }))
                (record s { db = up'.1 })
  unfolding turns turn move relock set_job
  both_recorded a b id password s h h' u u' =
      let first = User.query id s.db in
      let second = User.query id first.1 in
      let up = User.update (record first.0 { state = online }) second.1 in
      rw
        (
          checked a id password s h,
          checked b id password (record s { db = first.1 }) h',
          recorded a id first.0 (record s { db = second.1 }) u,
          recorded b id second.0 (record s { db = up.1 }) u',
        )
        refl

module _ ⦃J : JsonLib⦄ (laws : JsonLaws J) ⦃S : MySql⦄ where
  both_answered :
      (a b : Conn) (id : ℤ) (user user' : User) (s : Service)
      → find id s.conn_map ≡ none
      → let t =
          turns
            (0 ∷ 0 ∷ 0 ∷ 0 ∷ 0 ∷ 1 ∷ 1 ∷ 1 ∷ 1 ∷ 1 ∷ [])
            (two (registers a id user) (registers b id user') s) in
        (x : Json) × (y : Json) × (t.jobs ≡ finished ∷ finished ∷ [])
        × (t.service.sent ≡ s.sent ++ (a, J.dump x) ∷ (b, J.dump y) ∷ [])
        × (J.get_int "errno" x ≡ some (pos 0))
        × (J.get_int "errno" y ≡ some (pos 0))
        × (find id t.service.conn_map ≡ some a)
  unfolding turns turn move relock set_job advance send call_redis
  both_answered a b id user user' s out = (
    _,
    _,
    refl,
    append_assoc s.sent _ _,
    accepted_errno laws _ _ _ user,
    accepted_errno laws _ _ _ user',
    find-insert id id b (insert id a s.conn_map) ∙ rw (find_inserted id a s.conn_map out) refl,
  )

  -- If the database lets a user in who is not connected to this server, still does when it is asked a
  -- second time, and carries out both updates: two logins of that user on two connections that run at
  -- the same time are both told of success, and only the first connection is in the map.
  pub logged_in_twice :
      (a b : Conn) (id : ℤ) (password : Bytes) (s : Service)
      → Admits id password s.db
      → let first = User.query id s.db in
        Admits id password first.1
        → let second = User.query id first.1 in
          let up = User.update (record first.0 { state = online }) second.1 in
          up.0 ≡ true
          → (User.update (record second.0 { state = online }) up.1).0 ≡ true
          → find id s.conn_map ≡ none
          → let t = turns unlucky (two_logins a b id password s) in
            (x : Json) × (y : Json) × (t.jobs ≡ finished ∷ finished ∷ [])
            × (t.service.sent ≡ s.sent ++ (a, J.dump x) ∷ (b, J.dump y) ∷ [])
            × (J.get_int "errno" x ≡ some (pos 0))
            × (J.get_int "errno" y ≡ some (pos 0))
            × (find id t.service.conn_map ≡ some a)
  unfolding turns
  logged_in_twice a b id password s h h' u u' out =
      rw (turns, both_recorded a b id password s h h' u u') (both_answered a b id _ _ _ out)

-- The login of `a` is in the map, but not yet subscribed, when `loginout` runs; then it goes on.
abbrev pub overtaken : List ℕ
overtaken = 0 ∷ 0 ∷ 0 ∷ 1 ∷ 1 ∷ 1 ∷ 0 ∷ 0 ∷ 0 ∷ 0 ∷ []

module _ ⦃J : JsonLib⦄ ⦃S : MySql⦄ where
  abbrev pub in_and_out : Conn → ℤ → Bytes → Service → Threads
  in_and_out a id password s = two (logs_in a id password) (logs_out id) s

  login_recorded :
      (a : Conn) (id : ℤ) (password : Bytes) (s : Service)
      → Admits id password s.db
      → let first = User.query id s.db in
        let up = User.update (record first.0 { state = online }) first.1 in
        up.0 ≡ true
        → turns (0 ∷ 0 ∷ []) (in_and_out a id password s)
          ≡ two
              (registers a id (record first.0 { state = online }))
              (logs_out id)
              (record s { db = up.1 })
  unfolding turns turn move relock set_job
  login_recorded a id password s h u =
      let first = User.query id s.db in
      rw (checked a id password s h, recorded a id first.0 (record s { db = first.1 }) u) refl

  left_behind :
      (a : Conn) (id : ℤ) (user : User) (s : Service)
      → Distinct s.conn_map
      → find id s.conn_map ≡ none
      → let t =
          turns (0 ∷ 1 ∷ 1 ∷ 1 ∷ 0 ∷ 0 ∷ 0 ∷ 0 ∷ []) (two (registers a id user) (logs_out id) s) in
        (t.jobs ≡ finished ∷ finished ∷ [])
        × (find id t.service.conn_map ≡ none)
        × (t.service.redis ≡ s.redis ++ unsubscribe id ∷ subscribe id ∷ [])
  unfolding turns turn move relock set_job advance send call_redis erase_found logged_in_key
  left_behind a id user s distinct out =
      let m = insert id a s.conn_map in
      let left = record s { conn_map = erase id m; redis = s.redis ++ unsubscribe id ∷ [] } in
      let same = set_offline-same (some id) left in
      rw (find_inserted id a s.conn_map out) (
        refl,
        ap (find id) same.0
            ∙ find-erase id id m (insert-Distinct id a s.conn_map distinct)
            ∙ rw (int_eq_refl id) refl,
        ap (λ calls. calls ++ subscribe id ∷ []) same.1 ∙ append_assoc s.redis _ _,
      )

  -- If the database lets a user in who is not connected to this server, and carries out the update,
  -- and a logout of that user overtakes the login between its insertion into the map and its
  -- subscription: both come to their ends, the user is not in the map, and its channel was
  -- subscribed last.
  pub subscription_left :
      (a : Conn) (id : ℤ) (password : Bytes) (s : Service)
      → Admits id password s.db
      → let first = User.query id s.db in
        (User.update (record first.0 { state = online }) first.1).0 ≡ true
        → Distinct s.conn_map
        → find id s.conn_map ≡ none
        → let t = turns overtaken (in_and_out a id password s) in
          (t.jobs ≡ finished ∷ finished ∷ [])
          × (find id t.service.conn_map ≡ none)
          × (t.service.redis ≡ s.redis ++ unsubscribe id ∷ subscribe id ∷ [])
  unfolding turns
  subscription_left a id password s h u distinct out =
      rw (turns, login_recorded a id password s h u) (left_behind a id _ _ distinct out)
