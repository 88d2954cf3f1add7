-- ===== src/Service/Frame.antt =====
-- What the handlers that are no login or logout leave alone: the connection map.
use cluster_chat_server.Prelude.{
  ◌≡◌, refl, List, [], ◌∷◌, ◌++◌, ℤ, Always, Always-bind, ◌∙◌, sym, ap, Option-cases, Bool-cases,
  inl, inr,
}
use cluster_chat_server.Prelude.Text.{Bytes, bytes_eq}
use cluster_chat_server.Json.{JsonLib, Json}
use cluster_chat_server.Sql.{MySql}
use mathlib.Core.List.{append-nil, append_assoc}
use cluster_chat_server.Model.Types.{online}
use cluster_chat_server.Model.User
use cluster_chat_server.Model.Group
use cluster_chat_server.Service.State.{
  Service, Conn, RedisCall, publish, subscribe, unsubscribe, find,
}
use cluster_chat_server.Service.Session.{reg, register, reset}
use cluster_chat_server.Service.Chat.{
  deliver, deliver_remote, one_chat, add_friend, handle_redis_subscribe_message,
}
use cluster_chat_server.Service.Groups.{
  deliver_all, create_group, add_group, group_chat, send_group,
}

-- The calls are publications only.
abbrev pub Publishes : List RedisCall → Type 0
Publishes [] = Unit {0}
Publishes (publish id text ∷ cs) = Publishes cs
Publishes (subscribe id ∷ cs) = ⊥
Publishes (unsubscribe id ∷ cs) = ⊥

Publishes-append : (xs ys : List RedisCall) → Publishes xs → Publishes ys → Publishes (xs ++ ys)
Publishes-append [] ys p q = q
Publishes-append (publish id text ∷ xs) ys p q = Publishes-append xs ys p q
Publishes-append (subscribe id ∷ xs) ys p q = elim p [ ]
Publishes-append (unsubscribe id ∷ xs) ys p q = elim p [ ]

module _ ⦃S : MySql⦄ where
  -- The sessions are as before: the same map, and no subscription changed.
  pub record SameSessions (s t : Service) : Type 0 where
    pub same_map : t.conn_map ≡ s.conn_map
    pub calls : List RedisCall
    pub published : Publishes calls
    pub logged : t.redis ≡ s.redis ++ calls

  pub SameSessions-refl :
      (s t : Service) → t.conn_map ≡ s.conn_map → t.redis ≡ s.redis → SameSessions s t
  SameSessions-refl s t m r = record {
    same_map = m;
    calls = [];
    published = tt;
    logged = r ∙ sym (append-nil s.redis);
  }

  SameSessions-trans : {s t u : Service} → SameSessions s t → SameSessions t u → SameSessions s u
  SameSessions-trans {s} {t} {u} h k = record {
    same_map = k.same_map ∙ h.same_map;
    calls = h.calls ++ k.calls;
    published = Publishes-append h.calls k.calls h.published k.published;
    logged = k.logged ∙ ap (λ r. r ++ k.calls) h.logged ∙ append_assoc s.redis h.calls k.calls;
  }

  deliver_remote-SameSessions :
      (id : ℤ) (text : Bytes) (s : Service) → SameSessions s (deliver_remote id text s)
  unfolding deliver_remote
  deliver_remote-SameSessions id text s =
      elim (Bool-cases (bytes_eq (User.query id s.db).0.state online)) [
        | inl e ↦ rw e (record {
          same_map = refl;
          calls = publish id text ∷ [];
          published = tt;
          logged = refl;
        })
        | inr e ↦ rw e (SameSessions-refl s _ refl refl)
      ]

  pub deliver-SameSessions :
      (id : ℤ) (text : Bytes) (s : Service) → SameSessions s (deliver id text s)
  unfolding deliver
  deliver-SameSessions id text s = elim (Option-cases (find id s.conn_map)) [
    | inl e ↦ rw (e, deliver) (deliver_remote-SameSessions id text s)
    | inr (c, e) ↦ rw (e, deliver) (SameSessions-refl s _ refl refl)
  ]

  deliver_all-SameSessions :
      (ids : List ℤ) (text : Bytes) (s : Service) → SameSessions s (deliver_all ids text s)
  unfolding deliver_all
  deliver_all-SameSessions [] text s = SameSessions-refl s s refl refl
  deliver_all-SameSessions (id ∷ ids) text s =
      SameSessions-trans (deliver-SameSessions id text s)
        (deliver_all-SameSessions ids text (deliver id text s))

  send_group-SameSessions :
      (userid groupid : ℤ) (text : Bytes) (s : Service)
      → SameSessions s (send_group userid groupid text s)
  unfolding send_group
  send_group-SameSessions userid groupid text s =
      let (ids, db) = Group.query_group_users userid groupid s.db in
      SameSessions-trans (SameSessions-refl s (record s { db = db }) refl refl)
        (deliver_all-SameSessions ids text (record s { db = db }))

  pub handle_redis_subscribe_message-SameSessions :
      (id : ℤ) (text : Bytes) (s : Service)
      → SameSessions s (handle_redis_subscribe_message id text s)
  unfolding handle_redis_subscribe_message
  handle_redis_subscribe_message-SameSessions id text s = elim (Option-cases (find id s.conn_map)) [
    | inl e ↦ rw (e, handle_redis_subscribe_message) (SameSessions-refl s _ refl refl)
    | inr (c, e) ↦ rw (e, handle_redis_subscribe_message) (SameSessions-refl s _ refl refl)
  ]

  pub reset-SameSessions : (s : Service) → SameSessions s (reset s)
  unfolding reset
  reset-SameSessions s = SameSessions-refl s _ refl refl

module _ ⦃J : JsonLib⦄ ⦃S : MySql⦄ where
  -- Each of these handlers, if no JSON read throws, keeps the sessions.
  pub one_chat-SameSessions :
      (conn : Conn) (js : Json) (s : Service) → Always (SameSessions s) (one_chat conn js s)
  unfolding one_chat
  one_chat-SameSessions conn js s =
      Always-bind _ (J.get_int "to" js) _ λ id e. deliver-SameSessions id (J.dump js) s

  pub group_chat-SameSessions :
      (conn : Conn) (js : Json) (s : Service) → Always (SameSessions s) (group_chat conn js s)
  unfolding group_chat
  group_chat-SameSessions conn js s = Always-bind _ (J.get_int "id" js) _ λ userid e.
      Always-bind _ (J.get_int "groupid" js) _
        λ groupid e'. send_group-SameSessions userid groupid (J.dump js) s

  pub add_friend-SameSessions :
      (conn : Conn) (js : Json) (s : Service) → Always (SameSessions s) (add_friend conn js s)
  unfolding add_friend
  add_friend-SameSessions conn js s = Always-bind _ (J.get_int "id" js) _ λ userid e.
      Always-bind _ (J.get_int "friendid" js) _ λ friendid e'. SameSessions-refl s _ refl refl

  pub create_group-SameSessions :
      (conn : Conn) (js : Json) (s : Service) → Always (SameSessions s) (create_group conn js s)
  unfolding create_group
  create_group-SameSessions conn js s = Always-bind _ (J.get_int "id" js) _ λ userid e.
      Always-bind _ (J.get_string "groupname" js) _ λ name e'.
        Always-bind _ (J.get_string "groupdesc" js) _ λ desc e''. SameSessions-refl s _ refl refl

  pub add_group-SameSessions :
      (conn : Conn) (js : Json) (s : Service) → Always (SameSessions s) (add_group conn js s)
  unfolding add_group
  add_group-SameSessions conn js s = Always-bind _ (J.get_int "userid" js) _ λ userid e.
      Always-bind _ (J.get_int "groupid" js) _ λ groupid e'. SameSessions-refl s _ refl refl

  register-SameSessions :
      (conn : Conn) (name password : Bytes) (s : Service)
      → SameSessions s (register conn name password s)
  unfolding register
  register-SameSessions conn name password s = SameSessions-refl s _ refl refl

  pub reg-SameSessions :
      (conn : Conn) (js : Json) (s : Service) → Always (SameSessions s) (reg conn js s)
  unfolding reg
  reg-SameSessions conn js s = Always-bind _ (J.get_string "name" js) _ λ name e.
      Always-bind _ (J.get_string "password" js) _
        λ password e'. register-SameSessions conn name password s
