-- ===== src/Service/Subscriptions.antt =====
-- The subscriptions of a server in Redis follow its connection map.
use cluster_chat_server.Prelude.{
  ◌≡◌, refl, ◌≢◌, inl, inr, List, [], ◌∷◌, ◌++◌, Bool, true, false, Option, none, some, arith,
  if◌then◌else◌, ℤ, negsuc, ◌==ℤ◌, ==ℤ_iff, IsInt, Always, Always-bind, Option-cases, ◌∙◌,
}
use cluster_chat_server.Json.{JsonLib, Json}
use cluster_chat_server.Sql.{MySql}
use cluster_chat_server.Service.State.{
  Service, Conn, RedisCall, publish, subscribe, unsubscribe, find, insert, erase, key_of,
  call_redis,
}
use cluster_chat_server.Service.Keys.{
  Distinct, find-insert, find-erase, insert-Distinct, erase-Distinct,
}
use cluster_chat_server.Service.Laws.{ReadsInts, SelectsById, query-id}
use cluster_chat_server.Service.Session.{
  login, loginout, leave, set_offline, erase_found, logged_in_key, id_or_unset,
  client_close_exception,
}
use cluster_chat_server.Service.Login.{authenticate_cases}
use cluster_chat_server.Service.Frame.{
  Publishes, SameSessions, SameSessions-refl, reg-SameSessions, one_chat-SameSessions,
  add_friend-SameSessions, create_group-SameSessions, add_group-SameSessions,
  group_chat-SameSessions, handle_redis_subscribe_message-SameSessions, reset-SameSessions,
}
use cluster_chat_server.Model.User
use cluster_chat_server.Service.Dispatch.{ignore, msg_handler_map, get_handler-All}
use cluster_chat_server.Service.Run.{
  Event, request, redis_message, closed, interrupted, step, run, run-Always,
}

-- Whether the last call about this channel was `subscribe`, where `before` held earlier.
abbrev pub subscribed_from : Bool → ℤ → List RedisCall → Bool
subscribed_from before id [] = before
subscribed_from before id (publish k text ∷ cs) = subscribed_from before id cs
subscribed_from before id (subscribe k ∷ cs) =
    subscribed_from (if k ==ℤ id then true else before) id cs
subscribed_from before id (unsubscribe k ∷ cs) =
    subscribed_from (if k ==ℤ id then false else before) id cs

abbrev pub subscribed : ℤ → List RedisCall → Bool
subscribed = subscribed_from false

abbrev pub is_some : Option Conn → Bool
is_some none = false
is_some (some c) = true

subscribed_from-append :
    (id : ℤ) (xs ys : List RedisCall) (before : Bool)
    → subscribed_from before id (xs ++ ys) ≡ subscribed_from (subscribed_from before id xs) id ys
subscribed_from-append id [] ys before = refl
subscribed_from-append id (publish k text ∷ cs) ys before = subscribed_from-append id cs ys before
subscribed_from-append id (subscribe k ∷ cs) ys before =
    subscribed_from-append id cs ys (if k ==ℤ id then true else before)
subscribed_from-append id (unsubscribe k ∷ cs) ys before =
    subscribed_from-append id cs ys (if k ==ℤ id then false else before)

subscribed_from-Publishes :
    (before : Bool) (id : ℤ) (cs : List RedisCall)
    → Publishes cs
    → subscribed_from before id cs ≡ before
subscribed_from-Publishes before id [] p = refl
subscribed_from-Publishes before id (publish k text ∷ cs) p =
    subscribed_from-Publishes before id cs p
subscribed_from-Publishes before id (subscribe k ∷ cs) p = elim p [ ]
subscribed_from-Publishes before id (unsubscribe k ∷ cs) p = elim p [ ]

module _ ⦃S : MySql⦄ where
  -- No user id is in the map twice, the id -1 never, and the ids in the map are the channels that are
  -- subscribed.
  pub record Inv (s : Service) : Type 0 where
    pub distinct : Distinct s.conn_map
    pub no_unset : find (negsuc 0) s.conn_map ≡ none
    pub mirrored : (id : ℤ) → subscribed id s.redis ≡ is_some (find id s.conn_map)

  pub SameSessions-Inv : {s t : Service} → SameSessions s t → Inv s → Inv t
  SameSessions-Inv {s} {t} h v = record {
    distinct = rw h.same_map v.distinct;
    no_unset = rw h.same_map v.no_unset;
    mirrored = λ id.
        rw (h.logged, h.same_map)
          (subscribed_from-append id s.redis h.calls false
            ∙ subscribed_from-Publishes _ id h.calls h.published
            ∙ v.mirrored id);
  }

  -- A user enters.
  entered-Inv :
      {s t : Service} (conn : Conn) (id : ℤ)
      → id ≢ negsuc 0
      → t.conn_map ≡ insert id conn s.conn_map
      → t.redis ≡ s.redis ++ subscribe id ∷ []
      → Inv s
      → Inv t
  entered-Inv {s} {t} conn id ne m r v = record {
    distinct = rw m (insert-Distinct id conn s.conn_map v.distinct);
    no_unset = rw m (
        ground
          (arith, find-insert id (negsuc 0) conn s.conn_map, v.no_unset, ==ℤ_iff id (negsuc 0)));
    mirrored = λ j.
        rw (m, r)
          (subscribed_from-append j s.redis (subscribe id ∷ []) false
            ∙ ground (arith, find-insert id j conn s.conn_map, v.mirrored j, ==ℤ_iff id j));
  }

  -- A user leaves who was in the map.
  left-Inv :
      {s t : Service} (id : ℤ)
      → t.conn_map ≡ erase id s.conn_map
      → t.redis ≡ s.redis ++ unsubscribe id ∷ []
      → Inv s
      → Inv t
  left-Inv {s} {t} id m r v = record {
    distinct = rw m (erase-Distinct id s.conn_map v.distinct);
    no_unset = rw m (ground (arith, find-erase id (negsuc 0) s.conn_map v.distinct, v.no_unset));
    mirrored = λ j.
        rw (m, r)
          (subscribed_from-append j s.redis (unsubscribe id ∷ []) false
            ∙ ground (arith, find-erase id j s.conn_map v.distinct, v.mirrored j, ==ℤ_iff id j));
  }

  -- An `unsubscribe` for an id that is not in the map.
  absent-Inv :
      {s t : Service} (id : ℤ)
      → find id s.conn_map ≡ none
      → t.conn_map ≡ s.conn_map
      → t.redis ≡ s.redis ++ unsubscribe id ∷ []
      → Inv s
      → Inv t
  absent-Inv {s} {t} id gone m r v = record {
    distinct = rw m v.distinct;
    no_unset = rw m v.no_unset;
    mirrored = λ j.
        rw (m, r)
          (subscribed_from-append j s.redis (unsubscribe id ∷ []) false
            ∙ ground (arith, v.mirrored j, ==ℤ_iff id j, gone));
  }

  pub set_offline-same :
      (found : Option ℤ) (s : Service)
      → ((set_offline found s).conn_map ≡ s.conn_map) × ((set_offline found s).redis ≡ s.redis)
  unfolding set_offline
  set_offline-same none s = (refl, refl)
  set_offline-same (some id) s = ground arith

  leave-Inv : (id : ℤ) {s : Service} → Inv s → Inv (leave id s)
  unfolding leave logged_in_key erase_found call_redis
  leave-Inv id {s} v = elim (Option-cases (find id s.conn_map)) [
    | inl e ↦
        let same = set_offline-same none (record s { redis = s.redis ++ unsubscribe id ∷ [] }) in
        rw (e, leave) (absent-Inv id e same.0 same.1 v)
    | inr (c, e) ↦
        rw (e, leave)
          (left-Inv id (set_offline-same (some id) _).0 (set_offline-same (some id) _).1 v)
  ]

  close-Inv : (conn : Conn) {s : Service} → Inv s → Inv (client_close_exception conn s)
  unfolding client_close_exception id_or_unset erase_found call_redis
  close-Inv conn {s} v = elim (Option-cases (key_of conn s.conn_map)) [
    | inl e ↦
        let same =
          set_offline-same none (record s { redis = s.redis ++ unsubscribe (negsuc 0) ∷ [] }) in
        rw (e, client_close_exception) (absent-Inv (negsuc 0) v.no_unset same.0 same.1 v)
    | inr (id, e) ↦
        rw (e, client_close_exception)
          (left-Inv id (set_offline-same (some id) _).0 (set_offline-same (some id) _).1 v)
  ]

module _ ⦃J : JsonLib⦄ ⦃S : MySql⦄ (ints : ReadsInts J) (rows : SelectsById S) where
  login-Inv : (conn : Conn) (js : Json) (s : Service) → Inv s → Always Inv (login conn js s)
  unfolding login
  login-Inv conn js s v = Always-bind _ (J.get_int "id" js) _ λ id e.
      Always-bind _ (J.get_string "password" js) _ λ password e'.
        elim (authenticate_cases conn id password s) [
          | inl r ↦ SameSessions-Inv (SameSessions-refl s _ r.same_map r.same_redis) v
          | inr (ne, _, _, a) ↦
              entered-Inv conn id (known id (ints.is_int "id" js id e) ne) a.registered a.subscribed
                v
        ]
    where
      known : (id : ℤ) → IsInt id → (User.query id s.db).0.id ≢ negsuc 0 → id ≢ negsuc 0
      known id i ne = elim (query-id rows id s.db i) [
        | inl unset ↦ absurd (ne unset)
        | inr same ↦ λ p. ne (same ∙ p)
      ]

  loginout-Inv : (conn : Conn) (js : Json) (s : Service) → Inv s → Always Inv (loginout conn js s)
  unfolding loginout
  loginout-Inv conn js s v = Always-bind _ (J.get_int "id" js) _ λ id e. leave-Inv id v

  same : {s : Service} (r : Option Service) → Always (SameSessions s) r → Inv s → Always Inv r
  same none h v = tt
  same (some t) h v = SameSessions-Inv h v

  step-Inv : (e : Event) (s : Service) → Inv s → Always Inv (step e s)
  unfolding step msg_handler_map ignore
  step-Inv (request msgid conn js) s v =
      get_handler-All (λ h. Always Inv (h conn js s)) msgid v
        (
          login-Inv conn js s v,
          (
            same _ (reg-SameSessions conn js s) v,
            (
              same _ (one_chat-SameSessions conn js s) v,
              (
                same _ (add_friend-SameSessions conn js s) v,
                (
                  same _ (create_group-SameSessions conn js s) v,
                  (
                    same _ (add_group-SameSessions conn js s) v,
                    (same _ (group_chat-SameSessions conn js s) v, (loginout-Inv conn js s v, tt)),
                  ),
                ),
              ),
            ),
          ),
        )
  step-Inv (redis_message id text) s v =
      SameSessions-Inv (handle_redis_subscribe_message-SameSessions id text s) v
  step-Inv (closed conn) s v = close-Inv conn v
  step-Inv interrupted s v = SameSessions-Inv (reset-SameSessions s) v

  -- With a JSON library whose `get<int>()` gives ints, and a database that selects by id: after any
  -- history of requests, messages from Redis, lost connections and resets in which no JSON read
  -- throws, from a state where this holds, no user id is twice in the connection map, the id -1 is
  -- not in it, and the server is subscribed to the channel of a user exactly if the user is in the
  -- map.
  pub run-Inv : (es : List Event) (s : Service) → Inv s → Always Inv (run es s)
  run-Inv es s v = run-Always Inv step-Inv es s v
