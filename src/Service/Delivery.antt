-- ===== src/Service/Delivery.antt =====
-- Where a message to a group goes.
use cluster_chat_server.Prelude.{
  ◌+◌, ◌≡◌, refl, inl, inr, List, [], ◌∷◌, ◌++◌, true, false, none, some, arith, if◌then◌else◌, ℤ,
  Option-cases, Bool-cases, ◌∙◌, ap, sym, length, length-append,
}
use mathlib.Core.Path.{fun_ext}
use mathlib.Core.List.{append-nil, append_assoc}
use cluster_chat_server.Prelude.Text.{Bytes, bytes_eq}
use cluster_chat_server.Sql.{MySql, Db}
use cluster_chat_server.Model.Types.{online}
use cluster_chat_server.Model.User
use cluster_chat_server.Service.State.{Service, Conn, ConnMap, RedisCall, publish, find, send}
use cluster_chat_server.Service.Laws.{Tables, Fits}
use cluster_chat_server.Service.Chat.{deliver, deliver_remote}
use cluster_chat_server.Service.Groups.{deliver_all}

-- The three ways to a user: a connection of this server, the Redis channel of a user who is online
-- elsewhere, the table of offline messages.
pub data Route : Type 0 where
  local : Conn → Route
  remote stored : Route

module _ ⦃S : MySql⦄ where
  -- The way that the map and the database prescribe.
  unfoldable pub route : ConnMap → Db → ℤ → Route
  route m db id = elim (find id m) [
    | some conn ↦ local conn
    | none ↦ if bytes_eq (User.query id db).0.state online then remote else stored
  ]

-- What goes to the connections of this server, and what to Redis, for the users with these routes.
abbrev pub sends : (ℤ → Route) → Bytes → List ℤ → List (Conn × Bytes)
sends r text [] = []
sends r text (id ∷ ids) =
    let rest = sends r text ids in
    elim (r id) [ local conn ↦ (conn, text) ∷ rest | remote ↦ rest | stored ↦ rest ]

abbrev pub publications : (ℤ → Route) → Bytes → List ℤ → List RedisCall
publications r text [] = []
publications r text (id ∷ ids) =
    let rest = publications r text ids in
    elim (r id) [ local conn ↦ rest | remote ↦ publish id text ∷ rest | stored ↦ rest ]

abbrev pub stores : (ℤ → Route) → Bytes → List ℤ → List (ℤ × Bytes)
stores r text [] = []
stores r text (id ∷ ids) =
    let rest = stores r text ids in
    elim (r id) [ local conn ↦ rest | remote ↦ rest | stored ↦ (id, text) ∷ rest ]

-- Each user is served in one way.
one_way :
    (r : ℤ → Route) (text : Bytes) (ids : List ℤ)
    → length (sends r text ids) + length (publications r text ids) + length (stores r text ids)
      ≡ length ids
one_way r text [] = refl
one_way r text (id ∷ ids) = ground (arith, one_way r text ids)

abbrev pub AllFit : Bytes → List ℤ → Type 0
AllFit text [] = Unit {0}
AllFit text (id ∷ ids) = Fits id text × AllFit text ids

module _ ⦃S : MySql⦄ (tables : Tables S) where
  open tables use {inbox}

  -- What serving these users adds, by the routes that hold at the start.
  pub record Served (ids : List ℤ) (text : Bytes) (s t : Service) : Type 0 where
    pub sent : t.sent ≡ s.sent ++ sends (route s.conn_map s.db) text ids
    pub calls : t.redis ≡ s.redis ++ publications (route s.conn_map s.db) text ids
    pub mail : inbox t.db ≡ inbox s.db ++ stores (route s.conn_map s.db) text ids
    pub same_map : t.conn_map ≡ s.conn_map
    pub same_users : (j : ℤ) → (User.query j t.db).0 ≡ (User.query j s.db).0

  route-online :
      (m : ConnMap) (db : Db) (id : ℤ)
      → find id m ≡ none
      → bytes_eq (User.query id db).0.state online ≡ true
      → route m db id ≡ remote
  unfolding route
  route-online m db id e on = rw (e, route, on)

  route-offline :
      (m : ConnMap) (db : Db) (id : ℤ)
      → find id m ≡ none
      → bytes_eq (User.query id db).0.state online ≡ false
      → route m db id ≡ stored
  unfolding route
  route-offline m db id e off = rw (e, route, off)

  route-local :
      (m : ConnMap) (db : Db) (id : ℤ) (conn : Conn)
      → find id m ≡ some conn
      → route m db id ≡ local conn
  unfolding route
  route-local m db id conn e = rw (e, route)

  deliver_remote-Served :
      (id : ℤ) (text : Bytes) (s : Service)
      → find id s.conn_map ≡ none
      → Fits id text
      → Served (id ∷ []) text s (deliver_remote id text s)
  unfolding deliver_remote
  deliver_remote-Served id text s e fits =
      let db = (User.query id s.db).1 in
      elim (Bool-cases (bytes_eq (User.query id s.db).0.state online)) [
        | inl on ↦
            let r = route-online s.conn_map s.db id e on in
            rw (on, deliver_remote)
              (record {
                sent = rw (r, sends) (sym (append-nil s.sent));
                calls = rw (r, publications);
                mail = rw (r, stores) (tables.inbox_query id s.db ∙ sym (append-nil (inbox s.db)));
                same_map = refl;
                same_users = λ j. tables.user_query id j s.db;
              })
        | inr off ↦
            let r = route-offline s.conn_map s.db id e off in
            rw (off, deliver_remote)
              (record {
                sent = rw (r, sends) (sym (append-nil s.sent));
                calls = rw (r, publications) (sym (append-nil s.redis));
                mail =
                    rw (r, stores)
                      (tables.inbox_insert id text db fits
                        ∙ ap (λ t. t ++ (id, text) ∷ []) (tables.inbox_query id s.db));
                same_map = refl;
                same_users = λ j. tables.user_insert id j text db ∙ tables.user_query id j s.db;
              })
      ]

  deliver-Served :
      (id : ℤ) (text : Bytes) (s : Service)
      → Fits id text
      → Served (id ∷ []) text s (deliver id text s)
  unfolding deliver send
  deliver-Served id text s fits = elim (Option-cases (find id s.conn_map)) [
    | inl e ↦ rw (e, deliver) (deliver_remote-Served id text s e fits)
    | inr (conn, e) ↦
        let r = route-local s.conn_map s.db id conn e in
        rw (e, deliver)
          (record {
            sent = rw (r, sends);
            calls = rw (r, publications) (sym (append-nil s.redis));
            mail = rw (r, stores) (sym (append-nil (inbox s.db)));
            same_map = refl;
            same_users = λ j. refl;
          })
  ]

  -- The routes depend on the map and on what the database says of the users only.
  route-same :
      (s t : Service)
      → t.conn_map ≡ s.conn_map
      → ((j : ℤ) → (User.query j t.db).0 ≡ (User.query j s.db).0)
      → route t.conn_map t.db ≡ route s.conn_map s.db
  unfolding route
  route-same s t m u = fun_ext λ j. elim (Option-cases (find j s.conn_map)) [
    | inl e ↦ rw (m, e, route) (rw (u j))
    | inr (c, e) ↦ rw (m, e, route)
  ]

  sends-cons :
      (r : ℤ → Route) (text : Bytes) (id : ℤ) (ids : List ℤ)
      → sends r text (id ∷ ids) ≡ sends r text (id ∷ []) ++ sends r text ids
  sends-cons r text id ids = ground arith

  publications-cons :
      (r : ℤ → Route) (text : Bytes) (id : ℤ) (ids : List ℤ)
      → publications r text (id ∷ ids) ≡ publications r text (id ∷ []) ++ publications r text ids
  publications-cons r text id ids = ground arith

  stores-cons :
      (r : ℤ → Route) (text : Bytes) (id : ℤ) (ids : List ℤ)
      → stores r text (id ∷ ids) ≡ stores r text (id ∷ []) ++ stores r text ids
  stores-cons r text id ids = ground arith

  Served-cons :
      {s t u : Service} {id : ℤ} {ids : List ℤ} {text : Bytes}
      → Served (id ∷ []) text s t
      → Served ids text t u
      → Served (id ∷ ids) text s u
  Served-cons {s} {t} {u} {id} {ids} {text} h k =
      let r = route-same s t h.same_map h.same_users in
      let old = route s.conn_map s.db in
      record {
        sent =
            k.sent
            ∙ rw (r, h.sent)
                (append_assoc s.sent _ _ ∙ ap (◌++◌ s.sent) (sym (sends-cons old text id ids)));
        calls =
            k.calls
            ∙ rw (r, h.calls)
                (append_assoc s.redis _ _
                  ∙ ap (◌++◌ s.redis) (sym (publications-cons old text id ids)));
        mail =
            k.mail
            ∙ rw (r, h.mail)
                (append_assoc (inbox s.db) _ _
                  ∙ ap (◌++◌ (inbox s.db)) (sym (stores-cons old text id ids)));
        same_map = k.same_map ∙ h.same_map;
        same_users = λ j. k.same_users j ∙ h.same_users j;
      }

  -- A message to a list of users that can be stored for each of them is served along the routes that
  -- hold before the first delivery: a copy to each connection of this server, in the order of the
  -- list, a publication for each user who is online elsewhere, a stored message for each of the
  -- others, and nothing else; the connection map stays.
  pub deliver_all-Served :
      (ids : List ℤ) (text : Bytes) (s : Service)
      → AllFit text ids
      → Served ids text s (deliver_all ids text s)
  unfolding deliver_all
  deliver_all-Served [] text s f = record {
    sent = sym (append-nil s.sent);
    calls = sym (append-nil s.redis);
    mail = sym (append-nil (inbox s.db));
    same_map = refl;
    same_users = λ j. refl;
  }
  deliver_all-Served (id ∷ ids) text s f =
      Served-cons (deliver-Served id text s f.0)
        (deliver_all-Served ids text (deliver id text s) f.1)

  -- If the message can be stored for each of these users, each is served exactly once: as many
  -- copies, publications and stored messages are added together as there are users in the list.
  pub deliver_all-once :
      (ids : List ℤ) (text : Bytes) (s : Service)
      → AllFit text ids
      → let t = deliver_all ids text s in
        length t.sent + length t.redis + length (inbox t.db)
        ≡ length s.sent + length s.redis + length (inbox s.db) + length ids
  deliver_all-once ids text s f =
      let h = deliver_all-Served ids text s f in
      let r = route s.conn_map s.db in
      rw (h.sent, h.calls, h.mail)
        (omega (
          arith,
          length-append s.sent (sends r text ids),
          length-append s.redis (publications r text ids),
          length-append (inbox s.db) (stores r text ids),
          one_way r text ids,
        ))
