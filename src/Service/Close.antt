-- ===== src/Service/Close.antt =====
-- A lost connection: `clientCloseException` takes out one entry of the map.
use cluster_chat_server.Prelude.{
  ◌≡◌, refl, ◌≢◌, inl, inr, [], ◌∷◌, none, some, arith, ℤ, ◌==ℤ◌, ==ℤ_iff, Option-cases, Bool-cases,
}
use cluster_chat_server.Sql.{MySql}
use cluster_chat_server.Service.State.{Service, Conn, ConnMap, find, erase, key_of, call_redis}
use cluster_chat_server.Service.Keys.{Distinct, find-erase, find-key_of}
use cluster_chat_server.Service.Session.{client_close_exception, erase_found, set_offline}
use cluster_chat_server.Service.Subscriptions.{set_offline-same}

-- At most one entry of the map holds this connection.
abbrev pub Once : Conn → ConnMap → Type 0
Once conn [] = Unit {0}
Once conn ((key, c) ∷ m) = ((c ≡ conn → key_of conn m ≡ none) × Once conn m)

key_of-erase :
    (conn : Conn) (m : ConnMap) (id : ℤ)
    → Distinct m
    → Once conn m
    → key_of conn m ≡ some id
    → key_of conn (erase id m) ≡ none
unfolding key_of erase
key_of-erase conn [] id d o e = refl
key_of-erase conn ((key, c) ∷ m) id d o e =
    ground
      (arith, ==ℤ_iff key id, find-key_of conn m id d.1, key_of-erase conn m id d.1 o.1, d.0, o.0)

-- A connection that the search does not find is under no id.
key_of-none : (conn : Conn) (m : ConnMap) (id : ℤ) → key_of conn m ≡ none → find id m ≢ some conn
unfolding key_of find
key_of-none conn [] id e = λ h. cc
key_of-none conn ((key, c) ∷ m) id e = ground (arith, key_of-none conn m id)

module _ ⦃S : MySql⦄ (conn : Conn) (s : Service) (distinct : Distinct s.conn_map) where
  -- The map that is left.
  close-map :
      (client_close_exception conn s).conn_map
      ≡ (elim (key_of conn s.conn_map) [ none ↦ s.conn_map | some id ↦ erase id s.conn_map ])
  unfolding client_close_exception erase_found call_redis set_offline
  close-map = elim (Option-cases (key_of conn s.conn_map)) [
    | inl e ↦ rw (e, client_close_exception, set_offline)
    | inr (id, e) ↦ rw (e, client_close_exception) (set_offline-same (some id) _).0
  ]

  -- After the clean-up of a connection that is at most once in a map without double keys, no user
  -- is registered with it.
  pub close_clean :
      Once conn s.conn_map → key_of conn (client_close_exception conn s).conn_map ≡ none
  close_clean once = elim (Option-cases (key_of conn s.conn_map)) [
    | inl e ↦ rw (close-map, e) e
    | inr (id, e) ↦ rw (close-map, e) (key_of-erase conn s.conn_map id distinct once e)
  ]

  -- In a map without double keys, users of other connections stay registered as they were.
  pub close_others :
      (id : ℤ)
      → find id s.conn_map ≢ some conn
      → find id (client_close_exception conn s).conn_map ≡ find id s.conn_map
  close_others id other = elim (Option-cases (key_of conn s.conn_map)) [
    | inl e ↦ rw (close-map, e)
    | inr (key, e) ↦
        rw (close-map, e)
          (ground (
            arith,
            find-erase key id s.conn_map distinct,
            find-key_of conn s.conn_map key distinct e,
            ==ℤ_iff key id,
          ))
  ]

  -- If two users of a map without double keys are logged in over one connection, one of them stays
  -- registered with it after it is lost.
  pub close_stale :
      (j k : ℤ)
      → j ≢ k
      → find j s.conn_map ≡ some conn
      → find k s.conn_map ≡ some conn
      → (id : ℤ) × (find id (client_close_exception conn s).conn_map ≡ some conn)
  close_stale j k ne hj hk = elim (Option-cases (key_of conn s.conn_map)) [
    | inl e ↦ absurd (key_of-none conn s.conn_map j e hj)
    | inr (id, e) ↦ elim (Bool-cases (id ==ℤ j)) [
      | inl same ↦ (
        k,
        rw (close-map, e)
            (ground (arith, find-erase id k s.conn_map distinct, ==ℤ_iff id j, ==ℤ_iff id k)),
      )
      | inr other ↦ (j, rw (close-map, e) (ground (arith, find-erase id j s.conn_map distinct)))
    ]
  ]
