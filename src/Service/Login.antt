-- ===== src/Service/Login.antt =====
-- The outcomes of a login.
use cluster_chat_server.Prelude.{
  ℕ, ◌≡◌, refl, ◌⊎◌, inl, inr, [], ◌∷◌, ◌++◌, false, not, ◌&&◌, arith, ℤ, negsuc, ◌==ℤ◌, Bool-cases,
  ◌≢◌, ==ℤ_iff, subst,
}
use cluster_chat_server.Prelude.Text.{Bytes, bytes_eq, bytes_eq-eq, bytes_eq_refl}
use cluster_chat_server.Json.{JsonLib, Json}
use cluster_chat_server.Sql.{MySql, Db}
use cluster_chat_server.Model.Types.{User, online}
use cluster_chat_server.Model.User
use cluster_chat_server.Service.State.{Service, Conn, subscribe, insert}
use cluster_chat_server.Service.Session.{accept, refuse, enter, authenticate, refusal}

module _ ⦃J : JsonLib⦄ ⦃S : MySql⦄ where
  -- A login was refused: one answer with an error number, and no session begins.
  pub record Refused (conn : Conn) (s t : Service) : Type 0 where
    pub same_map : t.conn_map ≡ s.conn_map
    pub same_redis : t.redis ≡ s.redis
    pub errno : ℕ
    pub errmsg : Bytes
    pub not_zero : errno ≢ 0
    pub answer : t.sent ≡ s.sent ++ (conn, J.dump (refusal errno errmsg)) ∷ []

  -- A login was accepted: the user is registered and subscribed, with one answer.
  pub record Accepted (conn : Conn) (id : ℤ) (s t : Service) : Type 0 where
    pub registered : t.conn_map ≡ insert id conn s.conn_map
    pub subscribed : t.redis ≡ s.redis ++ subscribe id ∷ []
    pub response : Json
    pub answer : t.sent ≡ s.sent ++ (conn, J.dump response) ∷ []

  refuse-Refused :
      (conn : Conn) (errno : ℕ) (errmsg : Bytes) (s : Service) (db : Db)
      → errno ≢ 0
      → Refused conn s (refuse conn errno errmsg (record s { db = db }))
  unfolding refuse
  refuse-Refused conn errno errmsg s db h = record {
    same_map = refl;
    same_redis = refl;
    errno = errno;
    errmsg = errmsg;
    not_zero = h;
    answer = refl;
  }

  accept-Accepted :
      (conn : Conn) (id : ℤ) (user : User) (s : Service) (db : Db)
      → Accepted conn id s (accept conn id user (record s { db = db }))
  unfolding accept
  accept-Accepted conn id user s db = record {
    registered = refl;
    subscribed = refl;
    response = _;
    answer = refl;
  }

  enter-cases :
      (conn : Conn) (id : ℤ) (user : User) (s : Service) (db : Db)
      → let t = enter conn id user (record s { db = db }) in
        Refused conn s t ⊎ (bytes_eq user.state online ≡ false) × Accepted conn id s t
  unfolding enter
  enter-cases conn id user s db = elim (Bool-cases (bytes_eq user.state online)) [
    | inl e ↦ rw e (inl (refuse-Refused conn 2 _ s db (λ h. cc)))
    | inr e ↦
        let up = User.update (record user { state = online }) db in
        elim (Bool-cases up.0) [
          | inl u ↦ rw (e, u) (inr (refl, accept-Accepted conn id _ s up.1))
          | inr u ↦ rw (e, u) (inl (refuse-Refused conn 3 _ s up.1 (λ h. cc)))
        ]
  ]

  -- A login is refused with one answer that carries an error number, or accepted; it is accepted
  -- only if the database returned a user with another id than -1, the password that was sent and
  -- another state than "online".
  pub authenticate_cases :
      (conn : Conn) (id : ℤ) (password : Bytes) (s : Service)
      → let t = authenticate conn id password s in
        let user = (User.query id s.db).0 in
        Refused conn s t
        ⊎ (user.id ≢ negsuc 0)
          × (user.password ≡ password)
          × (user.state ≢ online)
          × Accepted conn id s t
  unfolding authenticate
  authenticate_cases conn id password s =
      let (user, db) = User.query id s.db in
      elim (Bool-cases (not (user.id ==ℤ negsuc 0) && bytes_eq user.password password)) [
        | inr e ↦ rw e (inl (refuse-Refused conn 1 _ s db (λ h. cc)))
        | inl e ↦ rw e (elim (enter-cases conn id user s db) [
          | inl r ↦ inl r
          | inr (other, a) ↦ inr (
            (λ p. ground (arith, ==ℤ_iff user.id (negsuc 0))),
            bytes_eq-eq _ _ (ground arith),
            (λ p.
                let q : bytes_eq online online ≡ false =
                  subst (λ t. bytes_eq t online ≡ false) p other in
                cc (bytes_eq_refl online)),
            a,
          )
        ])
      ]
