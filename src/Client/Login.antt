-- ===== src/Client/Login.antt =====
-- The client learns from the answer to a login what the server put into it, and keeps the lists of an
-- earlier user where the answer has none.
use cluster_chat_server.Prelude.{
  ℕ, ◌≡◌, refl, ◌≢◌, true, false, some, ℤ, pos, IsInt, arith, ◌∙◌, List, ◌∷◌, ◌++◌, [], ◌>>=◌, ◌<◌,
  length,
}
use cluster_chat_server.Prelude.Text.{Bytes, bytes_eq}
use cluster_chat_server.Json.{JsonLib}
use cluster_chat_server.Json.Laws.{JsonLaws, same_key}
use cluster_chat_server.Model.Types.{User, Group}
use cluster_chat_server.Service.Session.{
  with_offline, with_friends, with_groups, greeting, refusal, remove_read, accept,
}
use cluster_chat_server.Service.State.{Service, Conn, send, call_redis}
use cluster_chat_server.Sql.{MySql}
use cluster_chat_server.Model.Friend
use cluster_chat_server.Model.Group
use cluster_chat_server.Model.Offline
use cluster_chat_server.Client.EndToEnd.{text_read}
use cluster_chat_server.Protocol.{login_msg_ack}
use cluster_chat_server.Client.{Client, display, post, login_refused}
use cluster_chat_server.Client.Answer.{
  take_offline, show_offline, enter, do_login_response, handle, read_task, buffer_size,
}
use cluster_chat_server.Client.Lists.{
  All, IntUser, IntGroup, bind_some, informed, not_zero, int_read, string_read, friends_taken,
  groups_taken,
}

module _ ⦃J : JsonLib⦄ (laws : JsonLaws J) where
  open laws use {
    int_same, int_int, int_string, int_strings, string_int, string_string, string_strings,
    strings_int, strings_string, strings_strings, contains_empty, contains_int, contains_string,
    contains_strings, parse_dump,
  }

  module _ (user : User) (i : IsInt user.id) where
    base_facts :
        (ms : List Bytes)
        → let base = with_offline ms (greeting user) in
          (J.get_int "msgid" base ≡ some login_msg_ack)
          × (J.get_int "errno" base ≡ some (pos 0))
          × (J.get_int "id" base ≡ some user.id)
          × (J.get_string "name" base ≡ some user.name)
          × (J.contains "friends" base ≡ false)
          × (J.contains "groups" base ≡ false)
    unfolding with_offline greeting same_key bytes_eq
    base_facts [] = (
      simp (int_same, int_int, int_string, two),
      simp (int_same, int_int, int_string, nil),
      simp (int_same, int_int, int_string, i),
      simp (string_string),
      simp (contains_string, contains_int, contains_empty),
      simp (contains_string, contains_int, contains_empty),
    )
      where
        two : IsInt login_msg_ack
        two = omega arith

        nil : IsInt (pos 0)
        nil = omega arith
    base_facts (m ∷ ms) = (
      simp (int_strings, int_same, int_int, int_string, two),
      simp (int_strings, int_same, int_int, int_string, nil),
      simp (int_strings, int_same, int_int, int_string, i),
      simp (string_strings, string_string),
      simp (contains_strings, contains_string, contains_int, contains_empty),
      simp (contains_strings, contains_string, contains_int, contains_empty),
    )
      where
        two : IsInt login_msg_ack
        two = omega arith

        nil : IsInt (pos 0)
        nil = omega arith

    -- The messages of an answer are shown one after the other.
    offline_taken :
        (ms : List Bytes) (friends : List User) (groups : List Group) (c : Client)
        → take_offline
            (with_groups groups (with_friends friends (with_offline ms (greeting user))))
            c
          ≡ show_offline ms c
    unfolding take_offline with_offline with_friends with_groups greeting same_key bytes_eq
        show_offline
    offline_taken [] [] [] c = simp (contains_string, contains_int, contains_empty)
    offline_taken [] [] (g ∷ gs) c =
        simp (contains_strings, contains_string, contains_int, contains_empty)
    offline_taken [] (u ∷ us) [] c =
        simp (contains_strings, contains_string, contains_int, contains_empty)
    offline_taken [] (u ∷ us) (g ∷ gs) c =
        simp (contains_strings, contains_string, contains_int, contains_empty)
    offline_taken (m ∷ ms) [] [] c = simp (contains_strings, strings_strings)
    offline_taken (m ∷ ms) [] (g ∷ gs) c = simp (contains_strings, strings_strings)
    offline_taken (m ∷ ms) (u ∷ us) [] c = simp (contains_strings, strings_strings)
    offline_taken (m ∷ ms) (u ∷ us) (g ∷ gs) c = simp (contains_strings, strings_strings)

    -- A client that waits for the answer of a login and gets one that accepts it.
    answer_taken :
        (ms : List Bytes) (friends : List User) (groups : List Group) (c : Client)
        → All IntUser friends
        → All IntGroup groups
        → handle (with_groups groups (with_friends friends (with_offline ms (greeting user)))) c ≡ (
            show_offline ms (informed user friends groups c) >>= λ (c' : Client).
            some (post (record c' { login_success = true })))
    unfolding handle do_login_response enter same_key bytes_eq
    answer_taken ms friends groups c all alls =
        let base = with_offline ms (greeting user) in
        let (msgid, errno, id, name, f, g) = base_facts ms in
        simp
          (
            int_read laws base,
            string_read laws base,
            msgid,
            errno,
            id,
            name,
            friends_taken laws base friends groups,
            groups_taken laws base friends groups,
            offline_taken ms friends groups,
            f,
            g,
            all,
            alls,
          )
          (bind_some (show_offline ms (informed user friends groups c)) _ _)

  -- With a JSON library that reads back what it wrote and a clock that gives any time: when the server
  -- refuses a login, in fewer bytes than the client's buffer has, the client that receives the answer
  -- notes that it failed, shows the reason, and
  -- wakes the thread that waits, its user and its lists being as before.
  pub login_refusal :
      (errno : ℕ) (reason : Bytes) (c : Client)
      → IsInt (pos errno)
      → errno ≢ 0
      → length (J.dump (refusal errno reason)) < buffer_size
      → let js = refusal errno reason in
        read_task (J.dump js) c
        ≡ some (
            post
              (record (display (login_refused (J.print "errmsg" js)) c) { login_success = false }))
  unfolding handle do_login_response refusal same_key bytes_eq
  login_refusal errno reason c i h short =
      text_read laws (refusal errno reason) c short
      ∙ simp (int_same, int_int, int_string, i, two, not_zero errno h)
    where
      two : IsInt login_msg_ack
      two = omega arith

  module _ ⦃S : MySql⦄ where
    -- With a JSON library that reads back what it wrote: let the database give messages, friends
    -- and groups with `int` ids to a login that it accepts, and let the answer have fewer bytes than
    -- the 1024 of the client's buffer. Then the server sends one text more, to the connection that
    -- logs in, and a client at which exactly this text waits has the id and the name of
    -- the user, for its friends and groups those of the answer, with their members, or, where the
    -- answer has none, the ones it had; then it shows the offline messages in order, notes that the
    -- login succeeded and wakes the thread that waits. Only if an offline message cannot be read,
    -- it ends.
    pub login_taken :
        (conn : Conn) (id : ℤ) (user : User) (s : Service) (c : Client) (ms : List Bytes)
        (friends : List User) (groups : List Group)
        → IsInt user.id
        → let db2 = remove_read id ms (Offline.query id s.db).1 in
          (Offline.query id s.db).0 ≡ ms
          → (Friend.query id db2).0 ≡ friends
          → (Group.query_groups id (Friend.query id db2).1).0 ≡ groups
          → All IntUser friends
          → All IntGroup groups
          → length
              (J.dump (with_groups groups (with_friends friends (with_offline ms (greeting user)))))
            < buffer_size
          → (text : Bytes) × ((accept conn id user s).sent ≡ s.sent ++ (conn, text) ∷ [])
            × (read_task text c ≡ (
                show_offline ms (informed user friends groups c) >>= λ (c' : Client).
                some (post (record c' { login_success = true }))))
    unfolding accept send call_redis
    login_taken conn id user s c ms friends groups i m f g all alls short =
        let js = with_groups groups (with_friends friends (with_offline ms (greeting user))) in
        (
          J.dump js,
          rw (m, f, g) refl,
          text_read laws js c short ∙ answer_taken user i ms friends groups c all alls,
        )
