-- ===== src/Redis/Relay.antt =====
-- A message from a user of one server to a user of another, through Redis.
use cluster_chat_server.Prelude.{
  ◌≡◌, refl, [], ◌∷◌, ◌++◌, true, none, some, ℤ, IsInt, arith, ap, ◌∙◌, inl,
}
use cluster_chat_server.Prelude.Text.{Bytes, codes, show, atoi-show, c_str, bytes_eq}
use cluster_chat_server.Prelude.Avoid.{Avoids, show-Avoids, c_str-Avoids}
use cluster_chat_server.Sql.{MySql}
use cluster_chat_server.Model.Types.{online}
use cluster_chat_server.Model.User
use cluster_chat_server.Service.State.{Service, Conn, publish, find, send, call_redis}
use cluster_chat_server.Service.Chat.{deliver, deliver_remote, handle_redis_subscribe_message}
use cluster_chat_server.Service.Subscriptions.{Inv, subscribed, is_some}
use cluster_chat_server.Redis.{
  Command, Reply, publish_command, subscribe_command, message_of, notify, observer_channel_message,
}

-- What is relied on of Redis: a subscriber of a channel gets for a published message an array of a
-- word, the channel and the message, and for its own subscription one with a number in the third
-- place, the `str` of which is null.
pub record Pushes (reply_to : Command → Reply) : Type 0 where
  pub for_publish :
      (channel message : Bytes)
      → reply_to (codes "PUBLISH" ∷ channel ∷ message ∷ [])
        ≡ some (some (codes "message")) ∷ some (some channel) ∷ some (some message) ∷ []
  pub for_subscribe :
      (channel : Bytes)
      → reply_to (codes "SUBSCRIBE" ∷ channel ∷ [])
        ≡ some (some (codes "subscribe")) ∷ some (some channel) ∷ some none ∷ []

module _ (reply_to : Command → Reply) (laws : Pushes reply_to) where
  -- What `publish` sends is what the observer of another server hands to its service.
  message_of-publish :
      (channel : ℤ) (message : Bytes)
      → IsInt channel
      → Avoids 0 message
      → message_of (some (reply_to (publish_command channel message)))
        ≡ some (some (channel, message))
  unfolding publish_command message_of
  message_of-publish channel message i plain =
      rw (laws.for_publish (show channel) (c_str message)) (
        rw
          (
            c_str-Avoids (show channel) (show-Avoids 0 channel (inl (omega arith))),
            atoi-show channel i,
            c_str-Avoids message plain,
            c_str-Avoids message plain,
          )
          refl)

  message_of-subscribe :
      (channel : ℤ) → message_of (some (reply_to (subscribe_command channel))) ≡ some none
  unfolding subscribe_command message_of
  message_of-subscribe channel = rw (laws.for_subscribe (show channel)) refl

  module _ ⦃S : MySql⦄ where
    published :
        (to : ℤ) (text : Bytes) (s : Service)
        → find to s.conn_map ≡ none
        → (User.query to s.db).0.state ≡ online
        → deliver to text s
          ≡ record s { db = (User.query to s.db).1; redis = s.redis ++ publish to text ∷ [] }
    unfolding deliver deliver_remote call_redis bytes_eq
    published to text s e on = rw (e, deliver) (rw on refl)

    handed :
        (to : ℤ) (text : Bytes) (s : Service) (conn : Conn)
        → find to s.conn_map ≡ some conn
        → handle_redis_subscribe_message to text s ≡ send conn text s
    unfolding handle_redis_subscribe_message
    handed to text s conn e = rw (e, handle_redis_subscribe_message) refl

    observed :
        (channel : ℤ) (message : Bytes) (s : Service)
        → IsInt channel
        → Avoids 0 message
        → observer_channel_message
            (some (reply_to (subscribe_command channel))
              ∷ some (reply_to (publish_command channel message))
              ∷ [])
            s
          ≡ some (handle_redis_subscribe_message channel message s)
    unfolding observer_channel_message notify
    observed channel message s i plain =
        simp (message_of-subscribe channel, message_of-publish channel message i plain)

    -- With a Redis server that passes on what is published: let a user with an `int` id be online
    -- and connected to a server that is in order, and not to the server that has a text without NUL
    -- for this user. The latter sends nothing itself and makes one call of Redis, which publishes
    -- the text; the former is subscribed to the user's channel, and when its observer gets the
    -- answer to this subscription and then what was published, it sends the text to the user's
    -- connection.
    pub relayed :
        (to : ℤ) (text : Bytes) (here there : Service) (conn : Conn)
        → IsInt to
        → Avoids 0 text
        → find to here.conn_map ≡ none
        → (User.query to here.db).0.state ≡ online
        → Inv there
        → find to there.conn_map ≡ some conn
        → let t = deliver to text here in
          (t.sent ≡ here.sent)
          × (t.redis ≡ here.redis ++ publish to text ∷ [])
          × (subscribed to there.redis ≡ true)
          × (observer_channel_message
                (some (reply_to (subscribe_command to))
                  ∷ some (reply_to (publish_command to text))
                  ∷ [])
                there
              ≡ some (send conn text there))
    relayed to text here there conn i plain away on v e = (
      ap (λ (s : Service). s.sent) (published to text here away on),
      ap (λ (s : Service). s.redis) (published to text here away on),
      v.mirrored to ∙ ap is_some e,
      observed to text there i plain ∙ ap some (handed to text there conn e),
    )
