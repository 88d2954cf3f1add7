-- ===== src/Redis.antt =====
-- The wrapper of hiredis, src/server/redis/redis.cc. The library is the parameter `Hiredis`: a context
-- is a connection to the Redis server with what waits in it to be sent.
pub mod Flush
pub mod Relay
mod Tests
use cluster_chat_server.Prelude.{
  ℕ, zero, suc, List, [], ◌∷◌, ◌++◌, Bool, true, false, Option, none, some, if◌then◌else◌, ℤ,
  get_elem?, ◌>>=◌,
}
use cluster_chat_server.Prelude.Text.{Bytes, codes, show, atoi, c_str}
use cluster_chat_server.Sql.{MySql}
use cluster_chat_server.Service.State.{Service, RedisCall, publish, subscribe, unsubscribe}
use cluster_chat_server.Service.Chat.{handle_redis_subscribe_message}

-- A command, as its words.
abbrev pub Command : Type 0
Command = List Bytes

-- A reply that is an array: each element is null, or its `str`, which can be null.
abbrev pub Reply : Type 0
Reply = List (Option (Option Bytes))

pub record Hiredis : Type 1 where
  pub Context : Type 0
  -- `redisCommand`: whether it returned a reply.
  pub redis_command : Command → Context → Bool × Context
  -- `redisAppendCommand`: whether it returned REDIS_OK.
  pub redis_append_command : Command → Context → Bool × Context
  -- `redisBufferWrite`: `done`, or `none` for REDIS_ERR.
  pub redis_buffer_write : Context → Option Bool × Context

unfoldable pub publish_command : ℤ → Bytes → Command
publish_command channel message = codes "PUBLISH" ∷ show channel ∷ c_str message ∷ []

unfoldable pub subscribe_command : ℤ → Command
subscribe_command channel = codes "SUBSCRIBE" ∷ show channel ∷ []

unfoldable pub unsubscribe_command : ℤ → Command
unsubscribe_command channel = codes "UNSUBSCRIBE" ∷ show channel ∷ []

module _ ⦃H : Hiredis⦄ where
  -- The two contexts; null until `connect` has set them.
  pub record Redis : Type 0 where
    pub publish_context : Option H.Context
    pub subscribe_context : Option H.Context
    pub observing : Bool

  unfoldable pub init : Redis
  init = record { publish_context = none; subscribe_context = none; observing = false }

  -- `Redis::connect`, given what its two calls of `redisConnect` return.
  unfoldable pub connect : Option H.Context → Option H.Context → Redis → Bool × Redis
  connect none second r = (false, record r { publish_context = none })
  connect (some c) none r = (false, record r { publish_context = some c; subscribe_context = none })
  connect (some c) (some d) r =
      (true, record { publish_context = some c; subscribe_context = some d; observing = true })

  -- `Redis::publish`.
  unfoldable pub publish_to : ℤ → Bytes → H.Context → Bool × H.Context
  unfolding publish_command
  publish_to channel message c = H.redis_command (publish_command channel message) c

  -- The loop that writes until `done`; `none` is a loop that has not ended within its fuel.
  unfoldable pub flush : ℕ → H.Context → Option (Bool × H.Context)
  flush zero c = none
  flush (suc fuel) c =
      let (written, c') = H.redis_buffer_write c in
      let rest = flush fuel c' in
      elim written [ none ↦ some (false, c') | some done ↦ if done then some (true, c') else rest ]

  -- What `subscribe` and `unsubscribe` have in common: append the command, and write all.
  unfoldable pub append_and_write : ℕ → Command → H.Context → Option (Bool × H.Context)
  unfolding flush
  append_and_write fuel command c =
      let (appended, c') = H.redis_append_command command c in
      if appended then flush fuel c' else some (false, c')

  unfoldable pub subscribe_to : ℕ → ℤ → H.Context → Option (Bool × H.Context)
  unfolding append_and_write subscribe_command
  subscribe_to fuel channel c = append_and_write fuel (subscribe_command channel) c

  unfoldable pub unsubscribe_from : ℕ → ℤ → H.Context → Option (Bool × H.Context)
  unfolding append_and_write unsubscribe_command
  unsubscribe_from fuel channel c = append_and_write fuel (unsubscribe_command channel) c

-- What `observer_channel_message` takes out of a reply: a channel and a message, or nothing. `none`
-- is an access that is undefined: an element out of range, or an `atoi` of a null pointer.
unfoldable pub message_of : Option Reply → Option (Option (ℤ × Bytes))
message_of none = some none
message_of (some reply) = elim (get_elem? reply 2) [
  | none ↦ none
  | some none ↦ some none
  | some (some none) ↦ some none
  | some (some (some message)) ↦ elim (get_elem? reply 1) [
    | none ↦ none
    | some none ↦ none
    | some (some none) ↦ none
    | some (some (some channel)) ↦ some (some (atoi (c_str channel), c_str message))
  ]
]

module _ ⦃S : MySql⦄ where
  -- The notification that the service has registered with `init_notify_handler`.
  unfoldable pub notify : Option (ℤ × Bytes) → Service → Service
  notify none s = s
  notify (some (channel, message)) s = handle_redis_subscribe_message channel message s

  -- `observer_channel_message`, for the replies that `redisGetReply` gives until it fails.
  unfoldable pub observer_channel_message : List (Option Reply) → Service → Option Service
  unfolding message_of notify
  observer_channel_message [] s = some s
  observer_channel_message (reply ∷ replies) s = do
    message ← message_of reply
    observer_channel_message replies (notify message s)
