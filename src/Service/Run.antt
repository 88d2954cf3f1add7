-- ===== src/Service/Run.antt =====
-- Histories: what reaches the service, one event after another. An event is one step: handlers
-- that interleave are in Service.Threads.
use cluster_chat_server.Prelude.{
  ◌≡◌, subst, List, [], ◌∷◌, Option, some, ℤ, ◌>>=◌, Always, Always-bind,
}
use cluster_chat_server.Prelude.Text.{Bytes}
use cluster_chat_server.Json.{JsonLib, Json}
use cluster_chat_server.Sql.{MySql}
use cluster_chat_server.Service.State.{Service, Conn}
use cluster_chat_server.Service.Session.{client_close_exception, reset}
use cluster_chat_server.Service.Chat.{handle_redis_subscribe_message}
use cluster_chat_server.Service.Dispatch.{get_handler}

module _ ⦃J : JsonLib⦄ where
  -- A message of a client with its number, a message from Redis, a lost connection, the reset on
  -- SIGINT.
  pub data Event : Type 0 where
    request : ℤ → Conn → Json → Event
    redis_message : ℤ → Bytes → Event
    closed : Conn → Event
    interrupted : Event

module _ ⦃J : JsonLib⦄ ⦃S : MySql⦄ where
  unfoldable pub step : Event → Service → Option Service
  step (request msgid conn js) s = get_handler msgid conn js s
  step (redis_message id text) s = some (handle_redis_subscribe_message id text s)
  step (closed conn) s = some (client_close_exception conn s)
  step interrupted s = some (reset s)

  -- `none`: a handler threw, which ends the process.
  unfoldable pub run : List Event → Service → Option Service
  run [] s = some s
  run (e ∷ es) s = step e s >>= run es

  -- What every step keeps holds after every history.
  pub run-Always :
      (P : Service → Type 0)
      → ((e : Event) (s : Service) → P s → Always P (step e s))
      → (es : List Event) (s : Service) → P s
      → Always P (run es s)
  unfolding run
  run-Always P keep [] s h = h
  run-Always P keep (e ∷ es) s h =
      Always-bind P (step e s) (run es) λ t q. run-Always P keep es t (held t q)
    where
      held : (t : Service) → step e s ≡ some t → P t
      held t q = let k : Always P (some t) = subst (Always P) q (keep e s h) in k
