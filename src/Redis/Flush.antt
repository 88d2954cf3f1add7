-- ===== src/Redis/Flush.antt =====
-- The loop that writes the commands of `subscribe` and `unsubscribe` ends.
use cluster_chat_server.Prelude.{
  ℕ, zero, suc, ◌≤◌, ◌<◌, ◌+◌, ◌≡◌, refl, Bool, true, false, Option, none, some, ℤ, arith, sym, ◌⊎◌,
  inl, inr, subst, ◌≢◌,
}
use cluster_chat_server.Redis.{
  Hiredis, Command, flush, append_and_write, subscribe_command, unsubscribe_command, subscribe_to,
  unsubscribe_from,
}

-- What is relied on of hiredis: the bytes that wait in a context can be counted; a write that neither
-- fails nor ends sends one at least; a write that ends leaves none; a command adds its own bytes.
pub record WritesOut (H : Hiredis) : Type 0 where
  pub waiting : H.Context → ℕ
  pub bytes_of : Command → ℕ
  pub goes_on :
      (c : H.Context)
      → (H.redis_buffer_write c).0 ≡ some false
      → waiting (H.redis_buffer_write c).1 < waiting c
  pub ends :
      (c : H.Context)
      → (H.redis_buffer_write c).0 ≡ some true
      → waiting (H.redis_buffer_write c).1 ≡ 0
  pub adds :
      (command : Command) (c : H.Context)
      → waiting (H.redis_append_command command c).1 ≤ waiting c + bytes_of command

module _ ⦃H : Hiredis⦄ (laws : WritesOut H) where
  open laws use {waiting, bytes_of, goes_on, ends, adds}

  -- The loop has ended: with a failure, or with nothing left to send.
  abbrev pub Ended : Option (Bool × H.Context) → Type 0
  Ended result =
      (c' : H.Context) × ((result ≡ some (false, c'))
        ⊎ ((result ≡ some (true, c')) × (waiting c' ≡ 0)))

  flush_more :
      (fuel : ℕ) (c : H.Context)
      → (H.redis_buffer_write c).0 ≡ some false
      → flush (suc fuel) c ≡ flush fuel (H.redis_buffer_write c).1
  unfolding flush
  flush_more fuel c e = rw (e, flush) refl

  flush_last :
      (fuel : ℕ) (c : H.Context) (done : Option Bool)
      → done ≢ some false
      → (H.redis_buffer_write c).0 ≡ done
      → Ended (flush (suc fuel) c)
  unfolding flush
  flush_last fuel c none h e = ((H.redis_buffer_write c).1, inl (rw (e, flush) refl))
  flush_last fuel c (some true) h e =
      ((H.redis_buffer_write c).1, inr (rw (e, flush) refl, ends c e))
  flush_last fuel c (some false) h e = absurd (h refl)

  flush-Ended : (fuel : ℕ) (c : H.Context) → waiting c < fuel → Ended (flush fuel c)
  flush-Ended zero c h = absurd (omega (arith, h))
  flush-Ended (suc fuel) c h =
      go (H.redis_buffer_write c).0 refl
        (λ less. flush-Ended fuel (H.redis_buffer_write c).1 (omega (arith, h, less)))
    where
      next : H.Context
      next = (H.redis_buffer_write c).1

      go :
          (written : Option Bool)
          → (H.redis_buffer_write c).0 ≡ written
          → (waiting (H.redis_buffer_write c).1 < waiting c
              → Ended (flush fuel (H.redis_buffer_write c).1))
          → Ended (flush (suc fuel) c)
      go none e rest = flush_last fuel c none (λ p. cc) e
      go (some true) e rest = flush_last fuel c (some true) (λ p. ground arith) e
      go (some false) e rest = subst Ended (sym (flush_more fuel c e)) (rest (goes_on c e))

  append_and_write-Ended :
      (fuel : ℕ) (command : Command) (c : H.Context)
      → waiting c + bytes_of command < fuel
      → Ended (append_and_write fuel command c)
  unfolding append_and_write
  append_and_write-Ended fuel command c h = go (H.redis_append_command command c).0 refl
    where
      next : H.Context
      next = (H.redis_append_command command c).1

      go :
          (appended : Bool)
          → (H.redis_append_command command c).0 ≡ appended
          → Ended (append_and_write fuel command c)
      go true e =
          rw (e, append_and_write) (flush-Ended fuel next (omega (arith, h, adds command c)))
      go false e = ((H.redis_append_command command c).1, inl (rw (e, append_and_write) refl))

  -- With a library of which every write that does not end the loop sends a byte: on more fuel than
  -- bytes wait and the command has, `subscribe` and `unsubscribe` return, either with a failure or
  -- with nothing left to send.
  pub subscribe_ends :
      (fuel : ℕ) (channel : ℤ) (c : H.Context)
      → waiting c + bytes_of (subscribe_command channel) < fuel
      → waiting c + bytes_of (unsubscribe_command channel) < fuel
      → Ended (subscribe_to fuel channel c) × Ended (unsubscribe_from fuel channel c)
  unfolding subscribe_to unsubscribe_from
  subscribe_ends fuel channel c h k = (
    append_and_write-Ended fuel (subscribe_command channel) c h,
    append_and_write-Ended fuel (unsubscribe_command channel) c k,
  )
