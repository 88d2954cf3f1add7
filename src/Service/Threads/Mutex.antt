-- ===== src/Service/Threads/Mutex.antt =====
-- Every interleaving of the handlers: `_mutex` is held by one of them at most, the map stays a map.
use cluster_chat_server.Prelude.{
  ℕ, zero, suc, ◌+◌, ◌≤◌, ◌≡◌, refl, subst, sym, ap, ◌⊎◌, inl, inr, Bool, true, false, Bool-cases,
  Option-cases, if◌then◌else◌, ◌&&◌, List, [], ◌∷◌, none, some, get_elem?, arith,
}
use mathlib.Core.Bool.{true≢false}
use cluster_chat_server.Json.{JsonLib}
use cluster_chat_server.Sql.{MySql}
use cluster_chat_server.Service.State.{Service, send}
use cluster_chat_server.Service.Keys.{Distinct, insert-Distinct, erase-Distinct}
use cluster_chat_server.Service.Session.{refuse, erase_found}
use cluster_chat_server.Service.Frame.{handle_redis_subscribe_message-SameSessions}
use cluster_chat_server.Service.Subscriptions.{set_offline-same}
use cluster_chat_server.Service.Threads.{
  Job, logs_in, records, registers, subscribes, reads_offline, removes, answers, logs_out, closes,
  unsubscribes, sets_offline, asks_members, locks, delivers, forwards, relays, finished, advance,
  wants_lock, holds, relock, Threads, set_job, move, turn, turns,
}

abbrev pub one_if : Bool → ℕ
one_if b = if b then 1 else 0

-- How many jobs hold the mutex.
abbrev pub holders : List Job → ℕ
holders [] = 0
holders (job ∷ jobs) = one_if (holds job) + holders jobs

module _ ⦃S : MySql⦄ where
  pub record IsOrdered (t : Threads) : Type 0 where
    pub distinct : Distinct t.service.conn_map
    pub mutex : holders t.jobs ≡ one_if t.locked

holders-set_job :
    (i : ℕ) (job after : Job) (jobs : List Job)
    → get_elem? jobs i ≡ some job
    → holders (set_job i after jobs) + one_if (holds job) ≡ holders jobs + one_if (holds after)
unfolding set_job
holders-set_job i job after [] e = cc
holders-set_job zero job after (old ∷ jobs) e =
    let same : old ≡ job = cc in omega (arith, ap (λ j. one_if (holds j)) same)
holders-set_job (suc i) job after (old ∷ jobs) e = omega (arith, holders-set_job i job after jobs e)

pub holders-le :
    (i : ℕ) (job : Job) (jobs : List Job)
    → get_elem? jobs i ≡ some job
    → one_if (holds job) ≤ holders jobs
holders-le i job [] e = cc
holders-le zero job (old ∷ jobs) e =
    let same : old ≡ job = cc in omega (arith, ap (λ j. one_if (holds j)) same)
holders-le (suc i) job (old ∷ jobs) e = omega (arith, holders-le i job jobs e)

-- The count of holders and the mutex behind one access, for the job's bits before and behind it.
recount :
    (n m : ℕ) (after before wants locked : Bool)
    → m + one_if before ≡ n + one_if after
    → one_if before ≤ n
    → n ≡ one_if locked
    → (wants && locked) ≡ false
    → (after ≡ true → (before ≡ true) ⊎ (wants ≡ true))
    → m ≡ one_if (if after then true else if before then false else locked)
recount n m true true wants true e b c f g = omega (arith, e, c)
recount n m true true wants false e b c f g = absurd (omega (arith, b, c))
recount n m true false true true e b c f g = absurd (true≢false f)
recount n m true false false l e b c f g = elim (g refl) [
  | inl p ↦ absurd (true≢false (sym p))
  | inr p ↦ absurd (true≢false (sym p))
]
recount n m true false true false e b c f g = omega (arith, e, c)
recount n m false true wants true e b c f g = omega (arith, e, c)
recount n m false true wants false e b c f g = absurd (omega (arith, e, c))
recount n m false false wants l e b c f g = omega (arith, e, c)

module _ ⦃J : JsonLib⦄ ⦃S : MySql⦄ where
  -- A job that begins to hold the mutex has waited for it.
  advance-holds :
      (job : Job) (s : Service)
      → holds (advance job s).0 ≡ true
      → (holds job ≡ true) ⊎ (wants_lock job ≡ true)
  unfolding advance
  advance-holds (logs_in conn id password) s h = ground arith
  advance-holds (records conn id user) s h = ground arith
  advance-holds (registers conn id user) s h = inr refl
  advance-holds (subscribes conn id user) s h = ground arith
  advance-holds (reads_offline conn id user) s h = ground arith
  advance-holds (removes conn id user messages) s h = ground arith
  advance-holds (answers conn id user messages) s h = ground arith
  advance-holds (logs_out id) s h = inr refl
  advance-holds (closes conn) s h = inr refl
  advance-holds (unsubscribes id found) s h = ground arith
  advance-holds (sets_offline found) s h = ground arith
  advance-holds (asks_members userid groupid text) s h = ground arith
  advance-holds (locks ids text) s h = inr refl
  advance-holds (delivers ids text) s h = inl refl
  advance-holds (forwards id ids text is_online) s h = inl refl
  advance-holds (relays id text) s h = inr refl
  advance-holds finished s h = ground arith

  erase_found-Distinct :
      (found : _) (s : Service) → Distinct s.conn_map → Distinct (erase_found found s).conn_map
  unfolding erase_found
  erase_found-Distinct none s d = d
  erase_found-Distinct (some id) s d = erase-Distinct id s.conn_map d

  advance-Distinct :
      (job : Job) (s : Service) → Distinct s.conn_map → Distinct (advance job s).1.conn_map
  unfolding advance refuse send
  advance-Distinct (logs_in conn id password) s d = ground (arith, d)
  advance-Distinct (records conn id user) s d = ground (arith, d)
  advance-Distinct (registers conn id user) s d = insert-Distinct id conn s.conn_map d
  advance-Distinct (subscribes conn id user) s d = d
  advance-Distinct (reads_offline conn id user) s d = d
  advance-Distinct (removes conn id user messages) s d = d
  advance-Distinct (answers conn id user messages) s d = d
  advance-Distinct (logs_out id) s d = erase_found-Distinct _ s d
  advance-Distinct (closes conn) s d = erase_found-Distinct _ s d
  advance-Distinct (unsubscribes id found) s d = d
  advance-Distinct (sets_offline found) s d = subst Distinct (sym (set_offline-same found s).0) d
  advance-Distinct (asks_members userid groupid text) s d = d
  advance-Distinct (locks ids text) s d = d
  advance-Distinct (delivers [] text) s d = d
  advance-Distinct (delivers (id ∷ ids) text) s d = ground (arith, d)
  advance-Distinct (forwards id ids text true) s d = d
  advance-Distinct (forwards id ids text false) s d = d
  advance-Distinct (relays id text) s d =
      subst Distinct (sym (handle_redis_subscribe_message-SameSessions id text s).same_map) d
  advance-Distinct finished s d = d

  move-IsOrdered :
      (i : ℕ) (job : Job) (t : Threads)
      → get_elem? t.jobs i ≡ some job
      → (wants_lock job && t.locked) ≡ false
      → IsOrdered t
      → IsOrdered (move i job t)
  unfolding move relock
  move-IsOrdered i job t e free h =
      let (after, s) = advance job t.service in
      record {
        distinct = advance-Distinct job t.service h.distinct;
        mutex =
            recount (holders t.jobs) (holders (set_job i after t.jobs)) (holds after) (holds job)
              (wants_lock job) t.locked (holders-set_job i job after t.jobs e)
              (holders-le i job t.jobs e) h.mutex free (advance-holds job t.service);
      }

  turn-IsOrdered : (i : ℕ) (t : Threads) → IsOrdered t → IsOrdered (turn i t)
  unfolding turn
  turn-IsOrdered i t h = elim (Option-cases (get_elem? t.jobs i)) [
    | inl e ↦ rw (e, turn) h
    | inr (job, e) ↦ elim (Bool-cases (wants_lock job && t.locked)) [
      | inl w ↦ rw (e, turn, w) h
      | inr w ↦ rw (e, turn, w) (move-IsOrdered i job t e w h)
    ]
  ]

  -- Whatever the scheduler does with handlers of which one at most holds the mutex: no key of the map
  -- occurs twice, and the mutex is locked exactly when one handler holds it, and never two hold it.
  pub turns-IsOrdered : (is : List ℕ) (t : Threads) → IsOrdered t → IsOrdered (turns is t)
  unfolding turns
  turns-IsOrdered [] t h = h
  turns-IsOrdered (i ∷ is) t h = turns-IsOrdered is (turn i t) (turn-IsOrdered i t h)

  advance-map :
      (job : Job) (s : Service) → wants_lock job ≡ false → (advance job s).1.conn_map ≡ s.conn_map
  unfolding advance refuse send
  advance-map (logs_in conn id password) s w = ground arith
  advance-map (records conn id user) s w = ground arith
  advance-map (registers conn id user) s w = absurd (true≢false w)
  advance-map (subscribes conn id user) s w = refl
  advance-map (reads_offline conn id user) s w = refl
  advance-map (removes conn id user messages) s w = refl
  advance-map (answers conn id user messages) s w = refl
  advance-map (logs_out id) s w = absurd (true≢false w)
  advance-map (closes conn) s w = absurd (true≢false w)
  advance-map (unsubscribes id found) s w = refl
  advance-map (sets_offline found) s w = (set_offline-same found s).0
  advance-map (asks_members userid groupid text) s w = refl
  advance-map (locks ids text) s w = refl
  advance-map (delivers [] text) s w = refl
  advance-map (delivers (id ∷ ids) text) s w = ground arith
  advance-map (forwards id ids text true) s w = refl
  advance-map (forwards id ids text false) s w = refl
  advance-map (relays id text) s w = absurd (true≢false w)
  advance-map finished s w = refl

  -- While one handler holds the mutex, no access of any handler changes the connection map: what the
  -- holder has found there stays true until it lets go.
  pub map_held :
      (i : ℕ) (t : Threads) → t.locked ≡ true → (turn i t).service.conn_map ≡ t.service.conn_map
  unfolding turn move
  map_held i t l = elim (Option-cases (get_elem? t.jobs i)) [
    | inl e ↦ rw (e, turn) refl
    | inr (job, e) ↦ elim (Bool-cases (wants_lock job)) [
      | inl w ↦ rw (e, turn, w, l) refl
      | inr w ↦ rw (e, turn, w) (advance-map job t.service w)
    ]
  ]
