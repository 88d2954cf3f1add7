-- ===== src/Net/Thread/Handshake.antt =====
-- `startLoop` never returns a null pointer, and never sleeps beside a loop that runs.
use cluster_chat_server.Prelude.{
  ℕ, suc, ◌≡◌, ◌≢◌, refl, Option, none, some, arith, sym, ◌∙◌, ap, subst,
}
use cluster_chat_server.Net.Thread.{
  Caller, before_start, in_sem_wait, tests_loop, asleep, returned, Worker, absent, before_post,
  before_store, looping, ended, Start, init, after_test, woken, spawn, take_post, test_loop, post,
  store, leave, Step, Move, steps, spawns, takes_post, tests, wakes_up, posts_once, stores, leaves,
  Reachable, start, next, Runs, done, then_,
}

-- The loop is stored while the thread is in `loop()`, and only then.
abbrev pub loop_of : ℕ → Worker → Option ℕ
loop_of object absent = none
loop_of object before_post = none
loop_of object before_store = none
loop_of object looping = some object
loop_of object ended = none

-- Where the two threads can be together, and the posts.
abbrev pub Fits : ℕ → Caller → Worker → ℕ → Type 0
Fits object before_start absent n = n ≡ 0
Fits object in_sem_wait before_post n = n ≡ 0
Fits object in_sem_wait before_store n = n ≡ 1
Fits object in_sem_wait looping n = n ≡ 1
Fits object in_sem_wait ended n = n ≡ 1
Fits object tests_loop before_store n = n ≡ 0
Fits object tests_loop looping n = n ≡ 0
Fits object tests_loop ended n = n ≡ 0
Fits object asleep before_store n = n ≡ 0
Fits object asleep ended n = n ≡ 0
Fits object (returned r) looping n = r ≡ some object
Fits object (returned r) ended n = r ≡ some object
Fits object c w n = ⊥

pub record Inv (object : ℕ) (s : Start) : Type 0 where
  pub fits : Fits object s.caller s.worker s.posts
  pub stored : s.loop ≡ loop_of object s.worker

module _ (object : ℕ) where
  spawn-Fits : (w : Worker) (n : ℕ) → Fits object before_start w n → (w ≡ absent) × (n ≡ 0)
  spawn-Fits absent n f = (refl, f)
  spawn-Fits before_post n f = elim f [ ]
  spawn-Fits before_store n f = elim f [ ]
  spawn-Fits looping n f = elim f [ ]
  spawn-Fits ended n f = elim f [ ]

  take_post-Fits :
      (w : Worker) (n k : ℕ) → Fits object in_sem_wait w n → n ≡ suc k → Fits object tests_loop w k
  take_post-Fits absent n k f e = elim f [ ]
  take_post-Fits before_post n k f e = absurd (omega (arith, f, e))
  take_post-Fits before_store n k f e = omega (arith, f, e)
  take_post-Fits looping n k f e = omega (arith, f, e)
  take_post-Fits ended n k f e = omega (arith, f, e)

  test-Fits :
      (w : Worker) (n : ℕ)
      → Fits object tests_loop w n
      → Fits object (after_test (loop_of object w)) w n
  unfolding after_test
  test-Fits absent n f = elim f [ ]
  test-Fits before_post n f = elim f [ ]
  test-Fits before_store n f = f
  test-Fits looping n f = refl
  test-Fits ended n f = f

  wake-Fits : (w : Worker) (n : ℕ) → Fits object asleep w n → Fits object tests_loop w n
  wake-Fits absent n f = elim f [ ]
  wake-Fits before_post n f = elim f [ ]
  wake-Fits before_store n f = f
  wake-Fits looping n f = elim f [ ]
  wake-Fits ended n f = f

  post-Fits :
      (c : Caller) (n : ℕ) → Fits object c before_post n → Fits object c before_store (suc n)
  post-Fits before_start n f = elim f [ ]
  post-Fits in_sem_wait n f = omega (arith, f)
  post-Fits tests_loop n f = elim f [ ]
  post-Fits asleep n f = elim f [ ]
  post-Fits (returned r) n f = elim f [ ]

  store-Fits : (c : Caller) (n : ℕ) → Fits object c before_store n → Fits object (woken c) looping n
  unfolding woken
  store-Fits before_start n f = elim f [ ]
  store-Fits in_sem_wait n f = f
  store-Fits tests_loop n f = f
  store-Fits asleep n f = f
  store-Fits (returned r) n f = elim f [ ]

  leave-Fits : (c : Caller) (n : ℕ) → Fits object c looping n → Fits object c ended n
  leave-Fits before_start n f = elim f [ ]
  leave-Fits in_sem_wait n f = f
  leave-Fits tests_loop n f = f
  leave-Fits asleep n f = elim f [ ]
  leave-Fits (returned r) n f = f

  step-Inv : {s t : Start} → Step object s t → Inv object s → Inv object t
  unfolding spawn take_post test_loop post store leave
  step-Inv (spawns s e) v =
      let (w, n) =
        spawn-Fits s.worker s.posts (subst (λ c. Fits object c s.worker s.posts) e v.fits) in
      record { fits = n; stored = v.stored ∙ ap (loop_of object) w }
  step-Inv (takes_post s n e p) v = record {
    fits =
        take_post-Fits s.worker s.posts n (subst (λ c. Fits object c s.worker s.posts) e v.fits) p;
    stored = v.stored;
  }
  step-Inv (tests s e) v = record {
    fits =
        subst (λ l. Fits object (after_test l) s.worker s.posts) (sym v.stored)
          (test-Fits s.worker s.posts (subst (λ c. Fits object c s.worker s.posts) e v.fits));
    stored = v.stored;
  }
  step-Inv (posts_once s e) v = record {
    fits = post-Fits s.caller s.posts (subst (λ w. Fits object s.caller w s.posts) e v.fits);
    stored = v.stored ∙ ap (loop_of object) e;
  }
  step-Inv (stores s e) v = record {
    fits = store-Fits s.caller s.posts (subst (λ w. Fits object s.caller w s.posts) e v.fits);
    stored = refl;
  }
  step-Inv (leaves s e) v = record {
    fits = leave-Fits s.caller s.posts (subst (λ w. Fits object s.caller w s.posts) e v.fits);
    stored = refl;
  }

  Move-Inv : {s t : Start} → Move object s t → Inv object s → Inv object t
  Move-Inv (steps step) v = step-Inv step v
  Move-Inv (wakes_up s e) v = record {
    fits = wake-Fits s.worker s.posts (subst (λ c. Fits object c s.worker s.posts) e v.fits);
    stored = v.stored;
  }

  reachable-Inv : {s : Start} → Reachable object s → Inv object s
  unfolding init
  reachable-Inv start = record { fits = refl; stored = refl }
  reachable-Inv (next r move) = Move-Inv move (reachable-Inv r)

  returned-Fits :
      (w : Worker) (n : ℕ) (r : Option ℕ) → Fits object (returned r) w n → r ≡ some object
  returned-Fits absent n r f = elim f [ ]
  returned-Fits before_post n r f = elim f [ ]
  returned-Fits before_store n r f = elim f [ ]
  returned-Fits looping n r f = f
  returned-Fits ended n r f = f

  -- From a running loop: the caller has its post, or tests, or has returned.
  caller_returns :
      (s : Start)
      → s.worker ≡ looping
      → Inv object s
      → (t : Start) × Runs object s t × (t.caller ≡ returned (some object))
  unfolding take_post test_loop after_test
  caller_returns s e v = go s.caller refl (subst (λ w. Fits object s.caller w s.posts) e v.fits)
    where
      held : s.loop ≡ some object
      held = v.stored ∙ ap (loop_of object) e

      go :
          (c : Caller)
          → s.caller ≡ c
          → Fits object c looping s.posts
          → (t : Start) × Runs object s t × (t.caller ≡ returned (some object))
      go before_start p f = elim f [ ]
      go in_sem_wait p f = (
        test_loop (take_post 0 s),
        then_ (takes_post s 0 p f) (then_ (tests (take_post 0 s) refl) done),
        ap after_test held,
      )
      go tests_loop p f = (test_loop s, then_ (tests s p) done, ap after_test held)
      go asleep p f = elim f [ ]
      go (returned r) p f = (s, done, p ∙ ap returned f)

  Runs-join : {s t u : Start} → Runs object s t → Runs object t u → Runs object s u
  Runs-join done r = r
  Runs-join (then_ step rest) r = then_ step (Runs-join rest r)

  absent-Fits : (c : Caller) (n : ℕ) → Fits object c absent n → c ≡ before_start
  absent-Fits before_start n f = refl
  absent-Fits in_sem_wait n f = elim f [ ]
  absent-Fits tests_loop n f = elim f [ ]
  absent-Fits asleep n f = elim f [ ]
  absent-Fits (returned r) n f = elim f [ ]

  -- The new thread comes to its loop.
  worker_loops :
      (s : Start)
      → s.worker ≢ ended
      → Inv object s
      → (t : Start) × Runs object s t × (t.worker ≡ looping)
  unfolding spawn post store
  worker_loops s alive v = go s.worker refl
    where
      go : (w : Worker) → s.worker ≡ w → (t : Start) × Runs object s t × (t.worker ≡ looping)
      go absent p =
          let first =
            absent-Fits s.caller s.posts (subst (λ w. Fits object s.caller w s.posts) p v.fits) in
          (
            store object (post (spawn s)),
            then_ (spawns s first)
                (then_ (posts_once (spawn s) refl) (then_ (stores (post (spawn s)) refl) done)),
            refl,
          )
      go before_post p =
          (store object (post s), then_ (posts_once s p) (then_ (stores (post s) refl) done), refl)
      go before_store p = (store object s, then_ (stores s p) done, refl)
      go looping p = (s, done, p)
      go ended p = absurd (alive p)

  Runs-Inv : {s t : Start} → Runs object s t → Inv object s → Inv object t
  Runs-Inv done v = v
  Runs-Inv (then_ step rest) v = Runs-Inv rest (step-Inv step v)

  -- If the caller has returned, it has returned the loop of the new thread and no null pointer.
  abbrev pub ReturnsLoop : Caller → Type 0
  ReturnsLoop before_start = Unit
  ReturnsLoop in_sem_wait = Unit
  ReturnsLoop tests_loop = Unit
  ReturnsLoop asleep = Unit
  ReturnsLoop (returned r) = r ≡ some object

  Fits-ReturnsLoop : (c : Caller) (w : Worker) (n : ℕ) → Fits object c w n → ReturnsLoop c
  Fits-ReturnsLoop before_start w n f = tt
  Fits-ReturnsLoop in_sem_wait w n f = tt
  Fits-ReturnsLoop tests_loop w n f = tt
  Fits-ReturnsLoop asleep w n f = tt
  Fits-ReturnsLoop (returned r) w n f = returned-Fits w n r f

  -- In every state of a start that can be reached, with or without sleepers that wake up by
  -- themselves, and in which the new loop has not ended, there are steps of the two threads, none of
  -- them such a wake-up, after which `startLoop` has returned this loop; and if it has returned
  -- already, then this loop and no null pointer.
  pub start_loop_lem :
      {s : Start}
      → Reachable object s
      → s.worker ≢ ended
      → ReturnsLoop s.caller × (t : Start) × Runs object s t × (t.caller ≡ returned (some object))
  start_loop_lem {s} reach alive =
      let v = reachable-Inv reach in
      let (t, to_loop, loops) = worker_loops s alive v in
      let (u, to_return, e) = caller_returns t loops (Runs-Inv to_loop v) in
      (Fits-ReturnsLoop s.caller s.worker s.posts v.fits, u, Runs-join to_loop to_return, e)
