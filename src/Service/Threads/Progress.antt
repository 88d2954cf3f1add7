-- ===== src/Service/Threads/Progress.antt =====
-- The handlers never block each other for good.
use cluster_chat_server.Prelude.{
  ℕ, zero, suc, ◌<◌, ◌≤◌, ◌≡◌, ◌≢◌, refl, subst, sym, ap, ◌∙◌, ◌⊎◌, inl, inr, Bool, true, false,
  Bool-cases, Option-cases, ◌&&◌, List, [], ◌∷◌, ◌++◌, none, some, ◌==◌, get_elem?, arith, length,
  replicate, ltb,
}
use cluster_chat_server.Json.{JsonLib}
use cluster_chat_server.Sql.{MySql}
use cluster_chat_server.Service.Threads.{
  Job, finished, advance, wants_lock, holds, relock, Threads, set_job, move, turn, turns,
}
use cluster_chat_server.Service.Threads.Alone.{alone, job-Ends}
use cluster_chat_server.Service.Threads.Mutex.{
  IsOrdered, holders, holders-le, one_if, turns-IsOrdered,
}

get-set :
    (i : ℕ) (job old : Job) (jobs : List Job)
    → get_elem? jobs i ≡ some old
    → get_elem? (set_job i job jobs) i ≡ some job
unfolding set_job
get-set i job old [] e = cc
get-set zero job old (j ∷ jobs) e = refl
get-set (suc i) job old (j ∷ jobs) e = get-set i job old jobs e

get-set_other :
    (i k : ℕ) (job : Job) (jobs : List Job)
    → k ≢ i
    → get_elem? (set_job i job jobs) k ≡ get_elem? jobs k
unfolding set_job
get-set_other i k job [] ne = refl
get-set_other zero zero job (j ∷ jobs) ne = absurd (ne refl)
get-set_other zero (suc k) job (j ∷ jobs) ne = refl
get-set_other (suc i) zero job (j ∷ jobs) ne = refl
get-set_other (suc i) (suc k) job (j ∷ jobs) ne = get-set_other i k job jobs λ e. ne (ap suc e)

set-set :
    (i : ℕ) (job old : Job) (jobs : List Job)
    → set_job i job (set_job i old jobs) ≡ set_job i job jobs
unfolding set_job
set-set i job old [] = refl
set-set zero job old (j ∷ jobs) = refl
set-set (suc i) job old (j ∷ jobs) = ap (◌∷◌ j) (set-set i job old jobs)

set-same :
    (i : ℕ) (job : Job) (jobs : List Job) → get_elem? jobs i ≡ some job → set_job i job jobs ≡ jobs
unfolding set_job
set-same i job [] e = refl
set-same zero job (j ∷ jobs) e = cc
set-same (suc i) job (j ∷ jobs) e = ap (◌∷◌ j) (set-same i job jobs e)

length-set_job : (i : ℕ) (job : Job) (jobs : List Job) → length (set_job i job jobs) ≡ length jobs
unfolding set_job
length-set_job i job [] = refl
length-set_job zero job (j ∷ jobs) = refl
length-set_job (suc i) job (j ∷ jobs) = ap suc (length-set_job i job jobs)

beyond : (k : ℕ) (jobs : List Job) → length jobs ≤ k → get_elem? jobs k ≡ none
beyond k [] h = refl
beyond zero (j ∷ jobs) h = absurd (omega (arith, h))
beyond (suc k) (j ∷ jobs) h = beyond k jobs (omega (arith, h))

holder :
    (jobs : List Job)
    → holders jobs ≡ 1
    → (i : ℕ) × ((job : Job) × ((get_elem? jobs i ≡ some job) × (holds job ≡ true)))
holder [] h = absurd (omega (arith, h))
holder (job ∷ jobs) h = elim (Bool-cases (holds job)) [
  | inl e ↦ (zero, (job, (refl, e)))
  | inr e ↦ let (i, found) = holder jobs (omega (arith, h, ap one_if e)) in (suc i, found)
]

only_waits : (job : Job) → (wants_lock job && holds job) ≡ false
only_waits job = ground arith

module _ ⦃J : JsonLib⦄ ⦃S : MySql⦄ where
  -- Job `i` moves when nobody else holds the mutex.
  turn-alone :
      (i : ℕ) (job : Job) (t : Threads)
      → get_elem? t.jobs i ≡ some job
      → t.locked ≡ holds job
      → turn i t ≡ move i job t
  unfolding turn
  turn-alone i job t e l =
      let free : (wants_lock job && t.locked) ≡ false = rw l (only_waits job) in
      rw (e, turn, free) refl

  relock-holds :
      (job after : Job) (locked : Bool) → locked ≡ holds job → relock job after locked ≡ holds after
  unfolding relock
  relock-holds job after locked e = ground arith

  -- A job that is let go on `n` times is where `alone` says.
  pub solo :
      (n i : ℕ) (job : Job) (t : Threads)
      → get_elem? t.jobs i ≡ some job
      → t.locked ≡ holds job
      → let r = alone n job t.service in
        turns (replicate n i) t
        ≡ record { jobs = set_job i r.0 t.jobs; locked = holds r.0; service = r.1 }
  unfolding turns alone move
  solo zero i job t e l = rw (sym l, set-same i job t.jobs e) refl
  solo (suc n) i job t e l =
      let (after, s) = advance job t.service in
      let u = move i job t in
      rw (turns, turn-alone i job t e l)
        (solo n i after u (get-set i after job t.jobs e) (relock-holds job after t.locked l)
          ∙ rw (set-set i (alone n after s).0 after t.jobs) refl)

  turns-append : (is js : List ℕ) (t : Threads) → turns (is ++ js) t ≡ turns js (turns is t)
  unfolding turns
  turns-append [] js t = refl
  turns-append (i ∷ is) js t = turns-append is js (turn i t)

  -- Job `i` is at its end, or there is none.
  abbrev pub IsDone : Threads → ℕ → Type 0
  IsDone t i = (get_elem? t.jobs i ≡ none) ⊎ (get_elem? t.jobs i ≡ some finished)

  -- One job that can move is brought to its end; the others that are at theirs stay there.
  record Brought (i : ℕ) (t u : Threads) : Type 0 where
    unlocked : u.locked ≡ false
    done : IsDone u i
    others : (k : ℕ) → IsDone t k → IsDone u k

  finish_one :
      (i : ℕ) (job : Job) (t : Threads)
      → get_elem? t.jobs i ≡ some job
      → t.locked ≡ holds job
      → (is : List ℕ) × Brought i t (turns is t)
  finish_one i job t e l =
      let (s, (n, ends)) = job-Ends job t.service in
      let ran = solo n i job t e l in
      let here : turns (replicate n i) t
          ≡ record { jobs = set_job i finished t.jobs; locked = false; service = s } =
        ran ∙ rw ends refl in
      (
        replicate n i,
        rw here (record {
          unlocked = refl;
          done = inr (get-set i finished job t.jobs e);
          others = kept;
        }),
      )
    where
      kept :
          (k : ℕ)
          → IsDone t k
          → (get_elem? (set_job i finished t.jobs) k ≡ none)
            ⊎ (get_elem? (set_job i finished t.jobs) k ≡ some finished)
      kept k d = elim (Bool-cases (k == i)) [
        | inl same ↦
            let p : k ≡ i = ground arith in
            inr (
              subst (λ x. get_elem? (set_job i finished t.jobs) x ≡ some finished) (sym p)
                (get-set i finished job t.jobs e))
        | inr other ↦ let p : k ≢ i = ground arith in rw (get-set_other i k finished t.jobs p) d
      ]

  length-turn : (i : ℕ) (t : Threads) → length (turn i t).jobs ≡ length t.jobs
  unfolding turn move
  length-turn i t = elim (Option-cases (get_elem? t.jobs i)) [
    | inl e ↦ rw (e, turn) refl
    | inr (job, e) ↦ elim (Bool-cases (wants_lock job && t.locked)) [
      | inl w ↦ rw (e, turn, w) refl
      | inr w ↦ rw (e, turn, w) (length-set_job i _ t.jobs)
    ]
  ]

  length-turns : (is : List ℕ) (t : Threads) → length (turns is t).jobs ≡ length t.jobs
  unfolding turns
  length-turns [] t = refl
  length-turns (i ∷ is) t = length-turns is (turn i t) ∙ length-turn i t

  not_held :
      (i : ℕ) (job : Job) (t : Threads)
      → IsOrdered t
      → t.locked ≡ false
      → get_elem? t.jobs i ≡ some job
      → t.locked ≡ holds job
  not_held i job t h l e = elim (Bool-cases (holds job)) [
    | inr p ↦ l ∙ sym p
    | inl p ↦ absurd (omega (arith, holders-le i job t.jobs e, ap one_if p, h.mutex, ap one_if l))
  ]

  -- All jobs below `n` are brought to their ends, one after another.
  finish_below :
      (n : ℕ) (t : Threads)
      → IsOrdered t
      → t.locked ≡ false
      → (is : List ℕ) × ((turns is t).locked ≡ false) × ((k : ℕ) → k < n → IsDone (turns is t) k)
  unfolding turns
  finish_below zero t h l = ([], l, λ k p. absurd (omega (arith, p)))
  finish_below (suc n) t h l =
      let (is, unlocked, below) = finish_below n t h l in
      let u = turns is t in
      elim (Option-cases (get_elem? u.jobs n)) [
        | inl e ↦ (is, unlocked, up_to n u (inl e) below)
        | inr (job, e) ↦
            let (js, b) =
              finish_one n job u e (not_held n job u (turns-IsOrdered is t h) unlocked e) in
            (
              is ++ js,
              rw (turns-append is js t) b.unlocked,
              rw (turns-append is js t) (up_to n (turns js u) b.done λ k p. b.others k (below k p)),
            )
      ]
    where
      up_to :
          (n : ℕ) (u : Threads)
          → IsDone u n
          → ((k : ℕ) → k < n → IsDone u k)
          → (k : ℕ) → k < suc n
          → IsDone u k
      up_to n u d below k p = elim (Bool-cases (k == n)) [
        | inl same ↦ let q : k ≡ n = ground arith in subst (IsDone u) (sym q) d
        | inr other ↦ below k (ground arith)
      ]

  finish_free :
      (t : Threads)
      → IsOrdered t
      → t.locked ≡ false
      → (is : List ℕ) × ((turns is t).locked ≡ false) × ((k : ℕ) → IsDone (turns is t) k)
  finish_free t h l =
      let (is, unlocked, below) = finish_below (length t.jobs) t h l in
      (is, unlocked, λ k. all is below k)
    where
      all :
          (is : List ℕ)
          → ((k : ℕ) → k < length t.jobs → IsDone (turns is t) k)
          → (k : ℕ) → IsDone (turns is t) k
      all is below k = elim (Bool-cases (ltb k (length t.jobs))) [
        | inl p ↦ below k (ground arith)
        | inr p ↦ inl (beyond k (turns is t).jobs (ground (arith, length-turns is t)))
      ]

  -- From every state in which one handler at most holds the mutex, there is a schedule after which all
  -- handlers are at their ends and the mutex is free: no handler is left waiting for good.
  pub finishes :
      (t : Threads)
      → IsOrdered t
      → (is : List ℕ) × ((turns is t).locked ≡ false) × ((k : ℕ) → IsDone (turns is t) k)
  finishes t h = elim (Bool-cases t.locked) [
    | inr l ↦ finish_free t h l
    | inl l ↦
        let (i, (job, (e, held))) = holder t.jobs (h.mutex ∙ ap one_if l) in
        let (is, b) = finish_one i job t e (l ∙ sym held) in
        let (js, unlocked, all) = finish_free (turns is t) (turns-IsOrdered is t h) b.unlocked in
        (is ++ js, rw (turns-append is js t) unlocked, rw (turns-append is js t) all)
  ]
