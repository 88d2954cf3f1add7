-- ===== src/Net/Loop/Wakeup.antt =====
-- No functor is lost or reordered, and no wake-up is lost: the loop does not sleep while a functor
-- waits or a quit is due.
use cluster_chat_server.Prelude.{
  ℕ, ◌+◌, ◌<◌, ◌≡◌, refl, ◌≢◌, ◌⊎◌, inl, inr, List, [], ◌∷◌, ◌++◌, Bool, true, false, arith, ◌∙◌,
  ap, sym, Bool-cases,
}
use mathlib.Core.List.{append-nil, append_assoc}
use cluster_chat_server.Net.Loop.{
  EventLoop, Phase, testing, polling, handling, calling, finished, init, push, wakeup, handle_read,
  queue_in_loop, quit_in_loop, queue_from_other, quit_from_other, swap_pending, run_first,
  end_pending, test_quit, Step, tests, poll_returns, reads_wakeup, event_queues, event_quits, swaps,
  runs, functor_queues, functor_quits, ends, other_queues, other_quits, other_wakes, Reachable,
  start, next, Runs, stays, goes,
}

abbrev is_calling : Phase → Bool
is_calling testing = false
is_calling polling = false
is_calling handling = false
is_calling calling = true
is_calling finished = false

pub record Inv (s : EventLoop) : Type 0 where
  pub kept_order : s.queued ≡ s.ran ++ (s.current ++ s.pending)
  pub flag : s.calling_pending ≡ is_calling s.phase
  pub between : is_calling s.phase ≡ false → s.current ≡ []
  pub awake : (s.phase ≡ handling) ⊎ (s.pending ≡ []) ⊎ (0 < s.counter + s.waking)
  pub quitting : s.phase ≡ polling → s.quit ≡ true → 0 < s.counter + s.waking

init-Inv : Inv init
unfolding init
init-Inv = record {
  kept_order = refl;
  flag = refl;
  between = λ e. refl;
  awake = inr (inl refl);
  quitting = λ e. cc;
}

push_back : (f : ℕ) (q r c p : List ℕ) → q ≡ r ++ (c ++ p) → q ++ f ∷ [] ≡ r ++ (c ++ (p ++ f ∷ []))
push_back f q r c p e =
    ap (λ t. t ++ f ∷ []) e
    ∙ append_assoc r (c ++ p) (f ∷ [])
    ∙ ap (◌++◌ r) (append_assoc c p (f ∷ []))

queue-Inv :
    (f : ℕ) (s : EventLoop)
    → (s.phase ≡ handling) ⊎ (s.phase ≡ calling)
    → Inv s
    → Inv (queue_in_loop f s)
unfolding queue_in_loop push wakeup
queue-Inv f s (inl e) v =
    let off : s.calling_pending ≡ false = v.flag ∙ ap is_calling e in
    rw off (record {
      kept_order = push_back f s.queued s.ran s.current s.pending v.kept_order;
      flag = sym off ∙ v.flag;
      between = v.between;
      awake = inl e;
      quitting = v.quitting;
    })
queue-Inv f s (inr e) v =
    let on : s.calling_pending ≡ true = v.flag ∙ ap is_calling e in
    rw on (record {
      kept_order = push_back f s.queued s.ran s.current s.pending v.kept_order;
      flag = sym on ∙ v.flag;
      between = v.between;
      awake = inr (inr (omega arith));
      quitting = λ p q. omega arith;
    })

quit-Inv : (s : EventLoop) → (s.phase ≢ polling) → Inv s → Inv (quit_in_loop s)
unfolding quit_in_loop
quit-Inv s h v = record {
  kept_order = v.kept_order;
  flag = v.flag;
  between = v.between;
  awake = v.awake;
  quitting = λ p q. absurd (h p);
}

-- Leaving the events and the functors, the loop is awake for what waits.
still_awake : {A B : Type 0} {p : Phase} → p ≢ handling → (p ≡ handling) ⊎ A ⊎ B → A ⊎ B
still_awake h (inl e) = absurd (h e)
still_awake h (inr x) = x

tests-Inv : (s : EventLoop) → s.phase ≡ testing → Inv s → Inv (test_quit s)
unfolding test_quit
tests-Inv s e v =
    let awake = still_awake (λ p. cc e) v.awake in
    let current = v.between (ap is_calling e) in
    let off : s.calling_pending ≡ false = v.flag ∙ ap is_calling e in
    elim (Bool-cases s.quit) [
      | inl q ↦ rw q (record {
        kept_order = v.kept_order;
        flag = off;
        between = λ p. current;
        awake = inr awake;
        quitting = λ p. cc;
      })
      | inr q ↦ rw q (record {
        kept_order = v.kept_order;
        flag = off;
        between = λ p. current;
        awake = inr awake;
        quitting = λ p r. cc;
      })
    ]

Step-Inv : (s t : EventLoop) → Step s t → Inv s → Inv t
unfolding handle_read swap_pending run_first end_pending queue_from_other quit_from_other push
    wakeup
Step-Inv s t (tests e) v = tests-Inv s e v
Step-Inv s t (poll_returns e) v = record {
  kept_order = v.kept_order;
  flag = v.flag ∙ ap is_calling e;
  between = λ p. v.between (ap is_calling e);
  awake = inl refl;
  quitting = λ p. cc;
}
Step-Inv s t (reads_wakeup e) v = record {
  kept_order = v.kept_order;
  flag = v.flag;
  between = v.between;
  awake = inl e;
  quitting = λ p. cc;
}
Step-Inv s t (event_queues f e) v = queue-Inv f s (inl e) v
Step-Inv s t (event_quits e) v = quit-Inv s (λ p. cc) v
Step-Inv s t (swaps e) v = record {
  kept_order =
      v.kept_order
      ∙ ap (λ c. s.ran ++ (c ++ s.pending)) (v.between (ap is_calling e))
      ∙ ap (◌++◌ s.ran) (sym (append-nil s.pending));
  flag = refl;
  between = λ p. cc;
  awake = inr (inl refl);
  quitting = λ p. cc;
}
Step-Inv s t (runs f fs e c) v = record {
  kept_order =
      v.kept_order
      ∙ ap (λ c. s.ran ++ (c ++ s.pending)) c
      ∙ sym (append_assoc s.ran (f ∷ []) (fs ++ s.pending));
  flag = v.flag;
  between = λ p. cc (ap is_calling e);
  awake = v.awake;
  quitting = v.quitting;
}
Step-Inv s t (functor_queues f e) v = queue-Inv f s (inr e) v
Step-Inv s t (functor_quits e) v = quit-Inv s (λ p. cc) v
Step-Inv s t (ends e c) v = record {
  kept_order = v.kept_order;
  flag = refl;
  between = λ p. c;
  awake = inr (still_awake (λ p. cc e) v.awake);
  quitting = λ p. cc;
}
Step-Inv s t (other_queues f) v = record {
  kept_order = push_back f s.queued s.ran s.current s.pending v.kept_order;
  flag = v.flag;
  between = v.between;
  awake = inr (inr (omega arith));
  quitting = λ p q. omega arith;
}
Step-Inv s t other_quits v = record {
  kept_order = v.kept_order;
  flag = v.flag;
  between = v.between;
  awake = inr (inr (omega arith));
  quitting = λ p q. omega arith;
}
Step-Inv s t (other_wakes n e) v = record {
  kept_order = v.kept_order;
  flag = v.flag;
  between = v.between;
  awake = inr (inr (omega arith));
  quitting = λ p q. omega arith;
}

Reachable-Inv : (s : EventLoop) → Reachable s → Inv s
Reachable-Inv _ start = init-Inv
Reachable-Inv _ (next s t r h) = Step-Inv s t h (Reachable-Inv s r)

-- In every reachable state of a loop with other threads: the functors that ran, those that
-- `doPendingFunctors` has still to run and those that wait are together all that were queued, in the
-- order in which they were queued.
pub queued_order : (s : EventLoop) → Reachable s → s.queued ≡ s.ran ++ (s.current ++ s.pending)
queued_order s r = (Reachable-Inv s r).kept_order

-- If the loop is in `poll` while a functor waits or a quit is due, and no other thread is about to
-- write to the eventfd, the eventfd is readable, so `poll` returns.
pub no_lost_wakeup :
    (s : EventLoop)
    → Reachable s
    → s.phase ≡ polling
    → s.waking ≡ 0
    → (s.pending ≢ []) ⊎ (s.quit ≡ true)
    → 0 < s.counter
no_lost_wakeup s r p w (inr q) = let h = (Reachable-Inv s r).quitting p q in omega (arith, h, w)
no_lost_wakeup s r p w (inl some_left) = elim (still_awake (λ h. cc p) (Reachable-Inv s r).awake) [
  | inl e ↦ absurd (some_left e)
  | inr h ↦ omega (arith, h, w)
]

-- What a call of `doPendingFunctors` leads to, from the swap on.
finish :
    (s : EventLoop) (cs : List ℕ) (t : EventLoop)
    → Runs s t
    → t.phase ≡ calling
    → t.current ≡ cs
    → (u : EventLoop) × Runs s u
      × (u.phase ≡ testing)
      × (u.ran ≡ t.ran ++ cs)
      × (u.queued ≡ t.queued)
      × (u.waking ≡ t.waking)
unfolding end_pending run_first
finish s [] t r p c =
    (end_pending t, goes t _ r (ends p c), refl, sym (append-nil t.ran), refl, refl)
finish s (f ∷ fs) t r p c =
    let h = finish s fs (run_first f fs t) (goes t _ r (runs f fs p c)) p refl in
    (h.0, h.1, h.2, h.3 ∙ append_assoc t.ran (f ∷ []) fs, h.4, h.5)

-- From every reachable state in `poll`, a run in which no other thread queues or wakes leads back to
-- the test of `quit_` with everything run that was queued.
pub turn_empties :
    (s : EventLoop)
    → Reachable s
    → s.phase ≡ polling
    → (t : EventLoop) × Runs s t
      × (t.phase ≡ testing)
      × (t.ran ≡ s.queued)
      × (t.queued ≡ s.queued)
      × (t.waking ≡ s.waking)
unfolding swap_pending
turn_empties s r p =
    let v = Reachable-Inv s r in
    let awake : EventLoop = record s { phase = handling } in
    let h =
      finish s s.pending (swap_pending awake)
        (goes awake _ (goes s _ stays (poll_returns p)) (swaps refl)) refl refl in
    let all : s.queued ≡ s.ran ++ s.pending =
      v.kept_order ∙ ap (λ c. s.ran ++ (c ++ s.pending)) (v.between (ap is_calling p)) in
    (h.0, h.1, h.2, h.3 ∙ sym all, h.4, h.5)
