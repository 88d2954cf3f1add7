-- ===== src/Net/Pool.antt =====
-- The loops of a server and their choice in turn: include/net/EventLoopThreadPool.h and
-- src/net/EventLoopThreadPool.cc. A loop is the number of its object; that `startLoop` gives a loop
-- for each thread is the argument of `start`.
use cluster_chat_server.Prelude.{
  ℕ, zero, suc, ◌+◌, ◌-◌, ◌*◌, ◌<◌, ◌≡◌, refl, List, [], ◌∷◌, ◌++◌, false, some, arith, length,
  get_or, get_elem?, leb, ◌==◌, if◌then◌else◌, ◌∙◌, ap, sym,
}
use mathlib.Core.List.{append-nil, append_assoc}
use native.Mathlib.Nat.{suc-mul}

pub record Pool : Type 0 where
  pub base_loop : ℕ
  pub loops : List ℕ
  pub next : ℕ

unfoldable pub init : ℕ → Pool
init base = record { base_loop = base; loops = []; next = 0 }

-- One more loop for each thread that started.
unfoldable pub start : List ℕ → Pool → Pool
start [] p = p
start (loop ∷ rest) p = start rest (record p { loops = p.loops ++ loop ∷ [] })

-- `loops_[next_]` out of range, which is undefined in C++, is the base loop here.
unfoldable pub get_next_loop : Pool → ℕ × Pool
get_next_loop p = if length p.loops == 0 then (p.base_loop, p) else (
  get_or p.loops p.next p.base_loop,
  record p { next = if leb (length p.loops) (suc p.next) then 0 else suc p.next },
)

unfoldable pub get_all_loops : Pool → List ℕ
get_all_loops p = if length p.loops == 0 then p.base_loop ∷ [] else p.loops

-- The pool after so many calls of `getNextLoop`.
unfoldable pub after : ℕ → Pool → Pool
after zero p = p
after (suc k) p = (get_next_loop (after k p)).1

start-loops : (ls : List ℕ) (p : Pool) → (start ls p).loops ≡ p.loops ++ ls
unfolding start
start-loops [] p = sym (append-nil p.loops)
start-loops (l ∷ ls) p = start-loops ls _ ∙ append_assoc p.loops (l ∷ []) ls

start-next : (ls : List ℕ) (p : Pool) → (start ls p).next ≡ p.next
unfolding start
start-next [] p = refl
start-next (l ∷ ls) p = start-next ls _

after-loops : (k : ℕ) (p : Pool) → (after k p).loops ≡ p.loops
unfolding after get_next_loop
after-loops zero p = refl
after-loops (suc k) p = ground (arith, after-loops k p)

in_range : (ls : List ℕ) (i d : ℕ) → i < length ls → get_elem? ls i ≡ some (get_or ls i d)
in_range [] i d h = absurd (omega (arith, h))
in_range (x ∷ ls) zero d h = refl
in_range (x ∷ ls) (suc i) d h = in_range ls i d (omega arith)

-- One call moves the index on, around the end.
next-moves :
    (p : Pool) (n r : ℕ)
    → length p.loops ≡ n
    → p.next ≡ r
    → r < n
    → (get_next_loop p).1.next ≡ (if leb n (suc r) then 0 else suc r)
unfolding get_next_loop
next-moves p n r size e h = ground (arith, size, e, h)

module _ (p : Pool) (z : p.next ≡ 0) where
  abbrev n : ℕ
  n = length p.loops

  after-next : (k q r : ℕ) → r < n → k ≡ q * n + r → (after k p).next ≡ r
  unfolding after
  after-next zero zero r h e = z ∙ (let s : 0 ≡ r = omega (arith, e) in s)
  after-next zero (suc q) r h e = absurd (omega (arith, h, e, suc-mul q n))
  after-next (suc k) zero zero h e = absurd (omega (arith, e))
  after-next (suc k) (suc q) zero h e =
      let last : n - 1 < n = omega (arith, h) in
      let before = after-next k q (n - 1) last (omega (arith, h, e, suc-mul q n)) in
      next-moves (after k p) n (n - 1) (ap length (after-loops k p)) before last ∙ ground (arith, h)
  after-next (suc k) q (suc r) h e =
      let inside : r < n = omega (arith, h) in
      let before = after-next k q r inside (omega (arith, e)) in
      next-moves (after k p) n r (ap length (after-loops k p)) before inside ∙ ground (arith, h)

  next_loop-after :
      (k q r : ℕ) → r < n → k ≡ q * n + r → get_elem? p.loops r ≡ some (get_next_loop (after k p)).0
  unfolding get_next_loop
  next_loop-after k q r h e =
      let some_loops : (length p.loops == 0) ≡ false = ground (arith, h) in
      rw (after-loops k p, after-next k q r h e, some_loops) (in_range p.loops r _ h)

-- The loops of a pool with at least one thread are handed out in turn: call number q * n + r, from 0,
-- of `getNextLoop` gives the loop with index r of the n loops, so no read is out of range.
pub round_robin :
    (base : ℕ) (loops : List ℕ) (q r : ℕ)
    → r < length loops
    → let p = after (q * length loops + r) (start loops (init base)) in
      get_elem? loops r ≡ some (get_next_loop p).0
unfolding init
round_robin base loops q r h =
    let p = start loops (init base) in
    let all : p.loops ≡ loops = start-loops loops (init base) in
    let size : length p.loops ≡ length loops = ap length all in
    let got =
      next_loop-after p (start-next loops (init base)) (q * length loops + r) q r
        (omega (arith, h, size)) (ap (λ m. q * m + r) (sym size)) in
    sym (ap (λ ls. get_elem? ls r) all) ∙ got
