-- ===== src/Prelude/Digits.antt =====
-- How long a printed number is.
use cluster_chat_server.Prelude.Tests.{ltb, if◌then◌else◌}
use cluster_chat_server.Prelude.Lists.{length}
use cluster_chat_server.Prelude.Int.{ℤ, pos, negsuc}
use cluster_chat_server.Prelude.Text.{Bytes, show, emit}
use Prim.Native.Nat.{ℕ, zero, suc, ◌+◌, ◌/◌, ◌%◌, ◌<◌, ◌≤◌}
use mathlib.Core.Path.{◌≡◌, refl}
use mathlib.Core.List.{[], ◌∷◌}
use native.Mathlib.Omega.{arith}

length-emit : (f n : ℕ) (out : Bytes) → length (emit f n out) ≤ f + length out
unfolding emit
length-emit zero n out = omega arith
length-emit (suc f) n out = ground (arith, length-emit f (n / 10) ((b'0' + n % 10) ∷ out))

pub length-show : (id : ℤ) → length (show id) ≤ 11
unfolding show
length-show (pos n) = omega (arith, length-emit 10 n [])
length-show (negsuc n) = omega (arith, length-emit 10 (suc n) [])

emit_one : (f n : ℕ) (out : Bytes) → n < 10 → length (emit (suc f) n out) ≡ suc (length out)
unfolding emit
emit_one f n out h = ground (arith, h)

emit_more :
    (f n : ℕ) (out : Bytes)
    → emit (suc f) n out
      ≡ (if ltb n 10 then (b'0' + n) ∷ out else emit f (n / 10) ((b'0' + n % 10) ∷ out))
unfolding emit
emit_more f n out = refl

emit_two : (f n : ℕ) (out : Bytes) → n < 100 → length (emit (suc (suc f)) n out) ≤ 2 + length out
emit_two f n out h =
    rw (emit_more (suc f) n out) (ground (arith, emit_one f (n / 10) ((b'0' + n % 10) ∷ out)))

pub length-show_two : (n : ℕ) → n < 100 → length (show (pos n)) ≤ 2
unfolding show
length-show_two n h = emit_two 8 n [] h
