-- ===== src/Prelude/Avoid.antt =====
-- Texts in which a character does not occur: what `%d` prints has only digits and a minus.
use Prim.Native.Nat.{ℕ, zero, suc, ◌+◌, ◌/◌, ◌%◌, ◌<◌}
use mathlib.Core.Path.{◌≡◌, refl}
use mathlib.Core.List.{[], ◌∷◌, ◌++◌}
use mathlib.Core.Logic.{◌≢◌, ◌⊎◌, inl, inr}
use native.Mathlib.Omega.{arith}
use cluster_chat_server.Prelude.Tests.{ltb, Bool-cases}
use cluster_chat_server.Prelude.Int.{ℤ, pos, negsuc}
use cluster_chat_server.Prelude.Text.{Bytes, c_str, emit, show}

abbrev pub Avoids : ℕ → Bytes → Type 0
Avoids c [] = Unit {0}
Avoids c (x ∷ s) = (x ≢ c) × Avoids c s

pub Avoids-append : (c : ℕ) (s t : Bytes) → Avoids c s → Avoids c t → Avoids c (s ++ t)
Avoids-append c [] t h k = k
Avoids-append c (x ∷ s) t h k = (h.0, Avoids-append c s t h.1 k)

emit-Avoids :
    (c f n : ℕ) (out : Bytes) → (c < 48) ⊎ (57 < c) → Avoids c out → Avoids c (emit f n out)
unfolding emit
emit-Avoids c zero n out o h = h
emit-Avoids c (suc f) n out o h = elim (Bool-cases (ltb n 10)) [
  | inl e ↦ rw e (λ p. ground (arith, p), h)
  | inr e ↦ rw e (emit-Avoids c f (n / 10) ((b'0' + n % 10) ∷ out) o (λ p. ground (arith, p), h))
]

pub show-Avoids : (c : ℕ) (i : ℤ) → (c < 45) ⊎ (57 < c) → Avoids c (show i)
unfolding show
show-Avoids c (pos n) o = emit-Avoids c 10 n [] (ground arith) tt
show-Avoids c (negsuc n) o = (λ p. ground (arith, p), emit-Avoids c 10 (suc n) [] (ground arith) tt)

pub c_str-Avoids : (s : Bytes) → Avoids 0 s → c_str s ≡ s
unfolding c_str
c_str-Avoids [] h = refl
c_str-Avoids (x ∷ s) h = ground (arith, h.0, c_str-Avoids s h.1)
