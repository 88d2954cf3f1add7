-- ===== src/Prelude/Text.antt =====
-- Texts as lists of byte values, and what the program uses of the C library on them: `%d` of
-- `snprintf`, the fixed buffer that it fills, `c_str()` and `atoi`.
use Prim.Native.Char.{code}
use Prim.Native.String.{String}
use Prim.Native.Nat.{ℕ, zero, suc, ◌+◌, ◌-◌, ◌*◌, ◌/◌, ◌%◌, ◌^◌, ◌<◌, ◌≤◌}
use mathlib.Core.Path.{◌≡◌, refl, ◌∙◌, ap}
use mathlib.Core.Bool.{Bool, true, false, ◌&&◌, ◌||◌}
use mathlib.Core.List.{List, [], ◌∷◌}
use mathlib.Core.Logic.{inl, inr}
use native.Mathlib.Omega.{arith}
use native.Mathlib.Nat.{pow-suc}
use cluster_chat_server.Prelude.Tests.{ltb, leb, ◌==◌, if◌then◌else◌, Bool-cases}
use cluster_chat_server.Prelude.Lists.{take}
use cluster_chat_server.Prelude.Int.{ℤ, pos, negsuc, IsInt}

abbrev pub Bytes : Type 0
Bytes = List ℕ

-- The bytes of an ASCII literal.
abbrev pub codes : String → Bytes
codes String.[] = []
codes (String.◌∷◌ c s) = code c ∷ codes s

-- Equality of texts, as `std::string` compares them.
unfoldable pub bytes_eq : Bytes → Bytes → Bool
bytes_eq [] [] = true
bytes_eq [] (y ∷ ys) = false
bytes_eq (x ∷ xs) [] = false
bytes_eq (x ∷ xs) (y ∷ ys) = x == y && bytes_eq xs ys

pub bytes_eq_refl : (xs : Bytes) → bytes_eq xs xs ≡ true
unfolding bytes_eq
bytes_eq_refl [] = refl
bytes_eq_refl (x ∷ xs) = ground (arith, bytes_eq_refl xs)

pub bytes_eq-eq : (xs ys : Bytes) → bytes_eq xs ys ≡ true → xs ≡ ys
unfolding bytes_eq
bytes_eq-eq [] [] h = refl
bytes_eq-eq [] (y ∷ ys) h = ground arith
bytes_eq-eq (x ∷ xs) [] h = ground arith
bytes_eq-eq (x ∷ xs) (y ∷ ys) h = ground (arith, bytes_eq-eq xs ys)

-- The text of a `std::string` up to its first NUL byte, as `%s` prints it.
unfoldable pub c_str : Bytes → Bytes
c_str [] = []
c_str (x ∷ xs) = let rest = c_str xs in if x == 0 then [] else x ∷ rest

-- `snprintf(sql, sizeof sql, …)` with `char sql[1024]` keeps the first 1023 bytes.
abbrev pub sql_room : ℕ
sql_room = 1023

unfoldable pub snprintf : Bytes → Bytes
snprintf text = take sql_room text

-- `%d`: at most ten digits, for an `int` has no more.
unfoldable pub emit : ℕ → ℕ → Bytes → Bytes
emit zero n out = out
emit (suc fuel) n out =
    let rest = emit fuel (n / 10) ((b'0' + n % 10) ∷ out) in
    if ltb n 10 then (b'0' + n) ∷ out else rest

unfoldable pub show : ℤ → Bytes
show (pos n) = emit 10 n []
show (negsuc n) = b'-' ∷ emit 10 (suc n) []

unfoldable pub is_digit : ℕ → Bool
is_digit c = leb b'0' c && leb c b'9'

-- The digits at the front of a text, read behind those that gave `acc`.
unfoldable pub scan : Bytes → ℕ → ℕ
unfolding is_digit
scan [] acc = acc
scan (c ∷ s) acc = let rest = scan s (acc * 10 + (c - b'0')) in if is_digit c then rest else acc

unfoldable pub skip_spaces : Bytes → Bytes
skip_spaces [] = []
skip_spaces (c ∷ s) =
    let rest = skip_spaces s in if c == b' ' || (leb 9 c && leb c 13) then rest else c ∷ s

-- The integer -n.
unfoldable pub negate : ℕ → ℤ
negate zero = pos 0
negate (suc n) = negsuc n

unfoldable pub scan_sign : Bytes → ℤ
unfolding scan negate
scan_sign [] = pos 0
scan_sign (c ∷ s) =
    if c == b'-' then negate (scan s 0) else pos (scan (if c == b'+' then s else c ∷ s) 0)

-- `atoi`; on a value that an `int` cannot hold, which is undefined in C, it is the unbounded value.
unfoldable pub atoi : Bytes → ℤ
unfolding scan_sign skip_spaces
atoi s = scan_sign (skip_spaces s)

test_show :
    (show (pos 1205) ≡ codes "1205") × (show (negsuc 0) ≡ codes "-1") × (show (pos 0) ≡ codes "0")
unfolding show emit
test_show = (refl, refl, refl)

test_atoi :
    (atoi (codes " 42:x") ≡ pos 42) × (atoi (codes "-7") ≡ negsuc 6) × (atoi (codes "abc") ≡ pos 0)
unfolding atoi
test_atoi = (refl, refl, refl)

tenth : (f n : ℕ) → n < 10 ^ suc f → n / 10 < 10 ^ f
tenth f n h = omega (arith, pow-suc 10 f)

last_digit : (n : ℕ) → n / 10 * 10 + n % 10 ≡ n
last_digit n = omega arith

-- What `%d` printed, read back from the front of a text.
scan-emit : (f n : ℕ) (out : Bytes) → n < 10 ^ f → scan (emit f n out) 0 ≡ scan out n
unfolding scan emit
scan-emit zero n out h = ap (scan out) (let p : 0 ≡ n = omega arith in p)
scan-emit (suc f) n out h = elim (Bool-cases (ltb n 10)) [
  | inl e ↦ rw e (ground arith)
  | inr e ↦
      rw e
        (scan-emit f (n / 10) ((b'0' + n % 10) ∷ out) (tenth f n h) ∙ ground (arith, last_digit n))
]

abbrev Starts : Bytes → Type 0
Starts [] = ⊥
Starts (c ∷ s) = (48 ≤ c) × (c ≤ 57)

emit-Starts : (f n : ℕ) (out : Bytes) → 0 < f → n < 10 ^ f → Starts (emit f n out)
unfolding emit
emit-Starts zero n out p h = absurd (omega arith)
emit-Starts (suc zero) n out p h =
    let small : ltb n 10 ≡ true = ground arith in rw small (ground arith)
emit-Starts (suc (suc f)) n out p h = elim (Bool-cases (ltb n 10)) [
  | inl e ↦ rw e (ground arith)
  | inr e ↦
      rw e (emit-Starts (suc f) (n / 10) ((b'0' + n % 10) ∷ out) (omega arith) (tenth (suc f) n h))
]

scan-show : (n : ℕ) → n < 10 ^ 10 → scan (emit 10 n []) 0 ≡ n
unfolding scan
scan-show n h = scan-emit 10 n [] h

atoi_digits : (s : Bytes) → Starts s → atoi s ≡ pos (scan s 0)
unfolding atoi
atoi_digits [] h = elim h [ ]
atoi_digits (c ∷ s) h = ground arith

atoi_minus : (s : Bytes) → atoi (b'-' ∷ s) ≡ negate (scan s 0)
unfolding atoi
atoi_minus s = refl

negate-suc : (n : ℕ) → negate (suc n) ≡ negsuc n
unfolding negate
negate-suc n = refl

-- `atoi` reads back what `%d` printed, for every `int`.
pub atoi-show : (i : ℤ) → IsInt i → atoi (show i) ≡ i
unfolding show
atoi-show (pos n) h =
    atoi_digits (emit 10 n []) (emit-Starts 10 n [] (omega arith) (omega arith))
    ∙ ap pos (scan-show n (omega arith))
atoi-show (negsuc n) h =
    atoi_minus (emit 10 (suc n) []) ∙ ap negate (scan-show (suc n) (omega arith)) ∙ negate-suc n
