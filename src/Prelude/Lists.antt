-- ===== src/Prelude/Lists.antt =====
-- Lists measured, indexed and sliced by native numbers, under the library's names, and the write
-- of a block of bytes into an array.
use Prim.Native.Nat.{ℕ, zero, suc, ◌+◌, ◌-◌, ◌≤◌, min}
use mathlib.Core.Path.{◌≡◌, refl, ap}
use mathlib.Core.List.{List, [], ◌∷◌, ◌++◌, map}
use mathlib.Core.Option.{Option, none, some}
use native.Mathlib.Omega.{arith}

module _ {ℓ} {A : Type ℓ} where
  abbrev pub length : List A → ℕ
  length [] = 0
  length (x ∷ xs) = suc (length xs)

  abbrev pub get_elem? : List A → ℕ → Option A
  get_elem? [] i = none
  get_elem? (x ∷ xs) zero = some x
  get_elem? (x ∷ xs) (suc i) = get_elem? xs i

  abbrev pub get_or : List A → ℕ → A → A
  get_or [] i d = d
  get_or (x ∷ xs) zero d = x
  get_or (x ∷ xs) (suc i) d = get_or xs i d

  abbrev pub take : ℕ → List A → List A
  take zero xs = []
  take (suc n) [] = []
  take (suc n) (x ∷ xs) = x ∷ take n xs

  abbrev pub drop : ℕ → List A → List A
  drop zero xs = xs
  drop (suc n) [] = []
  drop (suc n) (x ∷ xs) = drop n xs

  abbrev pub replicate : ℕ → A → List A
  replicate zero a = []
  replicate (suc n) a = a ∷ replicate n a

  -- `std::copy` of a block to index `i`; what would fall beyond the end is dropped.
  abbrev pub overwrite : List A → ℕ → List A → List A
  overwrite [] i ys = []
  overwrite (x ∷ xs) (suc i) ys = x ∷ overwrite xs i ys
  overwrite (x ∷ xs) zero [] = x ∷ xs
  overwrite (x ∷ xs) zero (y ∷ ys) = y ∷ overwrite xs zero ys

module _ {ℓ} {A : Type ℓ} where
  pub length-append : (xs ys : List A) → length (xs ++ ys) ≡ length xs + length ys
  length-append [] ys = omega arith
  length-append (x ∷ xs) ys = omega (arith, length-append xs ys)

  pub length-take : (n : ℕ) (xs : List A) → length (take n xs) ≡ min n (length xs)
  length-take zero xs = omega arith
  length-take (suc n) [] = omega arith
  length-take (suc n) (x ∷ xs) = omega (arith, length-take n xs)

  pub length-drop : (n : ℕ) (xs : List A) → length (drop n xs) ≡ length xs - n
  length-drop zero xs = omega arith
  length-drop (suc n) [] = omega arith
  length-drop (suc n) (x ∷ xs) = omega (arith, length-drop n xs)

  pub length-replicate : (n : ℕ) (a : A) → length (replicate n a) ≡ n
  length-replicate zero a = refl
  length-replicate (suc n) a = ap suc (length-replicate n a)

  pub length-map {κ} : {B : Type κ} (f : A → B) (xs : List A) → length (map f xs) ≡ length xs
  length-map f [] = refl
  length-map f (x ∷ xs) = ap suc (length-map f xs)

  pub length-overwrite :
      (xs : List A) (i : ℕ) (ys : List A) → length (overwrite xs i ys) ≡ length xs
  length-overwrite [] i ys = refl
  length-overwrite (x ∷ xs) (suc i) ys = ap suc (length-overwrite xs i ys)
  length-overwrite (x ∷ xs) zero [] = refl
  length-overwrite (x ∷ xs) zero (y ∷ ys) = ap suc (length-overwrite xs zero ys)

  pub take-all : (n : ℕ) (xs : List A) → length xs ≤ n → take n xs ≡ xs
  take-all zero [] h = refl
  take-all zero (x ∷ xs) h = absurd (omega arith)
  take-all (suc n) [] h = refl
  take-all (suc n) (x ∷ xs) h = ap (◌∷◌ x) (take-all n xs (omega arith))

  pub drop-all : (n : ℕ) (xs : List A) → length xs ≤ n → drop n xs ≡ []
  drop-all zero [] h = refl
  drop-all zero (x ∷ xs) h = absurd (omega arith)
  drop-all (suc n) [] h = refl
  drop-all (suc n) (x ∷ xs) h = drop-all n xs (omega arith)

  pub take-append : (n : ℕ) (xs ys : List A) → n ≤ length xs → take n (xs ++ ys) ≡ take n xs
  take-append zero xs ys h = refl
  take-append (suc n) [] ys h = absurd (omega arith)
  take-append (suc n) (x ∷ xs) ys h = ap (◌∷◌ x) (take-append n xs ys (omega arith))

  pub drop-append : (n : ℕ) (xs ys : List A) → n ≤ length xs → drop n (xs ++ ys) ≡ drop n xs ++ ys
  drop-append zero xs ys h = refl
  drop-append (suc n) [] ys h = absurd (omega arith)
  drop-append (suc n) (x ∷ xs) ys h = drop-append n xs ys (omega arith)

  pub take-append-drop : (n : ℕ) (xs : List A) → take n xs ++ drop n xs ≡ xs
  take-append-drop zero xs = refl
  take-append-drop (suc n) [] = refl
  take-append-drop (suc n) (x ∷ xs) = ap (◌∷◌ x) (take-append-drop n xs)

  nil-take : (n : ℕ) → [] ≡ take {A = A} n []
  nil-take zero = refl
  nil-take (suc n) = refl

  nil-drop : (n : ℕ) → [] ≡ drop {A = A} n []
  nil-drop zero = refl
  nil-drop (suc n) = refl

  pub drop-drop : (m n k : ℕ) (xs : List A) → k ≡ n + m → drop m (drop n xs) ≡ drop k xs
  drop-drop m zero k xs e = ap (λ t. drop t xs) (let p : m ≡ k = omega arith in p)
  drop-drop zero (suc n) k [] e = nil-drop k
  drop-drop (suc m) (suc n) k [] e = nil-drop k
  drop-drop m (suc n) zero (x ∷ xs) e = absurd (omega arith)
  drop-drop m (suc n) (suc k) (x ∷ xs) e = drop-drop m n k xs (omega arith)

  pub drop-take : (m n k : ℕ) (xs : List A) → k ≡ n - m → drop m (take n xs) ≡ take k (drop m xs)
  drop-take zero n k xs e = ap (λ t. take t xs) (let p : n ≡ k = omega arith in p)
  drop-take (suc m) zero zero xs e = refl
  drop-take (suc m) zero (suc k) xs e = absurd (omega arith)
  drop-take (suc m) (suc n) k [] e = nil-take k
  drop-take (suc m) (suc n) k (x ∷ xs) e = drop-take m n k xs (omega arith)

  -- A block written `k` places behind index `i`, seen from `i` on.
  pub drop-overwrite :
      (i k j : ℕ) (xs ys : List A)
      → j ≡ i + k
      → drop i (overwrite xs j ys) ≡ overwrite (drop i xs) k ys
  drop-overwrite zero k j xs ys e = ap (λ n. overwrite xs n ys) (omega arith)
  drop-overwrite (suc i) k j [] ys e = refl
  drop-overwrite (suc i) k zero (x ∷ xs) ys e = absurd (omega arith)
  drop-overwrite (suc i) k (suc j) (x ∷ xs) ys e = drop-overwrite i k j xs ys (omega arith)

  pub take-overwrite :
      (k n : ℕ) (xs ys : List A)
      → n ≡ k + length ys
      → n ≤ length xs
      → take n (overwrite xs k ys) ≡ take k xs ++ ys
  take-overwrite zero zero [] [] e h = refl
  take-overwrite zero zero (x ∷ xs) [] e h = refl
  take-overwrite zero zero xs (y ∷ ys) e h = absurd (omega arith)
  take-overwrite zero (suc n) [] ys e h = absurd (omega arith)
  take-overwrite zero (suc n) (x ∷ xs) [] e h = absurd (omega arith)
  take-overwrite zero (suc n) (x ∷ xs) (y ∷ ys) e h =
      ap (◌∷◌ y) (take-overwrite zero n xs ys (omega arith) (omega arith))
  take-overwrite (suc k) zero xs ys e h = absurd (omega arith)
  take-overwrite (suc k) (suc n) [] ys e h = absurd (omega arith)
  take-overwrite (suc k) (suc n) (x ∷ xs) ys e h =
      ap (◌∷◌ x) (take-overwrite k n xs ys (omega arith) (omega arith))
