-- ===== src/Service/Toy.antt =====
-- A concrete JSON library for the tests: an object is the list of its assignments, newest first,
-- printed with the count of everything in front of it. No printed byte is 0.
use cluster_chat_server.Prelude.{
  ℕ, zero, suc, ◌-◌, ◌^◌, ◌≡◌, refl, List, [], ◌∷◌, ◌++◌, map, Bool, true, false, Option, none,
  some, arith, if◌then◌else◌, ltb, ℤ, pos, negsuc, IsInt, length, take, drop, ◌>>=◌, ◌∙◌, ap,
}
use cluster_chat_server.Prelude.Text.{Bytes, codes, bytes_eq, bytes_eq_refl, show, c_str}
use cluster_chat_server.Json.{JsonLib}
use cluster_chat_server.Json.Laws.{JsonLaws, same_key}
use cluster_chat_server.Service.Laws.{ReadsInts}

pub data Value : Type 0 where
  number : ℤ → Value
  text : Bytes → Value
  texts : List Bytes → Value

abbrev pub Fields : Type 0
Fields = List (Bytes × Value)

abbrev in_range : ℤ → Bool
in_range (pos n) = ltb n (2 ^ 31)
in_range (negsuc n) = ltb n (2 ^ 31)

in_range-IsInt : (i : ℤ) → in_range i ≡ true → IsInt i
in_range-IsInt (pos n) h = ground arith
in_range-IsInt (negsuc n) h = ground arith

in_range_complete : (i : ℤ) → IsInt i → in_range i ≡ true
in_range_complete (pos n) h = ground arith
in_range_complete (negsuc n) h = ground arith

abbrev field : Bytes → Fields → Option Value
field key [] = none
field key ((k, v) ∷ fs) = let rest = field key fs in if bytes_eq k key then some v else rest

abbrev int_of : Option Value → Option ℤ
int_of none = none
int_of (some (number i)) = if in_range i then some i else none
int_of (some (text t)) = none
int_of (some (texts t)) = none

abbrev text_of : Option Value → Option Bytes
text_of none = none
text_of (some (number i)) = none
text_of (some (text t)) = some t
text_of (some (texts t)) = none

abbrev texts_of : Option Value → Option (List Bytes)
texts_of none = none
texts_of (some (number i)) = none
texts_of (some (text t)) = none
texts_of (some (texts ts)) = some ts

abbrev is_there : Option Value → Bool
is_there none = false
is_there (some v) = true

abbrev printed : Option Value → Bytes
printed none = codes "null"
printed (some (number i)) = show i
printed (some (text t)) = t
printed (some (texts ts)) = codes "[]"

-- The printed form, and its reader, which leaves what follows.
abbrev enc_text : Bytes → Bytes → Bytes
enc_text t rest = length t ∷ t ++ rest

abbrev enc_texts : List Bytes → Bytes → Bytes
enc_texts [] rest = rest
enc_texts (t ∷ ts) rest = enc_text t (enc_texts ts rest)

abbrev enc_value : Value → Bytes → Bytes
enc_value (number (pos n)) rest = 0 ∷ n ∷ rest
enc_value (number (negsuc n)) rest = 1 ∷ n ∷ rest
enc_value (text t) rest = 2 ∷ enc_text t rest
enc_value (texts ts) rest = 3 ∷ length ts ∷ enc_texts ts rest

abbrev enc_fields : Fields → Bytes
enc_fields [] = []
enc_fields ((k, v) ∷ fs) = enc_text k (enc_value v (enc_fields fs))

abbrev encode : Fields → Bytes
encode fs = length fs ∷ enc_fields fs

abbrev dec_text : Bytes → Option (Bytes × Bytes)
dec_text [] = none
dec_text (n ∷ s) = some (take n s, drop n s)

abbrev dec_texts : ℕ → Bytes → Option (List Bytes × Bytes)
dec_texts zero s = some ([], s)
dec_texts (suc n) s = do (t, r) ← dec_text s; (ts, r') ← dec_texts n r; some (t ∷ ts, r')

abbrev dec_value : Bytes → Option (Value × Bytes)
dec_value (zero ∷ n ∷ s) = some (number (pos n), s)
dec_value (suc zero ∷ n ∷ s) = some (number (negsuc n), s)
dec_value (suc (suc zero) ∷ s) = dec_text s >>= λ (t, r). some (text t, r)
dec_value (suc (suc (suc zero)) ∷ n ∷ s) = dec_texts n s >>= λ (ts, r). some (texts ts, r)
dec_value _ = none

abbrev dec_fields : ℕ → Bytes → Option Fields
dec_fields zero s = some []
dec_fields (suc n) s = do
  (k, r) ← dec_text s
  (v, r') ← dec_value r
  fs ← dec_fields n r'
  some ((k, v) ∷ fs)

abbrev decode : Bytes → Option Fields
decode [] = none
decode (n ∷ s) = dec_fields n s

abbrev less_one : Bytes → Bytes
less_one = map (λ b. b - 1)

abbrev pub toy_json : JsonLib
toy_json = record {
  Json = Fields;
  empty = [];
  get_int = λ key js. int_of (field (codes key) js);
  get_string = λ key js. text_of (field (codes key) js);
  get_strings = λ key js. texts_of (field (codes key) js);
  contains = λ key js. is_there (field (codes key) js);
  print = λ key js. printed (field (codes key) js);
  set_int = λ key i js. (codes key, number i) ∷ js;
  set_string = λ key t js. (codes key, text t) ∷ js;
  set_strings = λ key ts js. (codes key, texts ts) ∷ js;
  dump = λ js. map suc (encode js);
  parse = λ t. decode (less_one (c_str t));
}

int_of-IsInt : (v : Option Value) (i : ℤ) → int_of v ≡ some i → IsInt i
int_of-IsInt none i h = ground arith
int_of-IsInt (some (number j)) i h = ground (arith, in_range-IsInt j, in_range-IsInt i)
int_of-IsInt (some (text t)) i h = ground arith
int_of-IsInt (some (texts t)) i h = ground arith

pub toy_json-ReadsInts : ReadsInts toy_json
toy_json-ReadsInts = record { is_int = λ key js i h. int_of-IsInt (field (codes key) js) i h }

take-length : (t rest : Bytes) → take (length t) (t ++ rest) ≡ t
take-length [] rest = refl
take-length (x ∷ t) rest = ap (◌∷◌ x) (take-length t rest)

drop-length : (t rest : Bytes) → drop (length t) (t ++ rest) ≡ rest
drop-length [] rest = refl
drop-length (x ∷ t) rest = drop-length t rest

dec_text-enc : (t rest : Bytes) → dec_text (enc_text t rest) ≡ some (t, rest)
dec_text-enc t rest = rw (take-length t rest, drop-length t rest)

dec_texts-enc :
    (ts : List Bytes) (rest : Bytes) → dec_texts (length ts) (enc_texts ts rest) ≡ some (ts, rest)
dec_texts-enc [] rest = refl
dec_texts-enc (t ∷ ts) rest = rw (take-length t _, drop-length t _, dec_texts-enc ts rest)

dec_value-enc : (v : Value) (rest : Bytes) → dec_value (enc_value v rest) ≡ some (v, rest)
dec_value-enc (number (pos n)) rest = refl
dec_value-enc (number (negsuc n)) rest = refl
dec_value-enc (text t) rest = rw (take-length t rest, drop-length t rest)
dec_value-enc (texts ts) rest = rw (dec_texts-enc ts rest)

dec_fields-enc : (fs : Fields) → dec_fields (length fs) (enc_fields fs) ≡ some fs
dec_fields-enc [] = refl
dec_fields-enc ((k, v) ∷ fs) =
    rw (take-length k _, drop-length k _, dec_value-enc v _, dec_fields-enc fs)

c_str-suc : (xs rest : Bytes) → c_str (map suc xs ++ 0 ∷ rest) ≡ map suc xs
unfolding c_str
c_str-suc [] rest = refl
c_str-suc (x ∷ xs) rest = ground (arith, c_str-suc xs rest)

c_str-suc_all : (xs : Bytes) → c_str (map suc xs) ≡ map suc xs
unfolding c_str
c_str-suc_all [] = refl
c_str-suc_all (x ∷ xs) = ground (arith, c_str-suc_all xs)

less_one-suc : (xs : Bytes) → less_one (map suc xs) ≡ xs
less_one-suc [] = refl
less_one-suc (x ∷ xs) = ground (arith, less_one-suc xs)

decode-encode : (js : Fields) → decode (less_one (map suc (encode js))) ≡ some js
decode-encode js = ap decode (less_one-suc (encode js)) ∙ dec_fields-enc js

pub toy_json-JsonLaws : JsonLaws toy_json
unfolding same_key
toy_json-JsonLaws = record {
  int_same = λ key i js h. ground (arith, in_range_complete i h, bytes_eq_refl (codes key));
  int_int = λ k key i js h. ground (arith, h);
  int_string = λ k key t js. ground arith;
  int_strings = λ k key ts js. ground arith;
  string_int = λ k key i js. ground arith;
  string_string = λ k key t js. ground arith;
  string_strings = λ k key ts js. ground arith;
  strings_int = λ k key i js. ground arith;
  strings_string = λ k key t js. ground arith;
  strings_strings = λ k key ts js. ground arith;
  contains_empty = λ k. refl;
  contains_int = λ k key i js. ground arith;
  contains_string = λ k key t js. ground arith;
  contains_strings = λ k key ts js. ground arith;
  parse_dump = λ js. ap (λ t. decode (less_one t)) (c_str-suc_all (encode js)) ∙ decode-encode js;
  parse_dump_nul =
      λ js rest. ap (λ t. decode (less_one t)) (c_str-suc (encode js) rest) ∙ decode-encode js;
  dump_some = λ js p. cc;
  dump_plain = λ js. c_str-suc_all (encode js);
}
