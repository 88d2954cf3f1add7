-- ===== src/Json/Laws.antt =====
-- What the program relies on of the JSON library: an assignment to a key is read back, other keys
-- keep their values, and a printed value parses to itself. The library takes a NUL byte as the end of
-- its input and prints none.
use Prim.Native.String.{String}
use cluster_chat_server.Prelude.{
  ◌≡◌, ◌≢◌, List, [], ◌∷◌, ◌++◌, Bool, false, none, some, ℤ, IsInt, if◌then◌else◌, ◌||◌,
}
use cluster_chat_server.Prelude.Text.{Bytes, codes, bytes_eq, c_str}
use cluster_chat_server.Json.{JsonLib}

unfoldable pub same_key : String → String → Bool
unfolding bytes_eq
same_key key other = bytes_eq (codes key) (codes other)

pub record JsonLaws (J : JsonLib) : Type 0 where
  pub int_same :
      (key : String) (i : ℤ) (js : J.Json) → IsInt i → J.get_int key (J.set_int key i js) ≡ some i
  pub int_int :
      (k key : String) (i : ℤ) (js : J.Json)
      → same_key key k ≡ false
      → J.get_int k (J.set_int key i js) ≡ J.get_int k js
  pub int_string :
      (k key : String) (t : Bytes) (js : J.Json)
      → J.get_int k (J.set_string key t js) ≡ (if same_key key k then none else J.get_int k js)
  pub int_strings :
      (k key : String) (ts : List Bytes) (js : J.Json)
      → J.get_int k (J.set_strings key ts js) ≡ (if same_key key k then none else J.get_int k js)
  pub string_int :
      (k key : String) (i : ℤ) (js : J.Json)
      → J.get_string k (J.set_int key i js) ≡ (if same_key key k then none else J.get_string k js)
  pub string_string :
      (k key : String) (t : Bytes) (js : J.Json)
      → J.get_string k (J.set_string key t js)
        ≡ (if same_key key k then some t else J.get_string k js)
  pub string_strings :
      (k key : String) (ts : List Bytes) (js : J.Json)
      → J.get_string k (J.set_strings key ts js)
        ≡ (if same_key key k then none else J.get_string k js)
  pub strings_int :
      (k key : String) (i : ℤ) (js : J.Json)
      → J.get_strings k (J.set_int key i js) ≡ (if same_key key k then none else J.get_strings k js)
  pub strings_string :
      (k key : String) (t : Bytes) (js : J.Json)
      → J.get_strings k (J.set_string key t js)
        ≡ (if same_key key k then none else J.get_strings k js)
  pub strings_strings :
      (k key : String) (ts : List Bytes) (js : J.Json)
      → J.get_strings k (J.set_strings key ts js)
        ≡ (if same_key key k then some ts else J.get_strings k js)
  pub contains_empty : (k : String) → J.contains k J.empty ≡ false
  pub contains_int :
      (k key : String) (i : ℤ) (js : J.Json)
      → J.contains k (J.set_int key i js) ≡ (same_key key k || J.contains k js)
  pub contains_string :
      (k key : String) (t : Bytes) (js : J.Json)
      → J.contains k (J.set_string key t js) ≡ (same_key key k || J.contains k js)
  pub contains_strings :
      (k key : String) (ts : List Bytes) (js : J.Json)
      → J.contains k (J.set_strings key ts js) ≡ (same_key key k || J.contains k js)
  pub parse_dump : (js : J.Json) → J.parse (J.dump js) ≡ some js
  pub parse_dump_nul : (js : J.Json) (rest : Bytes) → J.parse (J.dump js ++ 0 ∷ rest) ≡ some js
  pub dump_some : (js : J.Json) → J.dump js ≢ []
  pub dump_plain : (js : J.Json) → c_str (J.dump js) ≡ J.dump js
