-- ===== src/Json.antt =====
-- The parameter for the JSON library (thirtpart/json.hpp), as far as the program calls it. A read
-- is `none` where the library throws. Texts are taken to be UTF-8: `parse` refuses others, the server
-- reads the database through a connection that it sets to utf8, and the client has its texts from the
-- terminal. On a value with other text `dump` throws, which is not modelled.
pub mod Laws
use Prim.Native.String.{String}
use cluster_chat_server.Prelude.{List, Bool, Option, ℤ}
use cluster_chat_server.Prelude.Text.{Bytes}

pub record JsonLib : Type 1 where
  pub Json : Type 0
  -- `json js;`
  pub empty : Json
  -- `js[key].get<int>()`, `js[key].get<string>()`, and a `vector<string>` from `js[key]`.
  pub get_int : String → Json → Option ℤ
  pub get_string : String → Json → Option Bytes
  pub get_strings : String → Json → Option (List Bytes)
  pub contains : String → Json → Bool
  -- what `cout << js[key]` prints
  pub print : String → Json → Bytes
  -- `js[key] = value`
  pub set_int : String → ℤ → Json → Json
  pub set_string : String → Bytes → Json → Json
  pub set_strings : String → List Bytes → Json → Json
  -- `js.dump()` and `json::parse`
  pub dump : Json → Bytes
  pub parse : Bytes → Option Json

-- The JSON values of the library in scope.
abbrev pub Json : ⦃J : JsonLib⦄ → Type 0
Json ⦃J⦄ = J.Json
