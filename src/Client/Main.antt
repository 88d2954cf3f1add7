-- ===== src/Client/Main.antt =====
-- The `main` of src/client/main.cc: the connection to the server, and the menu of login, register
-- and quit. What the system calls give, and what the receiving thread does while `main` waits for
-- it, are arguments.
pub mod Stuck
pub mod Typed
mod Tests
use cluster_chat_server.Prelude.{
  ℕ, ◌-◌, ◌^◌, ◌%◌, ◌>>=◌, List, [], ◌∷◌, Bool, true, false, not, ◌&&◌, ◌||◌, Option, none, some, ℤ,
  pos, negsuc, ◌==ℤ◌, ◌==◌, leb, ltb, if◌then◌else◌,
}
use cluster_chat_server.Prelude.Text.{Bytes, c_str, atoi, is_digit, skip_spaces}
use cluster_chat_server.Json.{JsonLib}
use cluster_chat_server.Client.{Client, invalid_input, display, log_in, sign_up, open_menu}
use cluster_chat_server.Client.Command.{Terminal, getline, main_menu}

-- How far `main` gets before its menu: it exits, or is connected to a port.
pub data Opened : Type 0 where
  wrong_arguments no_socket not_connected : Opened
  connected : ℕ → Opened

-- `uint16_t port = atoi(argv[2])`
unfoldable pub port_of : Bytes → ℕ
port_of text = elim (atoi text) [ pos n ↦ n % 2 ^ 16 | negsuc n ↦ 2 ^ 16 - 1 - n % 2 ^ 16 ]

-- Given `argc`, the second argument, and what `socket` and `connect` answer.
unfoldable pub open_connection : ℕ → Bytes → ℤ → ℤ → Opened
open_connection argc port sock connect =
    if ltb argc 3
    then wrong_arguments
    else if sock ==ℤ negsuc 0
    then no_socket
    else if connect ==ℤ negsuc 0
    then not_connected
    else connected (port_of port)

-- What `>>` skips: white space, with the ends of lines.
unfoldable pub skip_blank : List Bytes → List Bytes
skip_blank [] = []
skip_blank (line ∷ lines) =
    let rest = skip_blank lines in elim (skip_spaces line) [ [] ↦ rest | ◌∷◌ c s ↦ (c ∷ s) ∷ lines ]

unfoldable pub drop_digits : Bytes → Bytes
drop_digits [] = []
drop_digits (c ∷ s) = let rest = drop_digits s in if is_digit c then rest else c ∷ s

abbrev pub starts_digit : Bytes → Bool
starts_digit [] = false
starts_digit (c ∷ s) = is_digit c

-- Whether a text starts with a number, and what is behind that number or its sign.
unfoldable pub number_front : Bytes → Bool × Bytes
number_front [] = (false, [])
number_front (c ∷ s) =
    if c == b'-' || c == b'+'
    then (starts_digit s, drop_digits s)
    else (is_digit c, drop_digits (c ∷ s))

-- A number that an `int` cannot hold becomes the nearest that it can, with a failure.
unfoldable pub clamp : ℤ → ℤ × Bool
clamp (pos n) = if ltb n (2 ^ 31) then (pos n, false) else (pos (2 ^ 31 - 1), true)
clamp (negsuc n) = if ltb n (2 ^ 31) then (negsuc n, false) else (negsuc (2 ^ 31 - 1), true)

-- `cin >> n` for an `int` that is 0.
unfoldable pub read_int : Terminal → ℤ × Terminal
read_int t = if t.failed then (pos 0, t) else (elim (skip_blank t.lines) [
  | [] ↦ (pos 0, record { lines = []; failed = true })
  | ◌∷◌ line rest ↦
      let (is_number, behind) = number_front line in
      let (value, overflow) = clamp (atoi line) in
      if is_number
      then (value, record { lines = behind ∷ rest; failed = overflow })
      else (pos 0, record { lines = behind ∷ rest; failed = true })
])

-- `cin.get()`
unfoldable pub get_char : Terminal → Terminal
get_char t = if t.failed then t else (elim t.lines [
  | [] ↦ record t { failed = true }
  | ◌∷◌ line rest ↦ (elim line [
    | [] ↦ record t { lines = rest }
    | ◌∷◌ c s ↦ record t { lines = s ∷ rest }
  ])
])

unfoldable pub choose : Terminal → ℤ × Terminal
choose t = let (n, t') = read_int t in (n, get_char t')

-- What one round of the loop of `main` is given: whether `send` succeeds, what the receiving thread
-- does until `sem_wait` returns, and the rounds of the main menu behind a login.
pub record Round : Type 0 where
  pub delivered : Bool
  pub await : Client → Client
  pub menu : List (Bytes × Bool)

module _ ⦃J : JsonLib⦄ where
  unfoldable pub login_entry : Round → Terminal × Client → Terminal × Client
  login_entry r (t, c) =
      let (id, t1) = choose t in
      let (pwd, t2) = getline 50 t1 in
      let c1 = r.await (log_in id (c_str pwd) r.delivered c) in
      if c1.login_success then main_menu r.menu (t2, open_menu c1) else (t2, c1)

  unfoldable pub register_entry : Round → Terminal × Client → Terminal × Client
  register_entry r (t, c) =
      let (name, t1) = getline 50 t in
      let (pwd, t2) = getline 50 t1 in
      (t2, r.await (sign_up (c_str name) (c_str pwd) r.delivered c))

  -- `none`: the quit entry, which ends the program.
  unfoldable pub main_round : Round → Terminal × Client → Option (Terminal × Client)
  main_round r (t, c) =
      let (choice, t1) = choose t in
      if choice ==ℤ pos 1
      then some (login_entry r (t1, c))
      else if choice ==ℤ pos 2
      then some (register_entry r (t1, c))
      else if choice ==ℤ pos 3
      then none
      else some (t1, display invalid_input c)

  unfoldable pub main_loop : List Round → Terminal × Client → Option (Terminal × Client)
  main_loop [] s = some s
  main_loop (r ∷ rounds) s = do s' ← main_round r s; main_loop rounds s'
