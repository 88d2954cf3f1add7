-- ===== src/Client/Command.antt =====
-- The commands of the main menu: how a line is split, and what each handler does.
pub mod Split
pub mod Overlong
use cluster_chat_server.Prelude.{
  ℕ, zero, suc, ◌+◌, ◌-◌, List, [], ◌∷◌, Bool, true, false, Option, none, some, if◌then◌else◌, ◌==◌,
  ltb, take, drop, length,
}
use cluster_chat_server.Prelude.Text.{Bytes, codes, bytes_eq, c_str, atoi}
use cluster_chat_server.Json.{JsonLib, Json}
use cluster_chat_server.Client.{
  Client, Shown, commands, invalid_command, invalid_arguments, display, transmit,
  add_friend_request, chat_request, create_group_request, add_group_request, group_chat_request,
  loginout_request,
}

-- `str.find(":")`; `none` is the -1 of the `int` that holds it.
unfoldable pub find_colon : Bytes → Option ℕ
find_colon [] = none
find_colon (c ∷ s) =
    let rest = find_colon s in
    if c == b':' then some 0 else (elim rest [ none ↦ none | some i ↦ some (suc i) ])

-- `str.substr(pos, count)`, for a position in range.
unfoldable pub substr : ℕ → ℕ → Bytes → Bytes
substr pos count s = take count (drop pos s)

-- The front and the back of a text around a colon at `idx`.
unfoldable pub before : ℕ → Bytes → Bytes
unfolding substr
before idx s = substr 0 idx s

unfoldable pub behind : ℕ → Bytes → Bytes
unfolding substr
behind idx s = substr (suc idx) (length s - idx) s

-- The command of a line and its arguments; without a colon the arguments are the whole line.
unfoldable pub parse_line : Bytes → Bytes × Bytes
unfolding before behind substr
parse_line line = elim (find_colon line) [
  | none ↦ (line, substr 0 (length line + 1) line)
  | some idx ↦ (before idx line, behind idx line)
]

-- Standard input, as `getline` reads it: the lines to come, and whether `failbit` is set.
pub record Terminal : Type 0 where
  pub lines : List Bytes
  pub failed : Bool

-- `cin.getline(buffer, size)`: after a failure, at the end of the input, or on a line that does not
-- fit, `failbit` is set.
unfoldable pub getline : ℕ → Terminal → Bytes × Terminal
getline size t = if t.failed then ([], t) else (elim t.lines [
  | [] ↦ ([], record t { failed = true })
  | ◌∷◌ line rest ↦
      if ltb (length line) size
      then (line, record t { lines = rest })
      else (take (size - 1) line, record t { lines = drop (size - 1) line ∷ rest; failed = true })
])

module _ ⦃J : JsonLib⦄ where
  -- A handler: the arguments, the time, whether `send` succeeds.
  abbrev pub Handler : Type 0
  Handler = Bytes → Bytes → Bool → Client → Client

  unfoldable pub help : Handler
  help str time delivered c = display commands c

  unfoldable pub addfriend : Handler
  addfriend str time delivered c =
      transmit delivered (add_friend_request c.current_user.id (atoi (c_str str))) c

  unfoldable pub chat : Handler
  chat str time delivered c = elim (find_colon str) [
    | none ↦ display invalid_arguments c
    | some idx ↦
        transmit delivered
          (chat_request c.current_user (atoi (c_str (before idx str))) (behind idx str) time) c
  ]

  unfoldable pub creategroup : Handler
  creategroup str time delivered c = elim (find_colon str) [
    | none ↦ display invalid_arguments c
    | some idx ↦
        transmit delivered
          (create_group_request c.current_user.id (before idx str) (behind idx str)) c
  ]

  unfoldable pub addgroup : Handler
  addgroup str time delivered c =
      transmit delivered (add_group_request c.current_user.id (atoi (c_str str))) c

  unfoldable pub groupchat : Handler
  groupchat str time delivered c = elim (find_colon str) [
    | none ↦ display invalid_arguments c
    | some idx ↦
        transmit delivered
          (group_chat_request c.current_user (atoi (c_str (before idx str))) (behind idx str) time)
          c
  ]

  unfoldable pub loginout : Handler
  loginout str time delivered c =
      let c' = transmit delivered (loginout_request c.current_user.id) c in
      if delivered then record c' { menu_running = false } else c'

  -- `commandHandlerMap`
  unfoldable pub command_handler_map : List (Bytes × Handler)
  command_handler_map =
      (codes "help", help)
      ∷ (codes "chat", chat)
      ∷ (codes "addfriend", addfriend)
      ∷ (codes "creategroup", creategroup)
      ∷ (codes "addgroup", addgroup)
      ∷ (codes "groupchat", groupchat)
      ∷ (codes "loginout", loginout)
      ∷ []

  unfoldable pub handler_of : Bytes → List (Bytes × Handler) → Option Handler
  handler_of command [] = none
  handler_of command ((name, handler) ∷ rest) =
      let other = handler_of command rest in if bytes_eq name command then some handler else other

  -- The handler of a command is called with its arguments.
  unfoldable pub run_command : Bytes × Bytes → Bytes → Bool → Client → Client
  run_command (command, arguments) time delivered c =
      elim (handler_of command command_handler_map) [
        | none ↦ display invalid_command c
        | some handler ↦ handler arguments time delivered c
      ]

  -- One line of the menu.
  unfoldable pub run_line : Bytes → Bytes → Bool → Client → Client
  run_line line time delivered c = run_command (parse_line (c_str line)) time delivered c

  -- One round of the loop of `mainMenu`, given the time and whether `send` succeeds.
  unfoldable pub menu_round : Bytes → Bool → Terminal × Client → Terminal × Client
  menu_round time delivered (t, c) =
      let (line, t') = getline 1024 t in (t', run_line line time delivered c)

  -- The loop, run for one round for each time and answer of `send` in the list, as long as the menu
  -- is open.
  unfoldable pub main_menu : List (Bytes × Bool) → Terminal × Client → Terminal × Client
  unfolding menu_round
  main_menu [] (t, c) = (t, c)
  main_menu ((time, delivered) ∷ rounds) (t, c) =
      let next = main_menu rounds (menu_round time delivered (t, c)) in
      if c.menu_running then next else (t, c)
