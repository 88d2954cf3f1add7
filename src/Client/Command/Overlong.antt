-- ===== src/Client/Command/Overlong.antt =====
-- What `mainMenu` does behind a line that does not fit into its buffer.
use cluster_chat_server.Prelude.{
  ℕ, suc, ◌≤◌, ◌≡◌, refl, List, [], ◌∷◌, ◌++◌, Bool, true, false, arith, length, replicate, ap, ◌∙◌,
  sym, ltb, subst, drop,
}
use mathlib.Core.List.{append_assoc, append-nil}
use cluster_chat_server.Prelude.Text.{Bytes, bytes_eq, c_str}
use cluster_chat_server.Json.{JsonLib}
use cluster_chat_server.Client.{Client, invalid_command, display}
use cluster_chat_server.Client.Command.{
  Terminal, getline, find_colon, substr, parse_line, handler_of, command_handler_map, run_command,
  run_line, menu_round, main_menu,
}

module _ ⦃J : JsonLib⦄ where
  empty_line :
      (time : Bytes) (delivered : Bool) (c : Client)
      → run_line [] time delivered c ≡ display invalid_command c
  unfolding run_line c_str parse_line find_colon substr run_command handler_of command_handler_map
      bytes_eq
  empty_line time delivered c = refl

  abbrev failed_with : List Bytes → Terminal
  failed_with lines = record { lines = lines; failed = true }

  failed_round :
      (time : Bytes) (delivered : Bool) (lines : List Bytes) (c : Client)
      → menu_round time delivered (failed_with lines, c)
        ≡ (failed_with lines, display invalid_command c)
  unfolding menu_round getline
  failed_round time delivered lines c =
      ap (λ d. (failed_with lines, d)) (empty_line time delivered c)

  next_round :
      (time : Bytes) (delivered : Bool) (rounds : List (Bytes × Bool)) (t : Terminal) (c : Client)
      → c.menu_running ≡ true
      → main_menu ((time, delivered) ∷ rounds) (t, c)
        ≡ main_menu rounds (menu_round time delivered (t, c))
  unfolding main_menu
  next_round time delivered rounds t c h = rw h refl

  abbrev pub complains : ℕ → Client → Client
  complains n c = record c { shown = c.shown ++ replicate n invalid_command }

  complains_more :
      (n : ℕ) (c : Client) → complains n (display invalid_command c) ≡ complains (suc n) c
  unfolding display
  complains_more n c =
      ap (λ shown. record c { shown = shown })
        (append_assoc c.shown (invalid_command ∷ []) (replicate n invalid_command))

  failed_menu :
      (rounds : List (Bytes × Bool)) (lines : List Bytes) (c : Client)
      → c.menu_running ≡ true
      → main_menu rounds (failed_with lines, c) ≡ (failed_with lines, complains (length rounds) c)
  unfolding main_menu display
  failed_menu [] lines c k =
      ap (λ shown. (failed_with lines, record c { shown = shown })) (sym (append-nil c.shown))
  failed_menu ((time, delivered) ∷ rounds) lines c k =
      next_round time delivered rounds (failed_with lines) c k
      ∙ ap (main_menu rounds) (failed_round time delivered lines c)
      ∙ failed_menu rounds lines (display invalid_command c) k
      ∙ ap (λ d. (failed_with lines, d)) (complains_more (length rounds) c)

  overlong_round :
      (line : Bytes) (lines : List Bytes) (time : Bytes) (delivered : Bool) (c : Client)
      → 1024 ≤ length line
      → (menu_round time delivered (record { lines = line ∷ lines; failed = false }, c)).0
        ≡ failed_with (drop 1023 line ∷ lines)
  unfolding menu_round getline
  overlong_round line lines time delivered c long =
      let too_long : ltb (length line) 1024 ≡ false = ground (arith, long) in rw too_long refl

  -- Behind a line of 1024 bytes or more, if its command leaves the menu open, all further rounds take
  -- nothing from the terminal and do nothing but show that the command is invalid: however many
  -- they are, nothing is sent and the menu stays open.
  pub overlong_stuck :
      (line : Bytes) (lines : List Bytes) (time : Bytes) (delivered : Bool) (c : Client)
      (rounds : List (Bytes × Bool))
      → 1024 ≤ length line
      → let first =
          menu_round time delivered (record { lines = line ∷ lines; failed = false }, c) in
        first.1.menu_running ≡ true
        → main_menu rounds first ≡ (first.0, complains (length rounds) first.1)
  overlong_stuck line lines time delivered c rounds long running =
      let first = menu_round time delivered (record { lines = line ∷ lines; failed = false }, c) in
      let e = overlong_round line lines time delivered c long in
      subst
        (λ (t : Terminal). main_menu rounds (t, first.1) ≡ (t, complains (length rounds) first.1))
        (sym e) (failed_menu rounds (drop 1023 line ∷ lines) first.1 running)
