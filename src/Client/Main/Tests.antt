-- ===== src/Client/Main/Tests.antt =====
-- The menu of `main`, run.
use cluster_chat_server.Prelude.{◌≡◌, refl, [], ◌∷◌, true, false, some, arith, pos, if◌then◌else◌}
use cluster_chat_server.Prelude.Text.{codes, show, emit, is_digit}
use cluster_chat_server.Prelude.Avoid.{Avoids}
use cluster_chat_server.Service.Toy.{toy_json}
use cluster_chat_server.Client.{Client, start, wire, login_request, open_menu}
use cluster_chat_server.Client.Command.{main_menu}
use cluster_chat_server.Client.Main.{Round, main_round, main_loop}
use cluster_chat_server.Client.Main.Stuck.{fresh_with, failed_with, refuses, typo_stuck}
use cluster_chat_server.Client.Main.Typed.{login_typed}

-- The receiving thread notes nothing.
abbrev quiet : Round
quiet = record { delivered = true; await = λ c. c; menu = [] }

typo_stuck_example :
    main_loop ⦃J = toy_json⦄
      (quiet ∷ quiet ∷ quiet ∷ [])
      (fresh_with (codes "login" ∷ codes "1" ∷ []), start)
    ≡ some (failed_with (codes "login" ∷ codes "1" ∷ []), refuses 3 start)
unfolding is_digit
typo_stuck_example =
    typo_stuck ⦃J = toy_json⦄ b'l' (codes "ogin") (codes "1" ∷ []) start quiet (quiet ∷ quiet ∷ [])
      refl

pw-Avoids : Avoids 0 (codes "pw")
pw-Avoids = ((λ p. omega (arith, p)), ((λ p. omega (arith, p)), tt))

login_typed_example :
    (c' : Client) × (c'.sent
      ≡ wire ⦃J = toy_json⦄ (login_request ⦃J = toy_json⦄ (pos 22) (codes "pw")) ∷ [])
    × (c'.login_success ≡ false)
    × (main_round ⦃J = toy_json⦄ quiet
          (fresh_with (codes "1" ∷ codes "22" ∷ codes "pw" ∷ codes "help" ∷ []), start)
        ≡ some (
            if c'.login_success
            then main_menu ⦃J = toy_json⦄ [] (fresh_with (codes "help" ∷ []), open_menu c')
            else (fresh_with (codes "help" ∷ []), c')))
unfolding start show emit
login_typed_example =
    login_typed ⦃J = toy_json⦄ (pos 22) (codes "pw") (codes "help" ∷ []) quiet start (omega arith)
      (omega arith) pw-Avoids refl
