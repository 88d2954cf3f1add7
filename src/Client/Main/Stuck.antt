-- ===== src/Client/Main/Stuck.antt =====
-- What the menu of `main` does behind an input that is no number.
use cluster_chat_server.Prelude.{
  ℕ, suc, ◌≡◌, refl, List, [], ◌∷◌, ◌++◌, Bool, true, false, some, arith, length, replicate, ap,
  ◌∙◌, sym, ◌||◌, ◌&&◌, ◌==◌, leb, pos,
}
use mathlib.Core.List.{append_assoc, append-nil}
use cluster_chat_server.Prelude.Text.{Bytes, is_digit, skip_spaces}
use cluster_chat_server.Json.{JsonLib}
use cluster_chat_server.Client.{Client, invalid_input, display}
use cluster_chat_server.Client.Command.{Terminal}
use cluster_chat_server.Client.Main.{
  Round, choose, read_int, get_char, skip_blank, number_front, drop_digits, main_round, main_loop,
}

abbrev pub failed_with : List Bytes → Terminal
failed_with lines = record { lines = lines; failed = true }

abbrev pub fresh_with : List Bytes → Terminal
fresh_with lines = record { lines = lines; failed = false }

-- The client that has been told so often that its input is invalid.
abbrev pub refuses : ℕ → Client → Client
refuses n c = record c { shown = c.shown ++ replicate n invalid_input }

-- White space, a sign or a digit.
abbrev pub may_start : ℕ → Bool
may_start c = (c == b' ' || (leb 9 c && leb c 13)) || (is_digit c || (c == b'-' || c == b'+'))

no_blank :
    (x : ℕ) (xs : Bytes) (lines : List Bytes)
    → may_start x ≡ false
    → skip_blank ((x ∷ xs) ∷ lines) ≡ (x ∷ xs) ∷ lines
unfolding skip_blank skip_spaces
no_blank x xs lines h =
    let e : (x == b' ' || (leb 9 x && leb x 13)) ≡ false = ground (arith, h) in
    rw (skip_blank, skip_spaces, e) refl

no_front : (x : ℕ) (xs : Bytes) → may_start x ≡ false → number_front (x ∷ xs) ≡ (false, x ∷ xs)
unfolding number_front drop_digits
no_front x xs h =
    let digit : is_digit x ≡ false = ground (arith, h) in
    let sign : (x == b'-' || x == b'+') ≡ false = ground (arith, h) in rw (sign, digit) refl

not_read :
    (x : ℕ) (xs : Bytes) (lines : List Bytes)
    → may_start x ≡ false
    → read_int (fresh_with ((x ∷ xs) ∷ lines)) ≡ (pos 0, failed_with ((x ∷ xs) ∷ lines))
unfolding read_int
not_read x xs lines h = rw (no_blank x xs lines h, read_int, no_front x xs h) refl

no_number :
    (x : ℕ) (xs : Bytes) (lines : List Bytes)
    → may_start x ≡ false
    → choose (fresh_with ((x ∷ xs) ∷ lines)) ≡ (pos 0, failed_with ((x ∷ xs) ∷ lines))
unfolding choose get_char
no_number x xs lines h =
    let e : read_int (fresh_with ((x ∷ xs) ∷ lines)) ≡ (pos 0, failed_with ((x ∷ xs) ∷ lines)) =
      not_read x xs lines h in
    rw e refl

no_more : (lines : List Bytes) → choose (failed_with lines) ≡ (pos 0, failed_with lines)
unfolding choose read_int get_char
no_more lines = refl

module _ ⦃J : JsonLib⦄ where
  -- A round in which no number is read.
  refused_round :
      (r : Round) (t : Terminal) (lines : List Bytes) (c : Client)
      → choose t ≡ (pos 0, failed_with lines)
      → main_round r (t, c) ≡ some (failed_with lines, display invalid_input c)
  unfolding main_round
  refused_round r t lines c e = rw e refl

  refuses_more : (n : ℕ) (c : Client) → refuses n (display invalid_input c) ≡ refuses (suc n) c
  unfolding display
  refuses_more n c =
      ap (λ shown. record c { shown = shown })
        (append_assoc c.shown (invalid_input ∷ []) (replicate n invalid_input))

  stuck :
      (rounds : List Round) (lines : List Bytes) (c : Client)
      → main_loop rounds (failed_with lines, c)
        ≡ some (failed_with lines, refuses (length rounds) c)
  unfolding main_loop
  stuck [] lines c =
      ap (λ shown. some (failed_with lines, record c { shown = shown })) (sym (append-nil c.shown))
  stuck (r ∷ rounds) lines c = rw (refused_round r (failed_with lines) lines c (no_more lines)) (
      stuck rounds lines (display invalid_input c)
      ∙ ap (λ d. some (failed_with lines, d)) (refuses_more (length rounds) c))

  -- At a line that starts with something else than white space, a sign or a digit, where the menu of
  -- login, register and quit waits for a choice: every round from then on reads nothing more, opens no
  -- entry, does not quit, and shows once that the input is invalid.
  pub typo_stuck :
      (x : ℕ) (xs : Bytes) (lines : List Bytes) (c : Client) (r : Round) (rounds : List Round)
      → may_start x ≡ false
      → main_loop (r ∷ rounds) (fresh_with ((x ∷ xs) ∷ lines), c)
        ≡ some (failed_with ((x ∷ xs) ∷ lines), refuses (suc (length rounds)) c)
  unfolding main_loop
  typo_stuck x xs lines c r rounds h =
      let line = (x ∷ xs) ∷ lines in
      rw (refused_round r (fresh_with line) line c (no_number x xs lines h)) (
        stuck rounds line (display invalid_input c)
        ∙ ap (λ d. some (failed_with line, d)) (refuses_more (length rounds) c))
