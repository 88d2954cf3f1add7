-- ===== src/Client/Main/Typed.antt =====
-- What the user types at the menu of `main`, and what it leads to.
use cluster_chat_server.Prelude.{
  ℕ, zero, suc, ◌+◌, ◌/◌, ◌%◌, ◌^◌, ◌≡◌, ◌≢◌, ◌<◌, refl, ap, ◌∙◌, List, [], ◌∷◌, ◌++◌, true, false,
  Bool-cases, inl, inr, some, arith, length, ltb, ℤ, pos, negsuc, IsInt, if◌then◌else◌,
}
use cluster_chat_server.Prelude.Text.{Bytes, codes, is_digit, skip_spaces, emit, show, atoi-show}
use cluster_chat_server.Prelude.Avoid.{Avoids, c_str-Avoids}
use cluster_chat_server.Json.{JsonLib}
use cluster_chat_server.Client.{Client, wire, login_request, log_in, transmit, open_menu}
use cluster_chat_server.Client.Command.{Terminal, getline, main_menu}
use cluster_chat_server.Client.Main.{
  Round, choose, read_int, get_char, skip_blank, number_front, drop_digits, starts_digit, clamp,
  login_entry, main_round,
}
use cluster_chat_server.Client.Main.Stuck.{fresh_with}

drop_digits-emit : (f n : ℕ) (out : Bytes) → drop_digits (emit f n out) ≡ drop_digits out
unfolding emit drop_digits is_digit
drop_digits-emit zero n out = refl
drop_digits-emit (suc f) n out = elim (Bool-cases (ltb n 10)) [
  | inl e ↦ rw e (ground arith)
  | inr e ↦ rw e (drop_digits-emit f (n / 10) ((b'0' + n % 10) ∷ out) ∙ ground arith)
]

starts_emit : (f n : ℕ) (out : Bytes) → starts_digit out ≡ true → starts_digit (emit f n out) ≡ true
unfolding emit is_digit
starts_emit zero n out h = h
starts_emit (suc f) n out h = elim (Bool-cases (ltb n 10)) [
  | inl e ↦ rw e (ground arith)
  | inr e ↦ rw e (starts_emit f (n / 10) ((b'0' + n % 10) ∷ out) (ground arith))
]

starts_number : (f n : ℕ) → starts_digit (emit (suc f) n []) ≡ true
unfolding emit is_digit
starts_number f n = elim (Bool-cases (ltb n 10)) [
  | inl e ↦ rw e (ground arith)
  | inr e ↦ rw e (starts_emit f (n / 10) ((b'0' + n % 10) ∷ []) (ground arith))
]

-- A text that is a number and nothing else, with nothing to skip in front.
record IsNumber (t : Bytes) : Type 0 where
  whole : number_front t ≡ (true, [])
  at_once : skip_spaces t ≡ t
  some_text : t ≢ []

digits-IsNumber : (t : Bytes) → starts_digit t ≡ true → drop_digits t ≡ [] → IsNumber t
unfolding number_front skip_spaces is_digit drop_digits
digits-IsNumber [] h e = ground arith
digits-IsNumber (c ∷ s) h e = record {
  whole = ground (arith, h, e);
  at_once = ground (arith, h);
  some_text = λ p. cc;
}

show-IsNumber : (i : ℤ) → IsNumber (show i)
unfolding show number_front skip_spaces drop_digits
show-IsNumber (pos n) =
    digits-IsNumber (emit 10 n []) (starts_number 9 n) (drop_digits-emit 10 n [])
show-IsNumber (negsuc n) = record {
  whole = rw (starts_number 9 (suc n), drop_digits-emit 10 (suc n) []) refl;
  at_once = refl;
  some_text = λ p. cc;
}

number_kept : (t : Bytes) (rest : List Bytes) → IsNumber t → skip_blank (t ∷ rest) ≡ t ∷ rest
unfolding skip_blank
number_kept [] rest h = absurd (h.some_text refl)
number_kept (c ∷ s) rest h = rw (skip_blank, h.at_once) refl

clamp-int : (i : ℤ) → IsInt i → clamp i ≡ (i, false)
unfolding clamp
clamp-int (pos n) h = let e : ltb n (2 ^ 31) ≡ true = ground arith in rw e refl
clamp-int (negsuc n) h = let e : ltb n (2 ^ 31) ≡ true = ground arith in rw e refl

read_typed :
    (i : ℤ) (rest : List Bytes)
    → IsInt i
    → read_int (fresh_with (show i ∷ rest)) ≡ (i, fresh_with ([] ∷ rest))
unfolding read_int
read_typed i rest h =
    let n = show-IsNumber i in
    rw (number_kept (show i) rest n, read_int, n.whole, atoi-show i h, clamp-int i h) refl

-- A line with a number is taken whole.
choose_typed :
    (i : ℤ) (rest : List Bytes)
    → IsInt i
    → choose (fresh_with (show i ∷ rest)) ≡ (i, fresh_with rest)
unfolding choose get_char
choose_typed i rest h = ap (λ (p : ℤ × Terminal). (p.0, get_char p.1)) (read_typed i rest h)

one_typed : (rest : List Bytes) → choose (fresh_with (codes "1" ∷ rest)) ≡ (pos 1, fresh_with rest)
unfolding show emit
one_typed rest = choose_typed (pos 1) rest (omega arith)

line_typed :
    (line : Bytes) (rest : List Bytes)
    → length line < 50
    → getline 50 (fresh_with (line ∷ rest)) ≡ (line, fresh_with rest)
unfolding getline
line_typed line rest h = let e : ltb (length line) 50 ≡ true = ground (arith, h) in rw e refl

module _ ⦃J : JsonLib⦄ where
  abbrev asked : ℤ → Bytes → Client → Client
  asked id pwd c = record c {
    login_success = false;
    sent = c.sent ++ wire (login_request id pwd) ∷ [];
  }

  logged_in : (id : ℤ) (pwd : Bytes) (c : Client) → log_in id pwd true c ≡ asked id pwd c
  unfolding log_in transmit
  logged_in id pwd c = refl

  entry_typed :
      (id : ℤ) (pwd : Bytes) (rest : List Bytes) (r : Round) (c : Client)
      → IsInt id
      → length pwd < 50
      → Avoids 0 pwd
      → r.delivered ≡ true
      → login_entry r (fresh_with (show id ∷ pwd ∷ rest), c) ≡ (
          let d = r.await (asked id pwd c) in
          if d.login_success
          then main_menu r.menu (fresh_with rest, open_menu d)
          else (fresh_with rest, d))
  unfolding login_entry
  entry_typed id pwd rest r c i short plain delivered =
      rw
        (
          login_entry,
          choose_typed id (pwd ∷ rest) i,
          line_typed pwd rest short,
          c_str-Avoids pwd plain,
          delivered,
          logged_in id pwd c,
        )
        refl

  entered :
      (id : ℤ) (pwd : Bytes) (rest : List Bytes) (r : Round) (c : Client)
      → IsInt id
      → length pwd < 50
      → Avoids 0 pwd
      → r.delivered ≡ true
      → main_round r (fresh_with (codes "1" ∷ show id ∷ pwd ∷ rest), c)
        ≡ some (
            let d = r.await (asked id pwd c) in
            if d.login_success
            then main_menu r.menu (fresh_with rest, open_menu d)
            else (fresh_with rest, d))
  unfolding main_round
  entered id pwd rest r c i short plain delivered =
      rw (main_round, one_typed (show id ∷ pwd ∷ rest))
        (ap some (entry_typed id pwd rest r c i short plain delivered))

  -- A user who types 1, an id that is an `int`, and a password of fewer than 50 bytes without NUL,
  -- each on a line: if `send` succeeds, the request to log this id in with this password is sent,
  -- once and with the note that no login has succeeded; when the receiving thread has answered, the
  -- main menu runs exactly if it noted a success, on the lines that follow.
  pub login_typed :
      (id : ℤ) (pwd : Bytes) (rest : List Bytes) (r : Round) (c : Client)
      → IsInt id
      → length pwd < 50
      → Avoids 0 pwd
      → r.delivered ≡ true
      → (c' : Client) × (c'.sent ≡ c.sent ++ wire (login_request id pwd) ∷ [])
        × (c'.login_success ≡ false)
        × (main_round r (fresh_with (codes "1" ∷ show id ∷ pwd ∷ rest), c)
            ≡ some (
                if (r.await c').login_success
                then main_menu r.menu (fresh_with rest, open_menu (r.await c'))
                else (fresh_with rest, r.await c')))
  login_typed id pwd rest r c i short plain delivered =
      (asked id pwd c, refl, refl, entered id pwd rest r c i short plain delivered)
