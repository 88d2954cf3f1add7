-- ===== src/Net/Server/Names.antt =====
-- The names of connections: two connections of a server never share one.
use cluster_chat_server.Prelude.{
  ℕ, ◌≤◌, ◌<◌, ◌^◌, ◌≡◌, [], ◌∷◌, ◌++◌, none, pos, arith, length, length-append, take-all, ap, ◌∙◌,
  sym,
}
use cluster_chat_server.Prelude.Text.{Bytes, show, atoi, atoi-show}
use cluster_chat_server.Prelude.Digits.{length-show}
use cluster_chat_server.Net.Server.{ConnectionMap, to_ip_port, connection_name, lookup}

-- No name occurs twice.
abbrev pub Distinct : ConnectionMap → Type 0
Distinct [] = Unit {0}
Distinct ((key, c) ∷ m) = (lookup key m ≡ none) × Distinct m

pub to_ip_port-short : (ip : Bytes) (port : ℕ) → length ip ≤ 15 → length (to_ip_port ip port) ≤ 27
unfolding to_ip_port
to_ip_port-short ip port h =
    omega (arith, length-append ip (b':' ∷ show (pos port)), length-show (pos port), h)

whole_name :
    (name ip_port : Bytes) (id : ℕ)
    → length ip_port ≤ 27
    → connection_name name ip_port id ≡ name ++ (b'-' ∷ (ip_port ++ b'#' ∷ show (pos id)))
unfolding connection_name
whole_name name ip_port id h =
    ap (λ t. name ++ t)
      (take-all 63 _
        (omega (arith, h, length-append ip_port (b'#' ∷ show (pos id)), length-show (pos id))))

cancel : (xs ys zs : Bytes) → xs ++ ys ≡ xs ++ zs → ys ≡ zs
cancel [] ys zs e = e
cancel (x ∷ xs) ys zs e = cancel xs ys zs cc

pub connection_name-injective :
    (name ip_port : Bytes) (i j : ℕ)
    → length ip_port ≤ 27
    → i < 2 ^ 31
    → j < 2 ^ 31
    → connection_name name ip_port i ≡ connection_name name ip_port j
    → i ≡ j
connection_name-injective name ip_port i j h a b e =
    let whole = sym (whole_name name ip_port i h) ∙ e ∙ whole_name name ip_port j h in
    let tails = cancel name _ _ whole in
    let behind : ip_port ++ b'#' ∷ show (pos i) ≡ ip_port ++ b'#' ∷ show (pos j) = cc in
    let shown = cancel ip_port _ _ behind in
    let digits : show (pos i) ≡ show (pos j) = cc in
    let read =
      sym (atoi-show (pos i) (omega (arith, a)))
      ∙ ap atoi digits
      ∙ atoi-show (pos j) (omega (arith, b)) in
    cc
