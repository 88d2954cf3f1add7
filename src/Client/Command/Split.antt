-- ===== src/Client/Command/Split.antt =====
-- A line is split at its first colon.
use cluster_chat_server.Prelude.{
  suc, ◌+◌, ◌-◌, ◌≡◌, refl, [], ◌∷◌, ◌++◌, none, some, arith, length, take, drop, length-append,
  take-all, ap, ◌∙◌,
}
use cluster_chat_server.Prelude.Text.{Bytes}
use cluster_chat_server.Prelude.Avoid.{Avoids}
use cluster_chat_server.Client.Command.{find_colon, substr, before, behind, parse_line}

pub find_colon-first : (a b : Bytes) → Avoids b':' a → find_colon (a ++ b':' ∷ b) ≡ some (length a)
unfolding find_colon
find_colon-first [] b h = refl
find_colon-first (x ∷ a) b h = ground (arith, h.0, find_colon-first a b h.1)

pub find_colon-none : (a : Bytes) → Avoids b':' a → find_colon a ≡ none
unfolding find_colon
find_colon-none [] h = refl
find_colon-none (x ∷ a) h = ground (arith, h.0, find_colon-none a h.1)

pub before_first : (a b : Bytes) → before (length a) (a ++ b':' ∷ b) ≡ a
unfolding before substr
before_first [] b = refl
before_first (x ∷ a) b = ap (◌∷◌ x) (before_first a b)

drop_first : (a b : Bytes) → drop (suc (length a)) (a ++ b':' ∷ b) ≡ b
drop_first [] b = refl
drop_first (x ∷ a) b = drop_first a b

pub behind_first : (a b : Bytes) → behind (length a) (a ++ b':' ∷ b) ≡ b
unfolding behind substr
behind_first a b =
    ap (take (length (a ++ b':' ∷ b) - length a)) (drop_first a b)
    ∙ take-all _ b (omega (arith, length-append a (b':' ∷ b)))

-- A line that begins with a command without a colon, and a colon, is read as this command with all
-- the rest as its arguments, further colons included; a line without a colon is a command that gets
-- the line itself.
pub parse_line_split :
    (a b : Bytes) → Avoids b':' a → (parse_line (a ++ b':' ∷ b) ≡ (a, b)) × (parse_line a ≡ (a, a))
unfolding parse_line substr
parse_line_split a b h = (
  rw (find_colon-first a b h, parse_line) (rw (before_first a b, behind_first a b)),
  rw (find_colon-none a h, parse_line) (ap (λ t. (a, t)) (take-all (length a + 1) a (omega arith))),
)
