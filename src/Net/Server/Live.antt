-- ===== src/Net/Server/Live.antt =====
-- The connection map of a server against what it asked of its loops.
use cluster_chat_server.Prelude.{
  ℕ, ◌≤◌, ◌<◌, ◌^◌, ◌≡◌, ◌≢◌, refl, List, [], ◌∷◌, ◌++◌, map, false, none, if◌then◌else◌, arith,
  length, ap, ◌∙◌, sym, subst, Bool-cases, inl, inr,
}
use cluster_chat_server.Prelude.Text.{Bytes, bytes_eq, bytes_eq-eq, bytes_eq_refl}
use cluster_chat_server.Net.Server.{
  TcpConn, Task, listen, established, destroyed, ConnectionMap, connection_name, lookup, assign,
  erase,
}
use cluster_chat_server.Net.Server.Names.{Distinct, connection_name-injective}

abbrev pub entry : TcpConn → Bytes × TcpConn
entry c = (c.name, c)

-- The connections without those of a name.
abbrev pub without : Bytes → List TcpConn → List TcpConn
without name [] = []
without name (c ∷ cs) =
    let rest = without name cs in if bytes_eq c.name name then rest else c ∷ rest

-- The connections that are left when some were there and the loops have done what they were asked.
abbrev pub alive_from : List TcpConn → List (ℕ × Task) → List TcpConn
alive_from cs [] = cs
alive_from cs ((loop, listen) ∷ tasks) = alive_from cs tasks
alive_from cs ((loop, established c) ∷ tasks) = alive_from (cs ++ c ∷ []) tasks
alive_from cs ((loop, destroyed c) ∷ tasks) = alive_from (without c.name cs) tasks

abbrev pub alive : List (ℕ × Task) → List TcpConn
alive = alive_from []

-- Each key is the name of its connection, with a number below `next`.
abbrev pub Numbered : Bytes → Bytes → ℕ → ConnectionMap → Type 0
Numbered name ip_port next [] = Unit
Numbered name ip_port next ((k, c) ∷ m) =
    ((i : ℕ) × (i < next) × (k ≡ connection_name name ip_port i)) × Numbered name ip_port next m

pub differ : (x y : Bytes) → x ≢ y → bytes_eq x y ≡ false
differ x y h = elim (Bool-cases (bytes_eq x y)) [
  | inl e ↦ absurd (h (bytes_eq-eq x y e))
  | inr e ↦ e
]

pub alive_from-append :
    (cs : List TcpConn) (ts us : List (ℕ × Task))
    → alive_from cs (ts ++ us) ≡ alive_from (alive_from cs ts) us
alive_from-append cs [] us = refl
alive_from-append cs ((loop, listen) ∷ ts) us = alive_from-append cs ts us
alive_from-append cs ((loop, established c) ∷ ts) us = alive_from-append (cs ++ c ∷ []) ts us
alive_from-append cs ((loop, destroyed c) ∷ ts) us = alive_from-append (without c.name cs) ts us

pub map-append : (cs ds : List TcpConn) → map entry (cs ++ ds) ≡ map entry cs ++ map entry ds
map-append [] ds = refl
map-append (c ∷ cs) ds = ap (◌∷◌ (entry c)) (map-append cs ds)

pub without-absent :
    (name : Bytes) (cs : List TcpConn) → lookup name (map entry cs) ≡ none → without name cs ≡ cs
unfolding lookup
without-absent name [] h = refl
without-absent name (c ∷ cs) h = ground (arith, without-absent name cs)

pub erase-entries :
    (name : Bytes) (cs : List TcpConn)
    → Distinct (map entry cs)
    → erase name (map entry cs) ≡ map entry (without name cs)
unfolding erase
erase-entries name [] d = refl
erase-entries name (c ∷ cs) d = elim (Bool-cases (bytes_eq c.name name)) [
  | inl e ↦
      let same = bytes_eq-eq c.name name e in
      rw e (
        sym (
          ap (map entry)
            (without-absent name cs (subst (λ t. lookup t (map entry cs) ≡ none) same d.0))))
  | inr e ↦ rw e (ap (◌∷◌ (entry c)) (erase-entries name cs d.1))
]

pub assign-new :
    (key : Bytes) (c : TcpConn) (m : ConnectionMap)
    → lookup key m ≡ none
    → assign key c m ≡ m ++ (key, c) ∷ []
unfolding lookup assign
assign-new key c [] h = refl
assign-new key c ((k, d) ∷ m) h = ground (arith, assign-new key c m)

pub lookup-behind :
    (k key : Bytes) (c : TcpConn) (m : ConnectionMap)
    → lookup k m ≡ none
    → bytes_eq key k ≡ false
    → lookup k (m ++ (key, c) ∷ []) ≡ none
unfolding lookup
lookup-behind k key c [] h e = ground (arith, e)
lookup-behind k key c ((j, d) ∷ m) h e = ground (arith, h, e, lookup-behind k key c m)

pub absent_behind :
    (key k : Bytes) (e : TcpConn) (m : ConnectionMap)
    → lookup key ((k, e) ∷ m) ≡ none
    → (k ≢ key) × (lookup key m ≡ none)
unfolding lookup
absent_behind key k e m h = elim (Bool-cases (bytes_eq k key)) [
  | inl eq ↦ absurd (ground (arith, eq, h))
  | inr ne ↦ (
    (λ p. absurd (ground (arith, ne, ap (bytes_eq k) p, bytes_eq_refl k))),
    ground (arith, ne, h),
  )
]

pub Distinct-behind :
    (key : Bytes) (c : TcpConn) (m : ConnectionMap)
    → Distinct m
    → lookup key m ≡ none
    → Distinct (m ++ (key, c) ∷ [])
unfolding lookup
Distinct-behind key c [] d h = (refl, tt)
Distinct-behind key c ((k, e) ∷ m) d h =
    let other = absent_behind key k e m h in
    (
      lookup-behind k key c m d.0 (differ key k (λ p. other.0 (sym p))),
      Distinct-behind key c m d.1 other.1,
    )

pub Numbered-absent :
    (name ip_port : Bytes) (next : ℕ) (m : ConnectionMap)
    → length ip_port ≤ 27
    → next < 2 ^ 31
    → Numbered name ip_port next m
    → lookup (connection_name name ip_port next) m ≡ none
unfolding lookup
Numbered-absent name ip_port next [] s h ns = refl
Numbered-absent name ip_port next ((k, c) ∷ m) s h ((i, less, e), ns) =
    let differs : bytes_eq k (connection_name name ip_port next) ≡ false = differ k _ (λ p. omega (
      arith,
      less,
      connection_name-injective name ip_port i next s (omega (arith, less, h)) h (sym e ∙ p),
    )) in
    rw differs (Numbered-absent name ip_port next m s h ns)
