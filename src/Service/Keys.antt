-- ===== src/Service/Keys.antt =====
-- The connection map is a map: no key occurs twice, and `insert` and `erase` change one key.
use cluster_chat_server.Prelude.{
  ◌≡◌, [], ◌∷◌, Option, none, some, arith, if◌then◌else◌, ℤ, ◌==ℤ◌, ==ℤ_iff,
}
use cluster_chat_server.Service.State.{Conn, ConnMap, find, insert, erase, key_of}

-- No key occurs twice.
abbrev pub Distinct : ConnMap → Type 0
Distinct [] = Unit {0}
Distinct ((key, c) ∷ m) = (find key m ≡ none) × Distinct m

-- What a lookup finds, or else what is put there.
abbrev pub or_else : Option Conn → Option Conn → Option Conn
or_else none other = other
or_else (some c) other = some c

pub find-insert :
    (id j : ℤ) (c : Conn) (m : ConnMap)
    → find j (insert id c m) ≡ or_else (find j m) (if id ==ℤ j then some c else none)
unfolding find insert
find-insert id j c [] = ground arith
find-insert id j c ((key, d) ∷ m) =
    ground (arith, ==ℤ_iff key id, ==ℤ_iff key j, ==ℤ_iff id j, find-insert id j c m)

pub find-erase :
    (id j : ℤ) (m : ConnMap)
    → Distinct m
    → find j (erase id m) ≡ (if id ==ℤ j then none else find j m)
unfolding find erase
find-erase id j [] d = ground arith
find-erase id j ((key, c) ∷ m) d =
    ground (arith, ==ℤ_iff key id, ==ℤ_iff key j, ==ℤ_iff id j, find-erase id j m d.1)

pub insert-Distinct : (id : ℤ) (c : Conn) (m : ConnMap) → Distinct m → Distinct (insert id c m)
unfolding insert find
insert-Distinct id c [] d = ground arith
insert-Distinct id c ((key, e) ∷ m) d =
    ground
      (arith, ==ℤ_iff key id, ==ℤ_iff id key, insert-Distinct id c m d.1, find-insert id key c m)

pub erase-Distinct : (id : ℤ) (m : ConnMap) → Distinct m → Distinct (erase id m)
unfolding erase
erase-Distinct id [] d = tt
erase-Distinct id ((key, e) ∷ m) d =
    ground (arith, ==ℤ_iff key id, erase-Distinct id m d.1, find-erase id key m d.1)

-- The search by connection finds a key of the map.
pub find-key_of :
    (conn : Conn) (m : ConnMap) (id : ℤ)
    → Distinct m
    → key_of conn m ≡ some id
    → find id m ≡ some conn
unfolding find key_of
find-key_of conn [] id d e = ground arith
find-key_of conn ((key, c) ∷ m) id d e = ground (arith, ==ℤ_iff key id, find-key_of conn m id d.1)
