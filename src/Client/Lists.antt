-- ===== src/Client/Lists.antt =====
-- What the client reads out of the answer to a login: the friends and the groups.
use Prim.Native.String.{String}
use cluster_chat_server.Prelude.{
  ℕ, zero, suc, ◌≡◌, refl, ◌≢◌, false, Option, none, some, pos, IsInt, arith, List, ◌∷◌, [], ◌>>=◌,
  ◌==ℤ◌, map,
}
use cluster_chat_server.Prelude.Text.{Bytes, bytes_eq}
use cluster_chat_server.Json.{JsonLib, Json}
use cluster_chat_server.Json.Laws.{JsonLaws, same_key}
use cluster_chat_server.Model.Types.{User, GroupUser, Group, no_user}
use cluster_chat_server.Service.Session.{
  friend_json, member_json, group_json, with_friends, with_groups,
}
use cluster_chat_server.Client.{Client, current_data, display}
use cluster_chat_server.Client.Answer.{
  each, read_friend, read_member, read_group, take_friends, take_groups,
}

-- What the server tells of a user: not the password.
abbrev pub told : User → User
told u = record no_user { id = u.id; name = u.name; state = u.state }

abbrev pub told_member : GroupUser → GroupUser
told_member m = record { user = told m.user; role = m.role }

abbrev pub told_group : Group → Group
told_group g = record { id = g.id; name = g.name; desc = g.desc; users = map told_member g.users }

abbrev pub All {ℓ κ} : {A : Type ℓ} → (A → Type κ) → List A → Type κ
All P [] = Unit
All P (x ∷ xs) = P x × All P xs

abbrev pub IntUser : User → Type 0
IntUser u = IsInt u.id

abbrev pub IntGroup : Group → Type 0
IntGroup g = IsInt g.id × All (λ (m : GroupUser). IsInt m.user.id) g.users

-- What a list becomes: an empty one is not in the answer, and the old one stays.
abbrev pub or_old {ℓ} : {A : Type ℓ} → List A → List A → List A
or_old [] old = old
or_old (x ∷ xs) old = x ∷ xs

-- What the client is before the offline messages of an answer are shown.
abbrev pub informed : User → List User → List Group → Client → Client
informed user friends groups c = display current_data (record c {
  current_user = record c.current_user { id = user.id; name = user.name };
  friends = or_old (map told friends) c.friends;
  groups = or_old (map told_group groups) c.groups;
})

each-map {ℓ κ} :
    {A B : Type ℓ} (P : A → Type κ) (f : Bytes → Option B) (g : A → Bytes) (h : A → B)
    → ((a : A) → P a → f (g a) ≡ some (h a))
    → (xs : List A) → All P xs
    → each f (map g xs) ≡ some (map h xs)
each-map P f g h one [] all = refl
each-map P f g h one (x ∷ xs) all = rw (one x all.0, each-map P f g h one xs all.1) refl

pub not_zero : (n : ℕ) → n ≢ 0 → (pos n ==ℤ pos 0) ≡ false
not_zero zero h = absurd (h refl)
not_zero (suc n) h = ground arith

pub bind_some {ℓ} :
    {A : Type ℓ} (o : Option A) (f g : A → A)
    → (o >>= (λ x. some (f x)) >>= λ y. some (g y)) ≡ (o >>= λ x. some (g (f x)))
bind_some none f g = refl
bind_some (some x) f g = refl

module _ ⦃J : JsonLib⦄ (laws : JsonLaws J) where
  open laws use {
    int_same, int_int, int_string, int_strings, string_int, string_string, string_strings,
    strings_int, strings_string, strings_strings, contains_empty, contains_int, contains_string,
    contains_strings, parse_dump,
  }

  friend_read : (u : User) → IntUser u → read_friend (friend_json u) ≡ some (told u)
  unfolding read_friend friend_json same_key bytes_eq
  friend_read u i = simp (parse_dump, int_same, int_int, int_string, string_string, string_int, i)

  member_read :
      (m : GroupUser) → IsInt m.user.id → read_member (member_json m) ≡ some (told_member m)
  unfolding read_member member_json same_key bytes_eq
  member_read m i = simp (parse_dump, int_same, int_int, int_string, string_string, string_int, i)

  group_read : (g : Group) → IntGroup g → read_group (group_json g) ≡ some (told_group g)
  unfolding read_group group_json same_key bytes_eq
  group_read g (i, members) =
      let users =
        each-map (λ (m : GroupUser). IsInt m.user.id) read_member member_json told_member
          member_read g.users members in
      simp (
        parse_dump, int_same, int_int, int_string, int_strings, string_string, string_int,
        string_strings, strings_strings, i, users,
      )

  friends_each :
      (us : List User) → All IntUser us → each read_friend (map friend_json us) ≡ some (map told us)
  friends_each = each-map IntUser read_friend friend_json told friend_read

  groups_each :
      (gs : List Group)
      → All IntGroup gs
      → each read_group (map group_json gs) ≡ some (map told_group gs)
  groups_each = each-map IntGroup read_group group_json told_group group_read

  module _ (base : Json) where
    -- Other keys are read as in the rest.
    pub int_read :
        (k : String) (friends : List User) (groups : List Group)
        → same_key "friends" k ≡ false
        → same_key "groups" k ≡ false
        → J.get_int k (with_groups groups (with_friends friends base)) ≡ J.get_int k base
    unfolding with_friends with_groups
    int_read k [] [] a b = refl
    int_read k [] (g ∷ gs) a b = simp (int_strings, a, b)
    int_read k (u ∷ us) [] a b = simp (int_strings, a, b)
    int_read k (u ∷ us) (g ∷ gs) a b = simp (int_strings, a, b)

    pub string_read :
        (k : String) (friends : List User) (groups : List Group)
        → same_key "friends" k ≡ false
        → same_key "groups" k ≡ false
        → J.get_string k (with_groups groups (with_friends friends base)) ≡ J.get_string k base
    unfolding with_friends with_groups
    string_read k [] [] a b = refl
    string_read k [] (g ∷ gs) a b = simp (string_strings, a, b)
    string_read k (u ∷ us) [] a b = simp (string_strings, a, b)
    string_read k (u ∷ us) (g ∷ gs) a b = simp (string_strings, a, b)

    pub friends_taken :
        (friends : List User) (groups : List Group) (c : Client)
        → J.contains "friends" base ≡ false
        → All IntUser friends
        → take_friends (with_groups groups (with_friends friends base)) c
          ≡ some (record c { friends = or_old (map told friends) c.friends })
    unfolding take_friends with_friends with_groups same_key bytes_eq
    friends_taken [] [] c h all = simp (h)
    friends_taken [] (g ∷ gs) c h all = simp (h, contains_strings)
    friends_taken (u ∷ us) [] c h all =
        simp (contains_strings, strings_strings, friends_each (u ∷ us) all)
    friends_taken (u ∷ us) (g ∷ gs) c h all =
        simp (contains_strings, strings_strings, friends_each (u ∷ us) all)

    pub groups_taken :
        (friends : List User) (groups : List Group) (c : Client)
        → J.contains "groups" base ≡ false
        → All IntGroup groups
        → take_groups (with_groups groups (with_friends friends base)) c
          ≡ some (record c { groups = or_old (map told_group groups) c.groups })
    unfolding take_groups with_friends with_groups same_key bytes_eq
    groups_taken [] [] c h all = simp (h)
    groups_taken (u ∷ us) [] c h all = simp (h, contains_strings)
    groups_taken [] (g ∷ gs) c h all =
        simp (contains_strings, strings_strings, groups_each (g ∷ gs) all)
    groups_taken (u ∷ us) (g ∷ gs) c h all =
        simp (contains_strings, strings_strings, groups_each (g ∷ gs) all)
