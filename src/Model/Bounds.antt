-- ===== src/Model/Bounds.antt =====
-- Which SQL statements fit into their buffers.
use cluster_chat_server.Prelude.{
  ℕ, ◌+◌, ◌-◌, ◌≤◌, ◌≡◌, ◌++◌, ◌∷◌, ℤ, arith, length, take, take-all, length-append, ap, ◌∙◌, zero,
  suc, [], take-append,
}
use cluster_chat_server.Prelude.Text.{Bytes, codes, show, snprintf, c_str}
use cluster_chat_server.Prelude.Digits.{length-show}
use cluster_chat_server.Model.User
use cluster_chat_server.Model.Friend
use cluster_chat_server.Model.Group
use cluster_chat_server.Model.Offline

snprintf-short : (text : Bytes) → length text ≤ 1023 → snprintf text ≡ text
unfolding snprintf
snprintf-short text h = take-all 1023 text h

one_id : (text : Bytes) (id : ℤ) → length text ≤ 1000 → snprintf (text ++ show id) ≡ text ++ show id
one_id text id h =
    snprintf-short (text ++ show id)
      (omega (arith, length-append text (show id), length-show id, h))

two_ids :
    (a b c : Bytes) (i j : ℤ)
    → length a + length b + length c ≤ 900
    → snprintf (a ++ (show i ++ (b ++ (show j ++ c)))) ≡ a ++ (show i ++ (b ++ (show j ++ c)))
two_ids a b c i j h = snprintf-short (a ++ (show i ++ (b ++ (show j ++ c)))) (
    omega (
      arith,
      length-append a (show i ++ (b ++ (show j ++ c))),
      length-append (show i) (b ++ (show j ++ c)),
      length-append b (show j ++ c),
      length-append (show j) c,
      length-show i,
      length-show j,
      h,
    ))

two_last :
    (a b : Bytes) (i j : ℤ)
    → length a + length b ≤ 900
    → snprintf (a ++ (show i ++ (b ++ show j))) ≡ a ++ (show i ++ (b ++ show j))
two_last a b i j h = snprintf-short (a ++ (show i ++ (b ++ show j))) (
    omega (
      arith,
      length-append a (show i ++ (b ++ show j)),
      length-append (show i) (b ++ show j),
      length-append b (show j),
      length-show i,
      length-show j,
      h,
    ))

take-behind : (n k : ℕ) (xs ys : Bytes) → n ≡ length xs + k → take n (xs ++ ys) ≡ xs ++ take k ys
take-behind n k [] ys e = ap (λ m. take m ys) (let p : n ≡ k = omega (arith, e) in p)
take-behind zero k (x ∷ xs) ys e = absurd (omega (arith, e))
take-behind (suc n) k (x ∷ xs) ys e = ap (◌∷◌ x) (take-behind n k xs ys (omega (arith, e)))

abbrev pub select_groups : Bytes
select_groups =
    codes
      "select a.id, a.groupname, a.groupdesc from AllGroup a         inner join GroupUser b on a.id = b.groupid where b.userid="

abbrev pub select_members : Bytes
select_members =
    codes
      "select a.id, a.name, a.state, b.grouprole from User a             inner join GroupUser b on a.id = b.userid where b.groupid = "

abbrev pub select_friends : Bytes
select_friends =
    codes
      "select a.id,a.name,a.state from User a inner join Friend b on b.friendid = a.id where b.userid="

-- Whatever the ids, no statement that is built from ids alone is cut off by its buffer: it is the
-- whole text of its format string.
pub numeric_whole :
    (i j : ℤ)
    → (User.query_sql i ≡ codes "select * from User where id = " ++ show i)
      × (Offline.remove_sql i ≡ codes "delete from OfflineMessage  where userid = " ++ show i)
      × (Offline.query_sql i
          ≡ codes "select message from OfflineMessage  where userid = " ++ show i)
      × (Friend.query_sql i ≡ select_friends ++ show i)
      × (Group.groups_sql i ≡ select_groups ++ show i)
      × (Group.members_sql i ≡ select_members ++ show i)
      × (Friend.insert_sql i j
          ≡ codes "insert into Friend values ('"
            ++ (show i ++ (codes "', '" ++ (show j ++ codes "')"))))
      × (Group.group_users_sql i j
          ≡ codes "select userid from GroupUser where groupid = "
            ++ (show j ++ (codes " and userid != " ++ show i)))
unfolding User.query_sql Offline.remove_sql Offline.query_sql Friend.query_sql Group.groups_sql
    Group.members_sql Friend.insert_sql Group.group_users_sql
numeric_whole i j = (
  one_id (codes "select * from User where id = ") i (omega arith),
  one_id (codes "delete from OfflineMessage  where userid = ") i (omega arith),
  one_id (codes "select message from OfflineMessage  where userid = ") i (omega arith),
  one_id select_friends i (omega arith),
  one_id select_groups i (omega arith),
  one_id select_members i (omega arith),
  two_ids (codes "insert into Friend values ('") (codes "', '") (codes "')") i j (omega arith),
  two_last (codes "select userid from GroupUser where groupid = ") (codes " and userid != ") j i
      (omega arith),
)

-- A message of 983 bytes or more does not fit: the statement that stores it ends inside the
-- message, without the quote and the bracket that close it, so it ends like that of any longer
-- message with the same front.
pub long_message_cut :
    (id : ℤ) (msg : Bytes)
    → 983 ≤ length (c_str msg)
    → Offline.insert_sql id msg
      ≡ codes "insert into OfflineMessage values ('"
        ++ (show id ++ (codes "', '" ++ take (983 - length (show id)) (c_str msg)))
unfolding Offline.insert_sql Offline.insert_text snprintf
long_message_cut id msg h =
    let short = length-show id in
    let room = 983 - length (show id) in
    take-behind 1023 987 (codes "insert into OfflineMessage values ('") _ (omega arith)
    ∙ ap (λ t. codes "insert into OfflineMessage values ('" ++ t)
        (take-behind 987 (4 + room) (show id) _ (omega (arith, short))
          ∙ ap (λ t. show id ++ t)
              (take-behind (4 + room) room (codes "', '") _ (omega arith)
                ∙ ap (λ t. codes "', '" ++ t)
                    (take-append room (c_str msg) (codes "')") (omega (arith, h)))))
