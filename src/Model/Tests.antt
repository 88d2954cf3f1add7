-- ===== src/Model/Tests.antt =====
-- The statements of the models at concrete arguments.
use cluster_chat_server.Prelude.{◌-◌, ◌≤◌, ◌≡◌, ◌++◌, pos, negsuc, arith, length, take, replicate}
use cluster_chat_server.Prelude.Text.{Bytes, codes, show, c_str}
use cluster_chat_server.Model.User
use cluster_chat_server.Model.Friend
use cluster_chat_server.Model.Group
use cluster_chat_server.Model.Offline
use cluster_chat_server.Model.Bounds.{
  select_friends, select_groups, select_members, numeric_whole, long_message_cut,
}

numeric_whole_example :
    let i = negsuc 2147483647 in
    let j = pos 2147483647 in
    (User.query_sql i ≡ codes "select * from User where id = " ++ show i)
    × (Offline.remove_sql i ≡ codes "delete from OfflineMessage  where userid = " ++ show i)
    × (Offline.query_sql i ≡ codes "select message from OfflineMessage  where userid = " ++ show i)
    × (Friend.query_sql i ≡ select_friends ++ show i)
    × (Group.groups_sql i ≡ select_groups ++ show i)
    × (Group.members_sql i ≡ select_members ++ show i)
    × (Friend.insert_sql i j
        ≡ codes "insert into Friend values ('"
          ++ (show i ++ (codes "', '" ++ (show j ++ codes "')"))))
    × (Group.group_users_sql i j
        ≡ codes "select userid from GroupUser where groupid = "
          ++ (show j ++ (codes " and userid != " ++ show i)))
numeric_whole_example = numeric_whole (negsuc 2147483647) (pos 2147483647)

abbrev long : Bytes
long = replicate 1000 97

long-length : 983 ≤ length (c_str long)
unfolding c_str
long-length = omega arith

long_message_cut_example :
    Offline.insert_sql (pos 3) long
    ≡ codes "insert into OfflineMessage values ('"
      ++ (show (pos 3) ++ (codes "', '" ++ take (983 - length (show (pos 3))) (c_str long)))
long_message_cut_example = long_message_cut (pos 3) long long-length
