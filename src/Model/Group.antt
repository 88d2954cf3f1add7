-- ===== src/Model/Group.antt =====
-- src/server/model/groupModel.cc.
use cluster_chat_server.Prelude.{
  List, [], ◌∷◌, ◌++◌, map, Bool, true, false, Option, none, some, get_or, if◌then◌else◌, ℤ, to_int,
}
use cluster_chat_server.Prelude.Text.{Bytes, codes, c_str, show, atoi, snprintf}
use cluster_chat_server.Sql
use cluster_chat_server.Sql.{MySql, Db, Row, connect_update, connect_query, connect}
use cluster_chat_server.Model.Types.{no_user, GroupUser, Group, no_group}

unfoldable pub create_group_sql : Group → Bytes
create_group_sql group = snprintf (
    codes "insert into AllGroup (groupname, groupdesc) values ('"
    ++ (c_str group.name ++ (codes "', '" ++ (c_str group.desc ++ codes "')"))))

unfoldable pub add_group_sql : ℤ → ℤ → Bytes → Bytes
add_group_sql userid groupid role = snprintf (
    codes "insert into GroupUser (groupid, userid, grouprole) values ("
    ++ (show groupid
        ++ (codes ", " ++ (show userid ++ (codes ", '" ++ (c_str role ++ codes "')"))))))

unfoldable pub groups_sql : ℤ → Bytes
groups_sql userid = snprintf (
    codes
      "select a.id, a.groupname, a.groupdesc from AllGroup a         inner join GroupUser b on a.id = b.groupid where b.userid="
    ++ show userid)

unfoldable pub members_sql : ℤ → Bytes
members_sql groupid = snprintf (
    codes
      "select a.id, a.name, a.state, b.grouprole from User a             inner join GroupUser b on a.id = b.userid where b.groupid = "
    ++ show groupid)

unfoldable pub group_users_sql : ℤ → ℤ → Bytes
group_users_sql userid groupid = snprintf (
    codes "select userid from GroupUser where groupid = "
    ++ (show groupid ++ (codes " and userid != " ++ show userid)))

unfoldable pub group_of_row : Row → Group
group_of_row row = record no_group {
  id = atoi (get_or row 0 []);
  name = get_or row 1 [];
  desc = get_or row 2 [];
}

unfoldable pub member_of_row : Row → GroupUser
member_of_row row = record {
  user = record no_user {
    id = atoi (get_or row 0 []);
    name = get_or row 1 [];
    state = get_or row 2 [];
  };
  role = get_or row 3 [];
}

unfoldable pub groups : Option (List Row) → List Group
unfolding group_of_row
groups none = []
groups (some rows) = map group_of_row rows

-- The members are pushed behind those that the group has.
unfoldable pub add_members : Option (List Row) → Group → Group
unfolding member_of_row
add_members none group = group
add_members (some rows) group = record group { users = group.users ++ map member_of_row rows }

unfoldable pub user_ids : Option (List Row) → List ℤ
user_ids none = []
user_ids (some rows) = map (λ row. atoi (get_or row 0 [])) rows

module _ ⦃S : MySql⦄ where
  unfoldable pub create_group : Group → Db → Bool × Group × Db
  create_group group db =
      let (created, db') = connect_update (create_group_sql group) db in
      if created
      then (true, record group { id = to_int (S.mysql_insert_id db') }, db')
      else (false, group, db')

  unfoldable pub add_group : ℤ → ℤ → Bytes → Db → Bool × Db
  add_group userid groupid role db = connect_update (add_group_sql userid groupid role) db

  -- The loop over the groups, one query for each on the connection that is open.
  unfoldable pub fill_members : List Group → Db → List Group × Db
  unfolding add_members
  fill_members [] db = ([], db)
  fill_members (group ∷ rest) db =
      let (rows, db') = Sql.query (members_sql group.id) db in
      let (filled, last) = fill_members rest db' in (add_members rows group ∷ filled, last)

  unfoldable pub query_groups : ℤ → Db → List Group × Db
  unfolding groups fill_members
  query_groups userid db =
      let (rows, db') = connect_query (groups_sql userid) db in fill_members (groups rows) db'

  unfoldable pub query_group_users : ℤ → ℤ → Db → List ℤ × Db
  unfolding user_ids
  query_group_users userid groupid db =
      let (rows, db') = connect_query (group_users_sql userid groupid) db in (user_ids rows, db')
