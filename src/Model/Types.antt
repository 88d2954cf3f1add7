-- ===== src/Model/Types.antt =====
-- The records of include/server/model: user.hpp, groupUser.hpp and group.hpp, with the values that
-- their constructors take by default.
use cluster_chat_server.Prelude.{List, [], ℤ, negsuc}
use cluster_chat_server.Prelude.Text.{Bytes, codes}

pub record User : Type 0 where
  pub id : ℤ
  pub name : Bytes
  pub password : Bytes
  pub state : Bytes

abbrev pub online : Bytes
online = codes "online"

abbrev pub offline : Bytes
offline = codes "offline"

-- `User()`: the id -1 says that there is no such user.
abbrev pub no_user : User
no_user = record { id = negsuc 0; name = []; password = []; state = offline }

-- `GroupUser` is a `User` with a role.
pub record GroupUser : Type 0 where
  pub user : User
  pub open user use *
  pub role : Bytes

pub record Group : Type 0 where
  pub id : ℤ
  pub name : Bytes
  pub desc : Bytes
  pub users : List GroupUser

abbrev pub no_group : Group
no_group = record { id = negsuc 0; name = []; desc = []; users = [] }
