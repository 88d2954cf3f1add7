-- ===== src/Protocol.antt =====
-- The message numbers that clients and servers share: include/public.hpp.
use cluster_chat_server.Prelude.{ℤ, pos}

abbrev pub login_msg : ℤ
login_msg = pos 1

abbrev pub login_msg_ack : ℤ
login_msg_ack = pos 2

abbrev pub reg_msg : ℤ
reg_msg = pos 3

abbrev pub reg_msg_ack : ℤ
reg_msg_ack = pos 4

abbrev pub one_chat_msg : ℤ
one_chat_msg = pos 5

abbrev pub add_friend_msg : ℤ
add_friend_msg = pos 6

abbrev pub create_group_msg : ℤ
create_group_msg = pos 7

abbrev pub add_group_msg : ℤ
add_group_msg = pos 8

abbrev pub group_chat_msg : ℤ
group_chat_msg = pos 9

abbrev pub loginout_msg : ℤ
loginout_msg = pos 10
