-- ===== src/Net/Server/Tests.antt =====
-- A run of a server with two loops: three clients, one of which leaves.
use cluster_chat_server.Prelude.{◌≡◌, List, [], ◌∷◌, map, pos, negsuc, arith}
use cluster_chat_server.Prelude.Text.{Bytes, codes}
use cluster_chat_server.Net.Server.{
  TcpConn, Event, starts, readable, closes, init, run, destruct, to_ip_port, connection_name,
}
use cluster_chat_server.Net.Server.Names.{Distinct}
use cluster_chat_server.Net.Server.Live.{entry, alive}
use cluster_chat_server.Net.Server.Sound.{server_sound}

abbrev ip : Bytes
ip = codes "127.0.0.1"

abbrev second : TcpConn
second = record {
  name = connection_name (codes "ChatServer") (to_ip_port ip 8000) 2;
  sockfd = 9;
  loop = 2;
}

abbrev events : List Event
events =
    starts (1 ∷ 2 ∷ [])
    ∷ readable (pos 8)
    ∷ readable (pos 9)
    ∷ readable (negsuc 0)
    ∷ closes second
    ∷ readable (pos 10)
    ∷ []

server_sound_example :
    let s = run events (init 0 (to_ip_port ip 8000) (codes "ChatServer")) in
    Distinct s.connections
    × (s.connections ≡ map entry (alive s.asked))
    × (alive (destruct s).asked ≡ [])
server_sound_example =
    server_sound 0 8000 ip (codes "ChatServer") events (omega arith) (omega arith)
