-- ===== src/Lib.antt =====
-- The verification library of Cluster-chat-server: a chat server that runs as a cluster behind a load
-- balancer, on an epoll reactor of its own, with MySQL for accounts and messages and Redis between
-- the servers.
--
-- The program's parts and where they are modelled:
--
--   include/net/Buffer.h, src/net/Buffer.cc               Buffer: the byte buffer of a connection.
--     `init`, `append`, `ensure_writeable_bytes`, `make_space`, `retrieve`, `retrieve_all`,
--     `retrieve_as_string`, `retrieve_all_as_string`, `read_fd` and `write_fd` are the methods of
--     these names (the source spells two of them `retrive`).
--   include/net/Channel.h, src/net/Channel.cc             Net.Channel: what a descriptor waits for
--     and which callbacks an event calls.
--   src/net/EpollPoller.cc, src/net/Poller.cc             Net.Poller: the registration of channels in
--     the kernel, over the parameter `Epoll`.
--   include/net/TcpConnection.h, src/net/TcpConnection.cc Net.Connection: one connection; calls from
--     other threads in Net.Connection.Remote. `sendInLoop`
--     is `send_in_loop`, with its direct write as `write_direct` and what it keeps as `keep_rest`.
--   include/net/EventLoop.h, src/net/EventLoop.cc         Net.Loop: the functor queue, the eventfd and
--     `quit` as steps of the loop's thread and of other threads.
--   src/net/EventLoopThreadPool.cc                        Net.Pool: the choice of a loop in turn.
--   include/net/TcpServer.h, src/net/TcpServer.cc         Net.Server: the connection map and what is
--     asked of which loop; with `handRead` of src/net/Acceptor.cc and `toIpPort` of src/net/InetAddress.cc.
--   src/net/EventLoopThread.cc, src/net/Thread.cc         Net.Thread: the start of a loop's thread.
--   src/server/redis/redis.cc                             Redis, over the parameter `Hiredis`.
--   src/server/db/db.cc                                   Sql, over the parameter `MySql`.
--   src/server/model                                      Model: SQL texts and the reading of rows.
--   include/public.hpp                                    Protocol: the message numbers.
--   src/server/chatService.cc                             Service.State (connection map and effects),
--     Service.Session (`login`, `loginout`, `reg`, `clientCloseException`, `reset`), Service.Chat
--     (`oneChat`, `addFriend`, `handleRedisSubsribeMessage`), Service.Groups (`createGroup`,
--     `addGroup`, `groupChat`).
--   src/server/chatServer.cc, and `getHandler`            Service.Dispatch.
--   these handlers access by access, with `_mutex`          Service.Threads.
--   src/server/chatServer.cc with its connections          System: what the loops report goes in, and
--     what the handlers send goes out on the wires, at once to connections of the loop whose thread
--     runs the handler, through functors to the others. A handler is one step there.
--   src/server/main.cc                                    System.Start: `main` and the constructors
--     that it runs, with `bindAddress` and `listen` of src/net/Socket.cc.
--   src/client/main.cc                                    Client (globals, requests, the entries of
--     `main`), Client.Command (`mainMenu` and the commands), Client.Time (`getCurrentTime`),
--     Client.Main (the connection and the menu
--     of `main`), Client.Answer (`readTaskHandler`, `doLoginResponse`, `doRegResponse`). Client.Requests,
--     Client.EndToEnd, Client.Lists and Client.Login are about client and server together.
--
-- A readable event reaches the connection, which fills its input buffer and calls `onMessage`; that
-- takes the whole buffer as one JSON text and gives it to the handler of its message number; the
-- handler reads and writes the database, calls Redis and sends to connections of its own server.
-- A lost connection reaches `clientCloseException` the same way. Service.Run composes handlers,
-- Redis messages, lost connections and resets to histories.
--
-- The code that is not in the repository is a parameter: `JsonLib` (thirtpart/json.hpp is a copy of
-- another project), `MySql` (libmysqlclient and the server behind it), `Epoll` (the kernel),
-- `Hiredis` (the Redis client). What is relied on is in Service.Laws (`get<int>()` gives an int; a
-- selection by id gives rows with that id; the tables keep what is inserted), Json.Laws (what is
-- written is read back), Net.Poller.Sync (epoll_ctl(2)), Redis.Flush (a write sends something) and
-- Redis.Relay (what a subscriber gets). Service.Toy, Service.ToyDb, Redis.Tests and Net.Tests have
-- concrete libraries with which these laws hold. What `readv` and `write` answer is an argument of
-- the method that calls them.
--
-- Numbers: `size_t` sums and differences are taken modulo 2^64, and the buffer's theorems ask that
-- a buffer stays below 2^63 bytes, as a `std::vector<char>` does. Ids are integers; where they come
-- from JSON or go through `%d` and `atoi`, the theorems ask for 32-bit ints. `%d` runs on the fuel
-- of ten digits, as many as an int has. SQL texts are cut to the 1023 bytes of their buffers. The
-- loop that writes a Redis command runs on fuel, more than the bytes that wait. There is no other
-- fuel: the loops are over lists.
--
-- Not modelled: the socket options, the destructors, logging and the text of a time stamp in the
-- log; thread names and joining; the signal handler of src/server/main.cc but for `reset`; that the
-- two threads of the client run at the same time, beyond the semaphore; in Service.Threads the
-- handlers that do not use the connection map, and what other servers do to the database; the
-- lifetime of a connection whose methods wait in a loop's queue; `mysql_free_result` and null
-- columns; the freeing of Redis replies; that `dump` throws on text that is not UTF-8.
-- thirtpart/json.hpp, testJson and build are other projects' code, examples and build output.
pub mod Prelude
pub mod Buffer
pub mod Sql
pub mod Model
pub mod Json
pub mod Protocol
pub mod Service
pub mod System
pub mod Redis
pub mod Client
pub mod Net
