-- ===== src/Service.antt =====
-- The business layer of a server, src/server/chatService.cc. State: the connections of the users that
-- are logged in here, the database, and the calls made to Redis and to `TcpConnection::send`, oldest
-- first (the code ignores what these calls return). A handler is `none` where a JSON read throws.
pub mod State
pub mod Laws
pub mod Session
pub mod Chat
pub mod Groups
pub mod Dispatch
pub mod Run
pub mod Threads
pub mod Subscriptions
pub mod Keys
pub mod Delivery
pub mod Login
pub mod Frame
pub mod Close
pub mod Down
pub mod Toy
pub mod ToyDb
mod Tests
