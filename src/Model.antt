-- ===== src/Model.antt =====
-- The object-relational layer, src/server/model: what each class writes into its SQL text and how it
-- reads the rows that come back.
pub mod Types
pub mod User
pub mod Friend
pub mod Group
pub mod Offline
pub mod Bounds
mod Tests
