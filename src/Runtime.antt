-- ===== src/Runtime.antt =====
-- internal/runtime: the engines that serve the users, and what they share.
pub mod KeyStore
pub mod Counting
pub mod Config
pub mod Embedded
pub mod External
pub mod Server
pub mod Address
pub mod Samples
mod Tests
