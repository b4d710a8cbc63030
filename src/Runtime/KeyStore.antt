-- ===== src/Runtime/KeyStore.antt =====
-- internal/runtime/key_store.go: the keys of the users, and the file that keeps generated ones.
pub mod Scalar
pub mod Derive
pub mod Split
pub mod State
pub mod File
pub mod Build
mod Tests
