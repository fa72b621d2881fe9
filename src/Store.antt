-- ===== src/Store.antt =====
-- internal/store: the records of types.go and the operations of store.go.
pub mod Types
pub mod Table
pub mod Redis
pub mod Pending
pub mod History
pub mod Locks
