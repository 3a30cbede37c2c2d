-- ===== src/Geese/State.antt =====
-- src/geese/state.rs: the key-value store, the global key-values and the event subscriptions of
-- tenants, over the database. The definitions are in `Ops`, `Tables`, `Kv`, `Global`, `Events` and
-- `Exec`.
pub mod Ops
pub mod Tables
pub mod Kv
pub mod Global
pub mod Events
pub mod Exec
pub mod Induction
pub mod Atomicity
pub mod Scopes
pub mod Isolation
pub mod Fast
pub mod Reads
pub mod Subscriptions
pub mod GlobalKvs
pub mod Changes
pub mod Flag
pub mod Blobs
pub mod Examples
