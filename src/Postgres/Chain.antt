-- ===== src/Postgres/Chain.antt =====
-- The chain of canonical blocks: what a block table must satisfy, and that `update` keeps it.
pub mod Invariant
pub mod Restore
pub mod Mending
pub mod Round
pub mod Recursion
pub mod Tip
pub mod Insert
pub mod Updates
pub mod Keeps
pub mod Canonical
pub mod Ancestors
pub mod Stale
pub mod Mined
