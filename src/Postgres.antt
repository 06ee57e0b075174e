-- ===== src/Postgres.antt =====
-- src/datastore/postgres-store.ts: the write path of PgDataStore, the reorganisation of the chain
-- included, and its queries.
pub mod Tables
pub mod Reorg
pub mod Refusals
pub mod Update
pub mod Chain
pub mod Queries
mod Tests
