-- ===== src/Postgres/Queries.antt =====
-- src/datastore/postgres-store.ts: the read path of PgDataStore. An `ORDER BY` is a stable sort: rows
-- that it leaves in any order keep the table's.
pub mod Rows
pub mod Lists
pub mod Events
pub mod Balances
pub mod Search
pub mod Heights
pub mod Picks
pub mod TxEvents
pub mod Sums
pub mod Supply
pub mod Conservation
mod Tests
