-- ===== src/Memory.antt =====
-- src/datastore/memory-store.ts: MemoryDataStore, the data store that keeps its maps in memory.
pub mod Store
pub mod Queries
pub mod Maps
pub mod Canonical
pub mod Calls
pub mod Agreement
mod Tests
