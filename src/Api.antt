-- ===== src/Api.antt =====
-- src/api and what it uses of src/helpers.ts: the API's view of the stored data, its parameters, its
-- search, its subscriptions and the faucets' limit.
pub mod Services
pub mod Sample
pub mod PostConditions
pub mod Labels
pub mod Events
pub mod Payloads
pub mod Transactions
pub mod Lookup
pub mod Terms
pub mod Principals
pub mod Hashes
pub mod Paging
pub mod Rpc
pub mod Routes
pub mod Faucets
mod Tests
