-- ===== src/Api/Routes.antt =====
-- src/api/routes: the handlers of the HTTP routes over the data store. What they throw becomes a reply
-- of status 500 in the error handler of src/api/init.ts.
pub mod Search
pub mod Lists
pub mod Addresses
pub mod Blocks
pub mod Transactions
pub mod HashText
pub mod Known
mod Tests
