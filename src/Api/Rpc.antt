-- ===== src/Api/Rpc.antt =====
-- src/api/routes/ws-rpc.ts: the subscriptions of websocket clients and what they are sent.
pub mod Subscriptions
pub mod Topics
pub mod Runs
pub mod Handlers
pub mod Answers
mod Tests
