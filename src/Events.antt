-- ===== src/Events.antt =====
-- src/event-stream: the messages of the node, and how they become updates of the data store.
pub mod Message
pub mod Hex
pub mod HexRoundTrip
pub mod Sender
pub mod Record
pub mod Server
pub mod Numbering
pub mod Chain
pub mod Mempool
pub mod Pending
pub mod Stored
mod Tests
