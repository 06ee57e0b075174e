-- ===== src/Wire.antt =====
-- The binary wire format: src/binary-reader.ts, src/p2p/tx.ts, src/p2p/block-header.ts,
-- src/p2p/block.ts and src/p2p/messages.ts.
pub mod Signed
pub mod Reader
pub mod Tx
pub mod Fields
pub mod PostConditions
pub mod Spending
pub mod Payload
pub mod Transaction
pub mod Block
pub mod Stream
pub mod Messages
pub mod Reads
pub mod Encode
pub mod Encodable
pub mod RoundTrip
pub mod Sample
pub mod SampleStream
pub mod Rejects
mod Tests
