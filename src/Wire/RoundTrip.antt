-- ===== src/Wire/RoundTrip.antt =====
-- Parsing what the wire format describes gives it back: one module for each group of parsers.
pub mod Numbers
pub mod Conditions
pub mod Spending
pub mod Transaction
pub mod Blocks
pub mod Streams
pub mod Messages
pub mod Deliveries
