-- ===== src/Transport.antt =====
-- The transport layer (src/transport/): envelopes and their ids, subscription filters, the
-- `Transport` trait, and the in-memory message board.
pub mod Envelope
pub mod Encoding
pub mod Filter
pub mod InMemory
pub mod Board
pub mod Trait
