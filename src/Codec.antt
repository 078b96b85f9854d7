-- ===== src/Codec.antt =====
-- The binary message streams of common/src/codec.rs and common/src/message_types.rs.
pub mod MessageType
pub mod Encoder
pub mod Splitter
pub mod Decoder
pub mod RoundTrip
pub mod Chunks
pub mod Vector
