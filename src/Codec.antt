-- ===== src/Codec.antt =====
-- The wire format.
pub mod Base64
pub mod Message
pub mod Frames
pub mod Lines
pub mod Tests
