-- ===== src/Astral.antt =====
-- The object model of astral/: fixed-width values, length-prefixed buffers and type headers.
pub mod Fixed
pub mod Sized
pub mod Types
pub mod Header
pub mod Takes
pub mod RoundTrip
pub mod ObjectId
