-- ===== src/Runtime/RoundTrip.antt =====
-- Writing and reading runtime values, against the wire form of Runtime/Coded.
pub mod Writing
pub mod Slots
pub mod Reading
pub mod Objects
