-- ===== src/Streams.antt =====
-- The package streams: readers and writers around other readers and writers.
pub mod Async
pub mod Dispenser
pub mod Limited
